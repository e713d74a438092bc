-- ===== src/LogSystem/Worker/Shutdown.antt =====
-- logSystem/logsCode/AsyncWorker.hpp: `Stop` ends the consumer, and nothing accepted is lost.
use asyn_log_system.Prelude.{
  ℕ, ◌≤◌, ◌≡◌, refl, ◌≢◌, ap, ◌⊎◌, inl, inr, ◌↔◌, true, false, List, concat, none, some, zero, suc,
  Bool-cases, ◌∙◌, arith, append-nil,
}
use asyn_log_system.LogSystem.Config.{Config}
use asyn_log_system.LogSystem.Buffer
use asyn_log_system.LogSystem.Buffer.{max_size, Buffer, contents, is_empty}
use asyn_log_system.LogSystem.Buffer.Views.{contents-is_empty}
use asyn_log_system.LogSystem.Worker.{
  AsyncType, Reach, Pc, waiting, flushing, checking_stop, checking_empty, returned, Worker,
  swap_buffers, flush_consumer, consume, consume_at, drain, or_stay,
}
use asyn_log_system.LogSystem.Worker.Invariant.{Inv, Reach-Inv, consume-Inv, contents-unwritten}

-- The consumer waits only while there is nothing to do, and only before `Stop`.
IsIdle : Worker → Type 0
IsIdle w = (w.pc ≡ waiting) × (w.stop ≡ false) × (is_empty w.productor ≡ true)

consume_at-none :
    (p : Pc) (w : Worker)
    → consume_at p w ≡ none
    → (p ≡ returned) ⊎ ((p ≡ waiting) × (w.stop ≡ false) × (is_empty w.productor ≡ true))
unfolding consume_at
consume_at-none waiting w e = ground arith
consume_at-none flushing w e = cc
consume_at-none checking_stop w e = cc
consume_at-none checking_empty w e = cc
consume_at-none returned w e = inl refl

none-consume_at :
    (p : Pc) (w : Worker)
    → (p ≡ returned) ⊎ ((p ≡ waiting) × (w.stop ≡ false) × (is_empty w.productor ≡ true))
    → consume_at p w ≡ none
unfolding consume_at
none-consume_at p w h = ground arith

-- The consumer thread cannot move exactly if it has returned, or waits with no stop requested and
-- an empty producers' buffer.
pub consume-none :
    (w : Worker)
    → (consume w ≡ none)
      ↔ ((w.pc ≡ returned) ⊎ ((w.pc ≡ waiting) × (w.stop ≡ false) × (is_empty w.productor ≡ true)))
unfolding consume
consume-none w = (consume_at-none w.pc w, none-consume_at w.pc w)

-- `n` steps of the consumer alone end its thread, with all of `sent` delivered.
abbrev pub Finishes : ℕ → Worker → List ℕ → Type 0
Finishes n w sent = ((drain n w).pc ≡ returned) × (concat (drain n w).delivered ≡ sent)

pub drain-step : (n : ℕ) (w w' : Worker) → consume w ≡ some w' → drain (suc n) w ≡ drain n w'
unfolding drain
drain-step n w w' e = ap (λ o. drain n (or_stay w o)) e

Finishes-step :
    (n : ℕ) (w w' : Worker) {sent : List ℕ}
    → consume w ≡ some w'
    → Finishes n w' sent
    → Finishes (suc n) w sent
Finishes-step n w w' e f = rw (drain-step n w w' e) f

pub drain-returned : (n : ℕ) (w : Worker) → w.pc ≡ returned → drain n w ≡ w
unfolding drain
drain-returned zero w h = refl
drain-returned (suc n) w h =
    ap (λ o. drain n (or_stay w o)) ((consume-none w).1 (inl h)) ∙ drain-returned n w h

-- With both buffers empty all has been delivered.
concat-delivered :
    {c : Config} {w : Worker} {sent : List ℕ}
    → Inv c w sent
    → w.consumer.write_pos ≡ 0
    → is_empty w.productor ≡ true
    → concat w.delivered ≡ sent
concat-delivered {w = w} v h e =
    rw (contents-unwritten w.consumer h, contents-is_empty w.productor e, append-nil, append-nil) at
      v.conserved

-- The callback's part of a round leaves the producers' side alone.
pub flush_consumer_lem :
    (w : Worker)
    → ((flush_consumer w).pc ≡ checking_stop)
      × ((flush_consumer w).stop ≡ w.stop)
      × ((flush_consumer w).productor ≡ w.productor)
unfolding flush_consumer
flush_consumer_lem w = ground arith

-- After the swap the producers have the cleared buffer.
swapped_empty :
    (w : Worker)
    → w.consumer.write_pos ≡ 0
    → w.consumer.read_pos ≡ 0
    → is_empty (swap_buffers w).productor ≡ true
unfolding swap_buffers Buffer.swap is_empty
swapped_empty w h k = ground arith

-- The consumer's step, read off its position.
pub consume-at : (p : Pc) (w : Worker) → w.pc ≡ p → consume w ≡ consume_at p w
unfolding consume
consume-at p w at = ap (λ q. consume_at q w) at

module _ {c : Config} {sent : List ℕ} where
  finish_checking_empty :
      (n : ℕ) (w : Worker)
      → Inv c w sent
      → w.pc ≡ checking_empty
      → is_empty w.productor ≡ true
      → Finishes (suc n) w sent
  unfolding consume_at
  finish_checking_empty n w v at e =
      let last : Worker = record w { pc = returned } in
      Finishes-step n w last (consume-at checking_empty w at ∙ rw e)
        (rw (drain-returned n last refl) (refl, concat-delivered v (rw at at v.clear) e))

  finish_checking_stop :
      (n : ℕ) (w : Worker)
      → Inv c w sent
      → w.stop ≡ true
      → w.pc ≡ checking_stop
      → is_empty w.productor ≡ true
      → Finishes (suc (suc n)) w sent
  unfolding consume_at
  finish_checking_stop n w v s at e =
      let w' : Worker = record w { pc = checking_empty } in
      let go : consume w ≡ some w' = consume-at checking_stop w at ∙ rw s in
      Finishes-step (suc n) w w' go (finish_checking_empty n w' (consume-Inv go v) refl e)

  finish_flushing :
      (n : ℕ) (w : Worker)
      → Inv c w sent
      → w.stop ≡ true
      → w.pc ≡ flushing
      → is_empty w.productor ≡ true
      → Finishes (suc (suc (suc n))) w sent
  unfolding consume_at
  finish_flushing n w v s at e =
      let go : consume w ≡ some (flush_consumer w) = consume-at flushing w at in
      let (pc, stop, productor) = flush_consumer_lem w in
      Finishes-step (suc (suc n)) w (flush_consumer w) go (
        finish_checking_stop n (flush_consumer w) (consume-Inv go v) (stop ∙ s) pc
          (ap is_empty productor ∙ e))

  finish_waiting :
      (n : ℕ) (w : Worker)
      → Inv c w sent
      → w.stop ≡ true
      → w.pc ≡ waiting
      → Finishes (suc (suc (suc (suc n)))) w sent
  unfolding consume_at
  finish_waiting n w v s at =
      let go : consume w ≡ some (swap_buffers w) = consume-at waiting w at ∙ rw s in
      Finishes-step (suc (suc (suc n))) w (swap_buffers w) go (
        finish_flushing n (swap_buffers w) (consume-Inv go v) (unfold swap_buffers in s)
          (unfold swap_buffers in refl) (swapped_empty w (rw at at v.clear) v.consumer_unread))

  finish_checking_empty_any :
      (n : ℕ) (w : Worker)
      → Inv c w sent
      → w.stop ≡ true
      → w.pc ≡ checking_empty
      → Finishes (suc (suc (suc (suc (suc n))))) w sent
  unfolding consume_at
  finish_checking_empty_any n w v s at = elim (Bool-cases (is_empty w.productor)) [
    | inl e ↦ finish_checking_empty (suc (suc (suc (suc n)))) w v at e
    | inr e ↦
        let w' : Worker = record w { pc = waiting } in
        let go : consume w ≡ some w' = consume-at checking_empty w at ∙ rw e in
        Finishes-step (suc (suc (suc (suc n)))) w w' go
          (finish_waiting n w' (consume-Inv go v) s refl)
  ]

  finish_checking_stop_any :
      (n : ℕ) (w : Worker)
      → Inv c w sent
      → w.stop ≡ true
      → w.pc ≡ checking_stop
      → Finishes (suc (suc (suc (suc (suc (suc n)))))) w sent
  unfolding consume_at
  finish_checking_stop_any n w v s at =
      let w' : Worker = record w { pc = checking_empty } in
      let go : consume w ≡ some w' = consume-at checking_stop w at ∙ rw s in
      Finishes-step (suc (suc (suc (suc (suc n))))) w w' go
        (finish_checking_empty_any n w' (consume-Inv go v) s refl)

  finish_flushing_any :
      (n : ℕ) (w : Worker)
      → Inv c w sent
      → w.stop ≡ true
      → w.pc ≡ flushing
      → Finishes (suc (suc (suc (suc (suc (suc (suc n))))))) w sent
  unfolding consume_at
  finish_flushing_any n w v s at =
      let go : consume w ≡ some (flush_consumer w) = consume-at flushing w at in
      let (pc, stop, productor) = flush_consumer_lem w in
      Finishes-step (suc (suc (suc (suc (suc (suc n)))))) w (flush_consumer w) go
        (finish_checking_stop_any n (flush_consumer w) (consume-Inv go v) (stop ∙ s) pc)

  finish_at :
      (p : Pc) (w : Worker)
      → Inv c w sent
      → w.stop ≡ true
      → p ≢ returned
      → w.pc ≡ p
      → Finishes 7 w sent
  finish_at waiting w v s h at = finish_waiting 3 w v s at
  finish_at flushing w v s h at = finish_flushing_any 0 w v s at
  finish_at checking_stop w v s h at = finish_checking_stop_any 1 w v s at
  finish_at checking_empty w v s h at = finish_checking_empty_any 2 w v s at
  finish_at returned w v s h at = absurd (h refl)

-- In a reachable state after Stop, if buffer_size is at most 2^63 - 1 and nothing more is pushed,
-- a consumer thread that has not returned does so within seven of its steps, with all bytes pushed
-- delivered to the callback in their order.
pub drain-Finishes :
    {c : Config} {t : AsyncType} (w : Worker) (sent : List ℕ)
    → c.buffer_size ≤ max_size
    → Reach c t w sent
    → w.stop ≡ true
    → w.pc ≢ returned
    → Finishes 7 w sent
drain-Finishes w sent h r s p = finish_at w.pc w (Reach-Inv h r) s p refl

returned_empty :
    (p : Pc) (w w' : Worker)
    → consume_at p w ≡ some w'
    → w'.pc ≡ returned
    → is_empty w'.productor ≡ true
unfolding consume_at swap_buffers flush_consumer
returned_empty waiting w w' e h = ground arith
returned_empty flushing w w' e h = ground arith
returned_empty checking_stop w w' e h = ground arith
returned_empty checking_empty w w' e h = ground arith
returned_empty returned w w' e h = cc

-- If buffer_size is at most 2^63 - 1, at the step from a reachable state at which the consumer
-- thread returns, Stop has been called and all bytes pushed so far have been delivered in their
-- order.
pub consume_to_returned :
    {c : Config} {t : AsyncType} (w w' : Worker) (sent : List ℕ)
    → c.buffer_size ≤ max_size
    → Reach c t w sent
    → consume w ≡ some w'
    → w'.pc ≡ returned
    → (concat w'.delivered ≡ sent) × (w'.stop ≡ true)
unfolding consume
consume_to_returned w w' sent h r e p =
    let v = consume-Inv e (Reach-Inv h r) in
    (concat-delivered v (rw p at v.clear) (returned_empty w.pc w w' e p), rw p at v.stopped)
