-- ===== src/LogSystem/Worker/Producers.antt =====
-- logSystem/logsCode/AsyncWorker.hpp: which producers get past the wait of `Push`.
use asyn_log_system.Prelude.{
  ℕ, ◌≤◌, ◌<◌, ◌≡◌, refl, ◌≢◌, ap, inl, inr, true, false, List, length, some, zero, suc, ok, err,
  Bool-cases, Option-cases, ◌∙◌, arith,
}
use asyn_log_system.LogSystem.Config.{Config}
use asyn_log_system.LogSystem.Buffer
use asyn_log_system.LogSystem.Buffer.{max_size, Buffer, contents, is_empty, writeable_size}
use asyn_log_system.LogSystem.Buffer.Contents.{push-ok}
use asyn_log_system.LogSystem.Buffer.Growth.{length-push}
use asyn_log_system.LogSystem.Worker.{
  AsyncType, async_safe, Reach, Pc, waiting, flushing, checking_stop, checking_empty, returned,
  Worker, swap_buffers, flush_consumer, consume, consume_at, drain, or_stay, can_push, push,
  would_block,
}
use asyn_log_system.LogSystem.Worker.Invariant.{Inv, Reach-Inv, consume-Inv, push-eq-ok}
use asyn_log_system.LogSystem.Worker.Shutdown.{consume-at, drain-step, flush_consumer_lem}

-- A clear buffer has room for what fits into its storage.
pub can_push-clear :
    (len : ℕ) (w : Worker)
    → w.productor.write_pos ≡ 0
    → len ≤ length w.productor.storage
    → length w.productor.storage ≤ max_size
    → can_push len w ≡ true
unfolding can_push
can_push-clear len w h k l = ground arith

-- Who has to wait finds bytes in the producers' buffer.
pub nonempty_of_full :
    (len : ℕ) {c : Config} {w : Worker} {sent : List ℕ}
    → Inv c w sent
    → len ≤ c.buffer_size
    → can_push len w ≡ false
    → is_empty w.productor ≡ false
unfolding can_push is_empty
nonempty_of_full len v h k = ground arith

swapped_room :
    (len : ℕ) (w : Worker)
    → w.consumer.write_pos ≡ 0
    → len ≤ length w.consumer.storage
    → length w.consumer.storage ≤ max_size
    → can_push len (drain 0 (swap_buffers w)) ≡ true
unfolding drain swap_buffers Buffer.swap can_push
swapped_room len w h k l = ground arith

-- At most `k` steps of the consumer alone make room for `len` bytes.
abbrev pub Soon : ℕ → Worker → ℕ → Type 0
Soon k w len = (n : ℕ) × (n ≤ k) × (can_push len (drain n w) ≡ true)

Soon-step : (k len : ℕ) (w w' : Worker) → consume w ≡ some w' → Soon k w' len → Soon (suc k) w len
Soon-step k len w w' e (n, le, room) = (suc n, omega arith, rw (drain-step n w w' e) room)

Soon-weaken : (j k : ℕ) (w : Worker) (len : ℕ) → j ≤ k → Soon j w len → Soon k w len
Soon-weaken j k w len h (n, le, room) = (n, omega arith, room)

module _ {c : Config} {sent : List ℕ} (len : ℕ) (fits : len ≤ c.buffer_size) where
  serve_waiting :
      (w : Worker) → Inv c w sent → w.pc ≡ waiting → is_empty w.productor ≡ false → Soon 1 w len
  unfolding consume_at
  serve_waiting w v at e =
      let go : consume w ≡ some (swap_buffers w) = consume-at waiting w at ∙ ground arith in
      Soon-step 0 len w (swap_buffers w) go
        (0, omega arith, swapped_room len w (rw at at v.clear) (omega arith) v.consumer_valid.small)

  serve_checking_empty :
      (w : Worker)
      → Inv c w sent
      → w.pc ≡ checking_empty
      → is_empty w.productor ≡ false
      → Soon 2 w len
  unfolding consume_at
  serve_checking_empty w v at e =
      let w' : Worker = record w { pc = waiting } in
      let go : consume w ≡ some w' = consume-at checking_empty w at ∙ rw e in
      Soon-step 1 len w w' go (serve_waiting w' (consume-Inv go v) refl e)

  serve_checking_stop :
      (w : Worker)
      → Inv c w sent
      → w.pc ≡ checking_stop
      → is_empty w.productor ≡ false
      → Soon 3 w len
  unfolding consume_at
  serve_checking_stop w v at e = elim (Bool-cases w.stop) [
    | inl s ↦
        let w' : Worker = record w { pc = checking_empty } in
        let go : consume w ≡ some w' = consume-at checking_stop w at ∙ rw s in
        Soon-step 2 len w w' go (serve_checking_empty w' (consume-Inv go v) refl e)
    | inr s ↦
        let w' : Worker = record w { pc = waiting } in
        let go : consume w ≡ some w' = consume-at checking_stop w at ∙ rw s in
        Soon-weaken 2 3 w len (omega arith)
          (Soon-step 1 len w w' go (serve_waiting w' (consume-Inv go v) refl e))
  ]

  serve_flushing :
      (w : Worker) → Inv c w sent → w.pc ≡ flushing → is_empty w.productor ≡ false → Soon 4 w len
  unfolding consume_at
  serve_flushing w v at e =
      let go : consume w ≡ some (flush_consumer w) = consume-at flushing w at in
      let (pc, stop, productor) = flush_consumer_lem w in
      Soon-step 3 len w (flush_consumer w) go
        (serve_checking_stop (flush_consumer w) (consume-Inv go v) pc (ap is_empty productor ∙ e))

  serve_at :
      (p : Pc) (w : Worker)
      → Inv c w sent
      → p ≢ returned
      → w.pc ≡ p
      → is_empty w.productor ≡ false
      → Soon 4 w len
  serve_at waiting w v h at e = Soon-weaken 1 4 w len (omega arith) (serve_waiting w v at e)
  serve_at flushing w v h at e = serve_flushing w v at e
  serve_at checking_stop w v h at e =
      Soon-weaken 3 4 w len (omega arith) (serve_checking_stop w v at e)
  serve_at checking_empty w v h at e =
      Soon-weaken 2 4 w len (omega arith) (serve_checking_empty w v at e)
  serve_at returned w v h at e = absurd (h refl)

-- In a reachable state, if buffer_size is at most 2^63 - 1 and the consumer thread has not
-- returned, the condition of Push's wait for at most buffer_size bytes is true after at most four
-- steps that the consumer makes alone.
pub producer_served :
    {c : Config} {t : AsyncType} (w : Worker) (sent : List ℕ) (len : ℕ)
    → c.buffer_size ≤ max_size
    → Reach c t w sent
    → w.pc ≢ returned
    → len ≤ c.buffer_size
    → Soon 4 w len
producer_served w sent len h r p fits = elim (Bool-cases (can_push len w)) [
  | inl now ↦ (0, omega arith, unfold drain in now)
  | inr full ↦
      let v = Reach-Inv h r in serve_at len fits w.pc w v p refl (nonempty_of_full len v fits full)
]

-- A worker of the safe type with both buffers shorter than `len`.
record IsTooSmall (len : ℕ) (w : Worker) : Type 0 where
  safe : w.async_type ≡ async_safe
  productor_small : length w.productor.storage < len
  consumer_small : length w.consumer.storage < len

consume_at-IsTooSmall :
    (p : Pc) (len : ℕ) (w w' : Worker)
    → consume_at p w ≡ some w'
    → IsTooSmall len w
    → IsTooSmall len w'
unfolding consume_at swap_buffers Buffer.swap flush_consumer Buffer.reset
consume_at-IsTooSmall waiting len w w' e v = ground arith
consume_at-IsTooSmall flushing len w w' e v = ground arith
consume_at-IsTooSmall checking_stop len w w' e v = ground arith
consume_at-IsTooSmall checking_empty len w w' e v = ground arith
consume_at-IsTooSmall returned len w w' e v = cc

blocked_of_IsTooSmall :
    {c : Config} (len : ℕ) {w : Worker} {sent : List ℕ}
    → Inv c w sent
    → IsTooSmall len w
    → can_push len w ≡ false
unfolding can_push
blocked_of_IsTooSmall len v s = ground arith

blocked-drain :
    {c : Config} {sent : List ℕ} (n len : ℕ) (w : Worker)
    → Inv c w sent
    → IsTooSmall len w
    → can_push len (drain n w) ≡ false
unfolding drain
blocked-drain zero len w v s = blocked_of_IsTooSmall len v s
blocked-drain (suc n) len w v s = elim (Option-cases (consume w)) [
  | inl e ↦ ap (λ o. can_push len (drain n (or_stay w o))) e ∙ blocked-drain n len w v s
  | inr (w', e) ↦ rw (drain-step n w w' e) (
      blocked-drain n len w' (consume-Inv e v)
        (consume_at-IsTooSmall w.pc len w w' (unfold consume in e) s))
]

-- With a worker of the safe type that satisfies the invariant, a message longer than the storage
-- of each of the two buffers waits in Push, however many steps the consumer has made alone.
pub drain_oversized :
    {c : Config} {w : Worker} {sent : List ℕ} (n : ℕ) (ds : List ℕ)
    → Inv c w sent
    → w.async_type ≡ async_safe
    → length w.productor.storage < length ds
    → length w.consumer.storage < length ds
    → push c ds (drain n w) ≡ err would_block
unfolding push
drain_oversized {w = w} n ds v t p q =
    let s : IsTooSmall (length ds) w = record {
      safe = t;
      productor_small = p;
      consumer_small = q;
    } in
    rw (blocked-drain n (length ds) w v s)

-- With a worker of the safe type that satisfies the invariant, a positive linear_growth of at most
-- 2^63 - 1 and a producers' buffer that has some storage, a push of exactly as many bytes as are
-- writeable does not wait, and if it succeeds it enlarges the producers' buffer.
pub push_exact_fit :
    {c : Config} {w w' : Worker} {sent : List ℕ} (ds : List ℕ)
    → Inv c w sent
    → 0 < c.linear_growth
    → c.linear_growth ≤ max_size
    → 0 < length w.productor.storage
    → w.async_type ≡ async_safe
    → length ds ≡ writeable_size w.productor
    → push c ds w ≡ ok w'
    → (can_push (length ds) w ≡ true) × (length w.productor.storage < length w'.productor.storage)
unfolding can_push
push_exact_fit {c} {w} {w'} ds v g k n t fit e =
    let (b, done, same) = push-eq-ok c ds w w' e in
    let short : length ds ≤ max_size = omega (arith, v.productor_valid) in
    let p = push-ok c ds w.productor b short v.productor_valid done in
    let size = length-push c ds w.productor b g k n short v.productor_valid done in
    let other : length b.storage ≢ length w.productor.storage =
      λ q. absurd (omega (arith, size.0 q, v.productor_valid)) in
    let grown : length w.productor.storage < length b.storage = omega (arith, p.no_smaller) in
    (ground arith, rw same grown)
