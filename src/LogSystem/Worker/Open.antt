-- ===== src/LogSystem/Worker/Open.antt =====
-- logSystem/logsCode/AsyncWorker.hpp: a worker before Stop, and how large its buffers can become.
use asyn_log_system.LogSystem.Worker.Invariant.{Reach-Inv, HasStopped}
use asyn_log_system.LogSystem.Buffer.Growth.{length-push-if}
use asyn_log_system.LogSystem.Buffer.Contents.{push_total}
use asyn_log_system.LogSystem.Buffer
use asyn_log_system.LogSystem.Buffer.{max_size, Buffer, grown_size}
use asyn_log_system.LogSystem.Config.{Config}
use asyn_log_system.LogSystem.Worker.{
  start, AsyncType, Worker, Reach, next, pushes, consumes, Pc, waiting, flushing, checking_stop,
  checking_empty, returned, init, consume, consume_at, drain, or_stay, can_push, push, lift_fault,
  swap_buffers, flush_consumer,
}
use asyn_log_system.Prelude.{
  length-replicate, ◌++◌, ℕ, ◌+◌, ◌*◌, ◌≤◌, ◌≡◌, ◌≢◌, refl, sym, inl, inr, ◌∙◌, subst, true, false,
  List, [], length, some, zero, suc, ok, Option-cases, arith, append-nil,
}

-- A worker before Stop, with buffers of at most `k` bytes.
pub record IsOpen (c : Config) (t : AsyncType) (k : ℕ) (w : Worker) (sent : List ℕ) : Type 0 where
  pub reach : Reach c t w sent
  pub not_stopped : w.stop ≡ false
  pub productor_most : length w.productor.storage ≤ k
  pub consumer_most : length w.consumer.storage ≤ k

consume_at-same :
    (p : Pc) (w w' : Worker) (k : ℕ)
    → consume_at p w ≡ some w'
    → length w.productor.storage ≤ k
    → length w.consumer.storage ≤ k
    → (w'.stop ≡ w.stop) × (length w'.productor.storage ≤ k) × (length w'.consumer.storage ≤ k)
unfolding consume_at swap_buffers Buffer.swap flush_consumer Buffer.reset
consume_at-same waiting w w' k e p q = ground arith
consume_at-same flushing w w' k e p q = ground arith
consume_at-same checking_stop w w' k e p q = ground arith
consume_at-same checking_empty w w' k e p q = ground arith
consume_at-same returned w w' k e p q = cc

-- How much longer a push of at most buffer_size bytes can make a buffer.
abbrev pub growth : Config → ℕ
growth c = c.linear_growth + c.buffer_size

grown_size_le :
    (c : Config) (k current len : ℕ)
    → 2 * c.threshold + c.buffer_size ≤ k
    → len ≤ c.buffer_size
    → current ≤ k
    → grown_size c current len ≤ k + growth c
grown_size_le c k current len low fits most = ground arith

module _ {c : Config} {t : AsyncType} where
  pub IsOpen-consume :
      {k : ℕ} {w w' : Worker} {sent : List ℕ}
      → consume w ≡ some w'
      → IsOpen c t k w sent
      → IsOpen c t k w' sent
  IsOpen-consume {k} {w} {w'} {sent} e o =
      let (stop, p, q) =
        consume_at-same w.pc w w' k (unfold consume in e) o.productor_most o.consumer_most in
      record {
        reach = subst (Reach c t w') (append-nil sent) (next o.reach (consumes e));
        not_stopped = stop ∙ o.not_stopped;
        productor_most = p;
        consumer_most = q;
      }

  pub IsOpen-drain :
      (n : ℕ) {k : ℕ} {w : Worker} {sent : List ℕ}
      → IsOpen c t k w sent
      → IsOpen c t k (drain n w) sent
  unfolding drain
  IsOpen-drain zero o = o
  IsOpen-drain (suc n) {k} {w} {sent} o = elim (Option-cases (consume w)) [
    | inl e ↦ subst (λ x. IsOpen c t k (drain n (or_stay w x)) sent) (sym e) (IsOpen-drain n o)
    | inr (w', e) ↦
        subst (λ x. IsOpen c t k (drain n (or_stay w x)) sent) (sym e)
          (IsOpen-drain n (IsOpen-consume e o))
  ]

  pub running :
      {k : ℕ} {w : Worker} {sent : List ℕ}
      → c.buffer_size ≤ max_size
      → IsOpen c t k w sent
      → w.pc ≢ returned
  running {w = w} small o e =
      let v = Reach-Inv small o.reach in
      cc (subst (λ p. HasStopped p w.stop) e v.stopped, o.not_stopped)

  pub IsOpen-push :
      (k : ℕ) (ds : List ℕ) (w : Worker) (sent : List ℕ)
      → 2 * c.threshold + c.buffer_size ≤ k
      → k + growth c ≤ max_size
      → length ds ≤ c.buffer_size
      → can_push (length ds) w ≡ true
      → IsOpen c t k w sent
      → (w' : Worker) × (push c ds w ≡ ok w') × IsOpen c t (k + growth c) w' (sent ++ ds)
  unfolding push lift_fault
  IsOpen-push k ds w sent low high fits room o =
      let v = Reach-Inv (omega arith) o.reach in
      let grown : grown_size c (length w.productor.storage) (length ds) ≤ k + growth c =
        grown_size_le c k (length w.productor.storage) (length ds) low fits o.productor_most in
      let (b, done, pushed) =
        push_total c ds w.productor (omega arith) (omega arith) v.productor_valid in
      let size = length-push-if c ds w.productor b done in
      let w' : Worker = record w { productor = b } in
      let e : push c ds w ≡ ok w' = rw (room, done) in
      (
        w',
        e,
        record {
          reach = next o.reach (pushes ds (omega arith) e);
          not_stopped = o.not_stopped;
          productor_most = ground arith;
          consumer_most = omega arith;
        },
      )

pub IsOpen-init :
    (c : Config) (t : AsyncType) → IsOpen c t (2 * c.threshold + c.buffer_size) (init c t) []
unfolding init Buffer.init
IsOpen-init c t = record {
  reach = start;
  not_stopped = refl;
  productor_most = omega (arith, length-replicate {A = ℕ} c.buffer_size 0);
  consumer_most = omega (arith, length-replicate {A = ℕ} c.buffer_size 0);
}
