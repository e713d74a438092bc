-- ===== src/LogSystem/Worker/Delivered.antt =====
-- logSystem/logsCode/AsyncWorker.hpp: the callback is never called with an empty buffer.
use asyn_log_system.LogSystem.Worker.Invariant.{Inv, Reach-Inv, push-eq-ok}
use asyn_log_system.LogSystem.Buffer.{max_size, Buffer, is_empty, read, readable_size}
use asyn_log_system.LogSystem.Buffer.Contents.{IsValid}
use asyn_log_system.LogSystem.Config.{Config}
use asyn_log_system.LogSystem.Worker.{
  start, AsyncType, Worker, Reach, next, pushes, consumes, stops, Pc, waiting, flushing,
  checking_stop, checking_empty, returned, init, consume, consume_at, drain, or_stay, request_stop,
  swap_buffers, flush_consumer,
}
use asyn_log_system.Prelude.{
  drop, ℕ, ◌≤◌, ◌≡◌, sym, inl, inr, subst, false, List, [], ◌∷◌, ◌++◌, length, concat, some, zero,
  suc, Bool-cases, Option-cases, length-append, length-take, length-drop, some_injective, arith,
  append-nil,
}

-- At least one byte in each call.
abbrev pub NoneEmpty : List (List ℕ) → Type 0
NoneEmpty [] = Unit
NoneEmpty (x ∷ xs) = (1 ≤ length x) × NoneEmpty xs

NoneEmpty-append :
    (xs : List (List ℕ)) (x : List ℕ) → NoneEmpty xs → 1 ≤ length x → NoneEmpty (xs ++ x ∷ [])
NoneEmpty-append [] x each some_byte = (some_byte, tt)
NoneEmpty-append (y ∷ xs) x (first, rest) some_byte = (first, NoneEmpty-append xs x rest some_byte)

-- So there are no more calls than bytes.
pub length-NoneEmpty : (xs : List (List ℕ)) → NoneEmpty xs → length xs ≤ length (concat xs)
length-NoneEmpty [] each = omega arith
length-NoneEmpty (x ∷ xs) (first, rest) =
    omega (arith, length-append x (concat xs), length-NoneEmpty xs rest)

read-nonempty :
    (b : Buffer) → IsValid b → is_empty b ≡ false → 1 ≤ length (read b (readable_size b))
unfolding is_empty
read-nonempty b v e = ground (
  arith,
  length-take (readable_size b) (drop b.read_pos b.storage),
  length-drop b.read_pos b.storage,
)

consume_at-NoneEmpty :
    {c : Config} {sent : List ℕ} (p : Pc) (w w' : Worker)
    → Inv c w sent
    → consume_at p w ≡ some w'
    → NoneEmpty w.delivered
    → NoneEmpty w'.delivered
unfolding consume_at swap_buffers flush_consumer
consume_at-NoneEmpty waiting w w' v e n = subst NoneEmpty (ground arith) n
consume_at-NoneEmpty flushing w w' v e n = elim (Bool-cases (is_empty w.consumer)) [
  | inl empty ↦ subst (λ x. NoneEmpty x.delivered) (some_injective e) (rw empty n)
  | inr full ↦
      subst (λ x. NoneEmpty x.delivered) (some_injective e)
        (rw full (
          NoneEmpty-append w.delivered (read w.consumer (readable_size w.consumer)) n
            (read-nonempty w.consumer v.consumer_valid full)))
]
consume_at-NoneEmpty checking_stop w w' v e n = subst NoneEmpty (ground arith) n
consume_at-NoneEmpty checking_empty w w' v e n = subst NoneEmpty (ground arith) n
consume_at-NoneEmpty returned w w' v e n = cc

-- In every reachable state.
pub Reach-NoneEmpty :
    {c : Config} {t : AsyncType} {w : Worker} {sent : List ℕ}
    → c.buffer_size ≤ max_size
    → Reach c t w sent
    → NoneEmpty w.delivered
unfolding init request_stop consume
Reach-NoneEmpty small start = tt
Reach-NoneEmpty {c} small (next {w} {w'} r (pushes ds fit e)) =
    let (b, done, same) = push-eq-ok c ds w w' e in
    subst (λ x. NoneEmpty x.delivered) (sym same) (Reach-NoneEmpty small r)
Reach-NoneEmpty small (next {w} {w'} r (consumes e)) =
    consume_at-NoneEmpty w.pc w w' (Reach-Inv small r) e (Reach-NoneEmpty small r)
Reach-NoneEmpty small (next r (stops e)) =
    subst (λ x. NoneEmpty x.delivered) (sym e) (Reach-NoneEmpty small r)

-- The consumer's steps lead to reachable states.
pub Reach-drain :
    (n : ℕ) {c : Config} {t : AsyncType} {w : Worker} {sent : List ℕ}
    → Reach c t w sent
    → Reach c t (drain n w) sent
unfolding drain
Reach-drain zero r = r
Reach-drain (suc n) {c} {t} {w} {sent} r = elim (Option-cases (consume w)) [
  | inl e ↦ subst (λ x. Reach c t (drain n (or_stay w x)) sent) (sym e) (Reach-drain n r)
  | inr (w', e) ↦
      subst (λ x. Reach c t (drain n (or_stay w x)) sent) (sym e)
        (Reach-drain n (subst (Reach c t w') (append-nil sent) (next r (consumes e))))
]
