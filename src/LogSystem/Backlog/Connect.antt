-- ===== src/LogSystem/Backlog/Connect.antt =====
-- logSystem/backlog/CliBackupLog.hpp: how often `start_backup` tries to connect.
use asyn_log_system.Prelude.{
  ◌∙◌, ap, ℕ, zero, suc, ◌+◌, ◌≡◌, refl, inl, inr, Bool, true, false, Option, none, some, leb,
  if◌then◌else◌, arith, Bool-cases,
}
use asyn_log_system.Prelude.Text.{Text}
use asyn_log_system.LogSystem.Backlog.{connect_from, start_backup}

-- The first of some attempts that succeeds, if one does.
unfoldable pub first_success : (ℕ → Bool) → ℕ → ℕ → Option ℕ
first_success connects zero i = none
first_success connects (suc n) i =
    let rest = first_success connects n (i + 1) in if connects i then some i else rest

-- What the loop gives by the first success.
unfoldable pub outcome : ℕ → Option ℕ → Bool × ℕ
outcome last none = (false, last)
outcome last (some k) = (true, k + 1)

connect_from_lem :
    (connects : ℕ → Bool) (cnt i : ℕ)
    → connect_from connects (suc cnt) i ≡ outcome (i + suc cnt) (first_success connects (suc cnt) i)
unfolding connect_from first_success outcome
connect_from_lem connects zero i = elim (Bool-cases (connects i)) [
  | inl up ↦ rw up refl
  | inr down ↦ rw down refl
]
connect_from_lem connects (suc cnt) i = elim (Bool-cases (connects i)) [
  | inl up ↦ rw up refl
  | inr down ↦
      let more : leb (suc cnt) 0 ≡ false = ground arith in
      rw (down, more)
        (connect_from_lem connects cnt (i + 1)
          ∙ ap (λ n. outcome n (first_success connects (suc cnt) (i + 1))) (omega arith))
]

-- What `start_backup` does by the first success.
unfoldable pub sent : Option Text → Option ℕ → Option Text × ℕ
sent written none = (none, 5)
sent written (some k) = (written, k + 1)

-- The backup client makes at most five attempts to connect and stops at the first that succeeds;
-- it sends the message then, and nothing if all five fail.
pub start_backup_lem :
    (connects : ℕ → Bool) (write : Text → Option Text) (message : Text)
    → start_backup connects write message ≡ sent (write message) (first_success connects 5 0)
unfolding start_backup
start_backup_lem connects write message =
    ap (λ r. (if r.0 then write message else none, r.1)) (connect_from_lem connects 4 0)
    ∙ by_outcome (first_success connects 5 0)
  where
    by_outcome :
        (o : Option ℕ)
        → ◌≡◌ {A = Option Text × ℕ}
            (if (outcome 5 o).0 then write message else none, (outcome 5 o).1)
            (sent (write message) o)
    by_outcome none = unfold outcome sent in refl
    by_outcome (some k) = unfold outcome sent in refl
