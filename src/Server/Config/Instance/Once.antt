-- ===== src/Server/Config/Instance/Once.antt =====
-- src/server/Config.hpp, `GetInstance`: one object is made, and all threads get it.
use asyn_log_system.Prelude.{
  ◌≤◌, arith, ap, refl, ◌∙◌, inr, inl, Option-cases, true, ◌⊎◌, some, none, ℕ, ◌≡◌,
}
use asyn_log_system.Server.Config.Instance.{
  Place, Shared, System, Reach, advance, take_lock, at_test, at_lock, locked, at_new, leaving,
  at_return, returned,
}
use asyn_log_system.Server.Config.Instance.Kept.{IsFit, Inv, is_inside, Reach-Inv}

-- Some thread can make a step.
abbrev pub Moves : System → Type 0
Moves y = (k : ℕ) × (p : Place) × (s : Shared) × (advance k (y.threads k) y.shared ≡ some (p, s))

Moves-at :
    (y : System) (i : ℕ) {q p : Place} {s : Shared}
    → y.threads i ≡ q
    → advance i q y.shared ≡ some (p, s)
    → Moves y
Moves-at y i here e = (i, _, _, ap (λ x. advance i x y.shared) here ∙ e)

advance-inside :
    (i : ℕ) (q : Place) (s : Shared)
    → is_inside q ≡ true
    → (p : Place) × (s' : Shared) × (advance i q s ≡ some (p, s'))
unfolding advance
advance-inside i at_test s e = cc e
advance-inside i at_lock s e = cc e
advance-inside i locked s e = (_, _, refl)
advance-inside i at_new s e = (_, _, refl)
advance-inside i leaving s e = (_, _, refl)
advance-inside i at_return s e = cc e
advance-inside i (returned x) s e = cc e

take_lock_free :
    (i : ℕ) (s : Shared)
    → s.owner ≡ none
    → take_lock s.owner i s ≡ some (locked, record s { owner = some i })
unfolding take_lock
take_lock_free i s free = ap (λ o. take_lock o i s) free

at_lock-Moves : (y : System) (i : ℕ) → Inv y → y.threads i ≡ at_lock → Moves y
unfolding advance
at_lock-Moves y i v here = elim (Option-cases y.shared.owner) [
  | inl free ↦ Moves-at y i here (take_lock_free i y.shared free)
  | inr (k, held) ↦
      let (p, s, e) = advance-inside k (y.threads k) y.shared (v.owned k held) in (k, p, s, e)
]

Place-cases :
    (i : ℕ) (y : System) (q : Place)
    → Inv y
    → y.threads i ≡ q
    → IsFit i y.shared q
    → ((y.threads i ≡ returned (some 0)) × (y.shared.instance_ ≡ some 0)) ⊎ Moves y
unfolding advance IsFit
Place-cases i y at_test v here fit = inr (Moves-at y i here refl)
Place-cases i y at_lock v here fit = inr (at_lock-Moves y i v here)
Place-cases i y locked v here fit = inr (Moves-at y i here refl)
Place-cases i y at_new v here fit = inr (Moves-at y i here refl)
Place-cases i y leaving v here fit = inr (Moves-at y i here refl)
Place-cases i y at_return v here fit = inr (Moves-at y i here refl)
Place-cases i y (returned x) v here fit = inl (here ∙ ap returned fit.1, fit.0)

-- In every state that threads reach which call GetInstance, at most one object has been made; and
-- each thread has returned that object, or some thread can make a step.
pub advance-once :
    (y : System) (i : ℕ)
    → Reach y
    → (y.shared.made ≤ 1)
      × (((y.threads i ≡ returned (some 0)) × (y.shared.instance_ ≡ some 0)) ⊎ Moves y)
advance-once y i r =
    let v = Reach-Inv y r in
    (
      elim v.once [
        | inl (none_, made) ↦ omega (arith, made)
        | inr (some_, made) ↦ omega (arith, made)
      ],
      Place-cases i y (y.threads i) v refl (v.fit i),
    )
