-- ===== src/Prelude/Results.antt =====
-- Results of code that can fail, their bind, and case splits on them.
use mathlib.Core.Path.{◌≡◌, refl}
use mathlib.Core.Logic.{◌⊎◌, inl, inr}

-- `E` is the type of the reasons for a failure.
pub data Result {ℓ} (E : Type 0) (A : Type ℓ) : Type ℓ where
  ok : (value : A) → Result E A
  err : (reason : E) → Result E A

module _ {ℓ κ} {E : Type 0} {A : Type ℓ} {B : Type κ} where
  infixl 5 ◌>>=◌
  abbrev pub ◌>>=◌ : Result E A → (A → Result E B) → Result E B
  err reason >>= rest = err reason
  ok value >>= rest = rest value

  -- Where a sequence succeeds, its first part has.
  pub >>=-eq-ok :
      (first : Result E A) (rest : A → Result E B) {b : B}
      → (first >>= rest) ≡ ok b
      → (value : A) × (first ≡ ok value) × (rest value ≡ ok b)
  >>=-eq-ok (err reason) rest h = cc
  >>=-eq-ok (ok value) rest h = (value, refl, h)

pub Result-cases {ℓ} :
    {E : Type 0} {A : Type ℓ} (r : Result E A)
    → ((value : A) × (r ≡ ok value)) ⊎ ((reason : E) × (r ≡ err reason))
Result-cases (err reason) = inr (reason, refl)
Result-cases (ok value) = inl (value, refl)

pub ok_injective {ℓ} :
    {E : Type 0} {A : Type ℓ} {a b : A} → ◌≡◌ {A = Result E A} (ok a) (ok b) → a ≡ b
ok_injective h = cc
