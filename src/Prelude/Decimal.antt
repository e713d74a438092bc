-- ===== src/Prelude/Decimal.antt =====
-- `std::to_string` of an unsigned number.
use Prim.Native.Nat.{ℕ, zero, suc, ◌+◌, ◌-◌, ◌*◌, ◌/◌, ◌%◌, ◌<◌}
use mathlib.Core.Path.{◌≡◌, refl, ap}
use mathlib.Core.Logic.{inl, inr}
use mathlib.Core.List.{[], ◌∷◌, ◌++◌}
use mathlib.Core.Bool.{Bool, false, ◌&&◌, not}
use native.Mathlib.Omega.{arith}
use asyn_log_system.Prelude.Tests.{ltb, leb, if◌then◌else◌, Bool-cases, not-ltb→le}
use asyn_log_system.Prelude.Text.{Text, has, has-append}

-- The digits, with fuel for one digit each.
digits_from : ℕ → ℕ → Text
digits_from zero n = []
digits_from (suc f) n =
    let rest = digits_from f (n / 10) in
    if ltb n 10 then (48 + n) ∷ [] else rest ++ (48 + n % 10) ∷ []

-- A number has fewer digits than its successor is large, so the fuel is enough.
unfoldable pub decimal : ℕ → Text
unfolding digits_from
decimal n = digits_from (suc n) n

-- What a text of digits stands for, read from the left.
unfoldable pub value_from : ℕ → Text → ℕ
value_from acc [] = acc
value_from acc (c ∷ s) = value_from (acc * 10 + (c - 48)) s

value_from-append :
    (acc : ℕ) (s t : Text) → value_from acc (s ++ t) ≡ value_from (value_from acc s) t
unfolding value_from
value_from-append acc [] t = refl
value_from-append acc (c ∷ s) t = value_from-append (acc * 10 + (c - 48)) s t

value-digits_from : (f n : ℕ) → n < f → value_from 0 (digits_from f n) ≡ n
unfolding digits_from value_from
value-digits_from zero n h = absurd (omega arith)
value-digits_from (suc f) n h = elim (Bool-cases (ltb n 10)) [
  | inl small ↦ rw small (omega arith)
  | inr big ↦
      rw
        (
          big,
          value_from-append 0 (digits_from f (n / 10)) ((48 + n % 10) ∷ []),
          value-digits_from f (n / 10) (omega (arith, not-ltb→le n 10 big)),
        )
        (omega arith)
]

pub value-decimal : (n : ℕ) → value_from 0 (decimal n) ≡ n
unfolding decimal
value-decimal n = value-digits_from (suc n) n (omega arith)

-- Different numbers are written differently.
pub decimal_injective : (m n : ℕ) → decimal m ≡ decimal n → m ≡ n
decimal_injective m n e = cc (value-decimal m, value-decimal n, ap (value_from 0) e)

abbrev pub is_not_digit : ℕ → Bool
is_not_digit c = not (leb 48 c && ltb c 58)

has-digits_from : (f n : ℕ) → has is_not_digit (digits_from f n) ≡ false
unfolding digits_from has
has-digits_from zero n = refl
has-digits_from (suc f) n = ground (
  arith,
  has-append is_not_digit (digits_from f (n / 10)) ((48 + n % 10) ∷ []),
  has-digits_from f (n / 10),
)

-- Only digits are written.
pub has-decimal : (n : ℕ) → has is_not_digit (decimal n) ≡ false
unfolding decimal
has-decimal n = has-digits_from (suc n) n
