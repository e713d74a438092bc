-- ===== src/Server/Listing/Size.antt =====
-- src/server/Service.hpp, `FormatSize`. A `double` is kept as the number that it stands for: dividing
-- by 1024 is exact.
pub mod Bounds
use asyn_log_system.Prelude.{
  ℕ, zero, suc, ◌+◌, ◌-◌, ◌*◌, ◌/◌, ◌%◌, ◌^◌, ◌≤◌, ◌<◌, ◌≡◌, refl, ◌⊎◌, inl, inr, Bool, true, false,
  List, [], ◌∷◌, ◌++◌, ltb, leb, ◌==◌, if◌then◌else◌, arith, Bool-cases,
}
use asyn_log_system.Prelude.Text.{Text, codes}
use asyn_log_system.Prelude.Decimal.{decimal}

-- `a / b` rounded to the nearest number, to the even one of two.
unfoldable pub round_even : ℕ → ℕ → ℕ
round_even a b =
    let q = a / b in
    let r = a % b in if ltb (2 * r) b then q else if ltb b (2 * r) then q + 1 else q + q % 2

-- How many bits a `double` drops of a 64-bit number: the least shift that leaves 53.
shift_from : ℕ → ℕ → ℕ → ℕ
shift_from zero k n = k
shift_from (suc f) k n =
    let rest = shift_from f (k + 1) n in if ltb n (2 ^ (53 + k)) then k else rest

-- `double size = bytes;`
unfoldable pub to_double : ℕ → ℕ
unfolding shift_from round_even
to_double n = let k = shift_from 11 0 n in round_even n (2 ^ k) * 2 ^ k

-- The loop of `FormatSize`, with the divisions that are still allowed: the unit reached, where the
-- size is `n / 1024 ^ i`.
unfoldable pub unit_from : ℕ → ℕ → ℕ → ℕ
unit_from zero i n = i
unit_from (suc left) i n =
    let rest = unit_from left (i + 1) n in if ltb (1024 * 1024 ^ i) n then rest else i

unfoldable pub unit_name : ℕ → Text
unit_name zero = codes "B"
unit_name (suc zero) = codes "KB"
unit_name (suc (suc zero)) = codes "MB"
unit_name (suc (suc (suc i))) = codes "GB"

-- Hundredths, printed with `fixed` and `setprecision(2)`, and the unit.
unfoldable pub print_size : ℕ → ℕ → Text
unfolding unit_name
print_size h i =
    decimal (h / 100) ++ (b'.' ∷ (48 + h / 10 % 10) ∷ (48 + h % 10) ∷ b' ' ∷ unit_name i)

-- `FormatSize(bytes)`.
unfoldable pub format_size : ℕ → Text
unfolding to_double unit_from round_even print_size
format_size bytes =
    let n = to_double bytes in
    let i = unit_from 3 0 n in print_size (round_even (100 * n) (1024 ^ i)) i

two_kilobytes : format_size 2176 ≡ codes "2.12 KB"
unfolding format_size decimal
two_kilobytes = refl

not_yet_a_kilobyte : format_size 1024 ≡ codes "1024.00 B"
unfolding format_size decimal
not_yet_a_kilobyte = refl

largest : format_size (2 ^ 64 - 1) ≡ codes "17179869184.00 GB"
unfolding format_size decimal
largest = refl
