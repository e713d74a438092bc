-- ===== src/Server/Listing/Size/Bounds.antt =====
-- src/server/Service.hpp, `FormatSize`: which unit is chosen, and how far the printed number is off.
use asyn_log_system.Prelude.{
  zero, suc, suc, refl, ◌/◌, ◌%◌, inr, ltb, inl, Bool-cases, ◌+◌, ◌⊎◌, arith, ◌≡◌, ◌^◌, ◌*◌, ◌<◌,
  ◌≤◌, ℕ,
}
use native.Mathlib.Nat.{mod-lt, div-add-mod'}
use asyn_log_system.Server.Listing.Size.{
  round_even, to_double, shift_from, unit_from, print_size, format_size,
}

near :
    (x q r b a d : ℕ)
    → x ≡ q + d
    → q * b + r ≡ a
    → r ≤ b
    → ((d ≡ 0) × (2 * r ≤ b)) ⊎ ((d ≡ 1) × (b ≤ 2 * r))
    → (2 * (x * b) ≤ 2 * a + b) × (2 * a ≤ 2 * (x * b) + b)
near x q r b a d up e le (inl (none_, small)) = rw (up, none_) (omega arith, omega arith)
near x q r b a d up e le (inr (one, large)) = rw (up, one) (omega arith, omega arith)

in_tie : (d r b : ℕ) → d < 2 → 2 * r ≡ b → ((d ≡ 0) × (2 * r ≤ b)) ⊎ ((d ≡ 1) × (b ≤ 2 * r))
in_tie zero r b h e = inl (refl, omega arith)
in_tie (suc zero) r b h e = inr (refl, omega arith)
in_tie (suc (suc d)) r b h e = absurd (omega arith)

-- The result is at most half a unit off.
round_even-near :
    (a b : ℕ)
    → 1 ≤ b
    → (2 * (round_even a b * b) ≤ 2 * a + b) × (2 * a ≤ 2 * (round_even a b * b) + b)
unfolding round_even
round_even-near a b h =
    let e = div-add-mod' a b in
    let lt = mod-lt a h in
    elim (Bool-cases (ltb (2 * (a % b)) b)) [
      | inl below ↦
          rw below
            (near _ (a / b) (a % b) b a 0 (omega arith) e (omega arith) (inl (refl, ground arith)))
      | inr not_below ↦ elim (Bool-cases (ltb b (2 * (a % b)))) [
        | inl above ↦
            rw (not_below, above)
              (near _ (a / b) (a % b) b a 1 refl e (omega arith) (inr (refl, ground arith)))
        | inr tie ↦
            rw (not_below, tie)
              (near _ (a / b) (a % b) b a (a / b % 2) refl e (omega arith)
                (in_tie (a / b % 2) (a % b) b (omega arith) (ground arith)))
      ]
    ]

-- A number of at most 53 bits is exact.
to_double-small : (n : ℕ) → n < 2 ^ 53 → to_double n ≡ n
unfolding to_double shift_from round_even
to_double-small n h = ground arith

-- The unit is the least one in which the number is at most 1024, or the largest.
unit_from-least :
    (n : ℕ)
    → let i = unit_from 3 0 n in
      (i ≤ 3) × ((i ≡ 0) ⊎ (1024 ^ i < n)) × ((i ≡ 3) ⊎ (n ≤ 1024 * 1024 ^ i))
unfolding unit_from
unit_from-least n = ground arith

power_pos : (i : ℕ) → i ≤ 3 → 1 ≤ 1024 ^ i
power_pos zero h = omega arith
power_pos (suc zero) h = omega arith
power_pos (suc (suc zero)) h = omega arith
power_pos (suc (suc (suc zero))) h = omega arith
power_pos (suc (suc (suc (suc i)))) h = absurd (omega arith)

-- For sizes below 2^53, FormatSize prints hundredths of a power of 1024 that are off by at most
-- half of one, and the power is the least one of which the size is at most 1024 times, or the
-- third.
pub format_size_lem :
    (bytes : ℕ)
    → bytes < 2 ^ 53
    → (i : ℕ) × (hundredths : ℕ) × (format_size bytes ≡ print_size hundredths i)
      × (i ≤ 3)
      × ((i ≡ 0) ⊎ (1024 ^ i < bytes))
      × ((i ≡ 3) ⊎ (bytes ≤ 1024 * 1024 ^ i))
      × (2 * (hundredths * 1024 ^ i) ≤ 200 * bytes + 1024 ^ i)
      × (200 * bytes ≤ 2 * (hundredths * 1024 ^ i) + 1024 ^ i)
unfolding format_size
format_size_lem bytes h =
    let i : ℕ = unit_from 3 0 bytes in
    let (le, above, below) = unit_from-least bytes in
    let (upper, lower) = round_even-near (100 * bytes) (1024 ^ i) (power_pos i le) in
    rw (to_double-small bytes h) (
      i,
      round_even (100 * bytes) (1024 ^ i),
      refl,
      le,
      above,
      below,
      omega (arith, upper),
      omega (arith, lower),
    )
