-- ===== src/Prelude/Text.antt =====
-- Texts as lists of bytes: equality, search, decimal numbers.
use Prim.Native.Char.{code}
use Prim.Native.String.{String}
use Prim.Native.Nat.{ℕ, ◌+◌, ◌/◌, ◌%◌}
use mathlib.Core.Path.{◌≡◌, refl}
use mathlib.Core.List.{List, [], ◌∷◌, ◌++◌}
use mathlib.Core.Logic.{inr, inl, ◌≢◌, ◌↔◌}
use mathlib.Core.Bool.{Bool, true, false, ◌&&◌, ◌||◌}
use native.Mathlib.Omega.{arith}
use asyn_log_system.Prelude.Tests.{Bool-cases, if◌then◌else◌, ◌==◌, ltb}

-- `std::string`: its bytes.
abbrev pub Text : Type 0
Text = List ℕ

-- The code points of a literal, which are its bytes for the ASCII literals of the source.
abbrev pub codes : String → Text
codes String.[] = []
codes (String.◌∷◌ c s) = code c ∷ codes s

unfoldable pub text_eq : Text → Text → Bool
text_eq [] [] = true
text_eq [] (y ∷ ys) = false
text_eq (x ∷ xs) [] = false
text_eq (x ∷ xs) (y ∷ ys) = x == y && text_eq xs ys

pub text_eq_refl : (xs : Text) → text_eq xs xs ≡ true
unfolding text_eq
text_eq_refl [] = refl
text_eq_refl (x ∷ xs) = ground (arith, text_eq_refl xs)

pub text_eq→eq : (xs ys : Text) → text_eq xs ys ≡ true → xs ≡ ys
unfolding text_eq
text_eq→eq [] [] h = refl
text_eq→eq [] (y ∷ ys) h = cc
text_eq→eq (x ∷ xs) [] h = cc
text_eq→eq (x ∷ xs) (y ∷ ys) h = ground (arith, text_eq→eq xs ys)

pub text_eq_iff : (xs ys : Text) → (text_eq xs ys ≡ true) ↔ (xs ≡ ys)
text_eq_iff xs ys = (text_eq→eq xs ys, λ e. rw e (text_eq_refl ys))

pub text_eq-false : (xs ys : Text) → xs ≢ ys → text_eq xs ys ≡ false
text_eq-false xs ys h = elim (Bool-cases (text_eq xs ys)) [
  | inl e ↦ absurd (h (text_eq→eq xs ys e))
  | inr e ↦ e
]

pub ne_of_text_eq : (xs ys : Text) → text_eq xs ys ≡ false → xs ≢ ys
ne_of_text_eq xs ys h e = cc (h, (text_eq_iff xs ys).1 e)

-- `s` begins with `p`.
unfoldable pub begins : Text → Text → Bool
begins [] s = true
begins (x ∷ p) [] = false
begins (x ∷ p) (y ∷ s) = x == y && begins p s

-- `s.find(p) != npos`.
unfoldable pub contains : Text → Text → Bool
unfolding begins
contains p [] = begins p []
contains p (y ∷ s) = begins p (y ∷ s) || contains p s

pub begins-append : (p s : Text) → begins p (p ++ s) ≡ true
unfolding begins
begins-append [] s = refl
begins-append (x ∷ p) s = ground (arith, begins-append p s)

-- What begins with `p` contains it.
pub contains_of_begins : (p s : Text) → begins p s ≡ true → contains p s ≡ true
unfolding contains
contains_of_begins p [] h = h
contains_of_begins p (y ∷ s) h = rw h

begins_more : (p s t : Text) → begins p s ≡ true → begins p (s ++ t) ≡ true
unfolding begins
begins_more [] s t h = refl
begins_more (x ∷ p) [] t h = cc
begins_more (x ∷ p) (y ∷ s) t h = ground (arith, begins_more p s t)

-- A text is found in every text that goes on further.
pub contains_more : (p s t : Text) → contains p s ≡ true → contains p (s ++ t) ≡ true
unfolding contains
contains_more p [] t h = contains_of_begins p t (begins_more p [] t h)
contains_more p (y ∷ s) t h = elim (Bool-cases (begins p (y ∷ s))) [
  | inl e ↦ ground (arith, begins_more p (y ∷ s) t e)
  | inr e ↦ ground (arith, contains_more p s t)
]

-- A common beginning makes no difference.
pub text_eq-append : (p s t : Text) → text_eq (p ++ s) (p ++ t) ≡ text_eq s t
unfolding text_eq
text_eq-append [] s t = refl
text_eq-append (x ∷ p) s t = ground (arith, text_eq-append p s t)

-- Some byte satisfies the test.
unfoldable pub has : (ℕ → Bool) → Text → Bool
has sep [] = false
has sep (x ∷ s) = sep x || has sep s

-- What follows the last byte that satisfies the test; the whole text, if none does.
unfoldable pub after_last : (ℕ → Bool) → Text → Text
unfolding has
after_last sep [] = []
after_last sep (x ∷ s) =
    let rest = after_last sep s in if has sep s then rest else if sep x then s else x ∷ s

-- What stands up to the last byte that satisfies the test, that byte included; nothing, if none
-- does.
unfoldable pub upto_last : (ℕ → Bool) → Text → Text
unfolding has
upto_last sep [] = []
upto_last sep (x ∷ s) =
    let rest = upto_last sep s in if has sep s then x ∷ rest else if sep x then x ∷ [] else []

module _ (sep : ℕ → Bool) where
  pub has-append : (s t : Text) → has sep (s ++ t) ≡ (has sep s || has sep t)
  unfolding has
  has-append [] t = refl
  has-append (x ∷ s) t = ground (arith, has-append s t)

  pub after_last-none : (s : Text) → has sep s ≡ false → after_last sep s ≡ s
  unfolding after_last
  after_last-none [] h = refl
  after_last-none (x ∷ s) h = ground arith

  -- The name behind a separator that is the last.
  pub after_last-append :
      (s name : Text) (c : ℕ)
      → sep c ≡ true
      → has sep name ≡ false
      → after_last sep (s ++ c ∷ name) ≡ name
  unfolding after_last
  after_last-append [] name c h k = ground arith
  after_last-append (x ∷ s) name c h k =
      ground (arith, after_last-append s name c h k, has-append s (c ∷ name))

  -- The two parts make up the text, where there is a separator.
  pub upto_last-after_last : (s : Text) → has sep s ≡ true → upto_last sep s ++ after_last sep s ≡ s
  unfolding upto_last after_last
  upto_last-after_last [] h = cc
  upto_last-after_last (x ∷ s) h = ground (arith, upto_last-after_last s)

-- What is read through `c_str()`: the bytes before the first 0.
unfoldable pub c_str : Text → Text
c_str [] = []
c_str (x ∷ s) = if x == 0 then [] else x ∷ c_str s

-- The bytes of a code point in UTF-8.
abbrev pub utf8_code : ℕ → Text
utf8_code n =
    if ltb n 0x80
    then n ∷ []
    else if ltb n 0x800
    then (192 + n / 64) ∷ (128 + n % 64) ∷ []
    else if ltb n 0x10000
    then (224 + n / 4096) ∷ (128 + n / 64 % 64) ∷ (128 + n % 64) ∷ []
    else (240 + n / 262144) ∷ (128 + n / 4096 % 64) ∷ (128 + n / 64 % 64) ∷ (128 + n % 64) ∷ []

-- The bytes of a literal of the source.
abbrev pub utf8 : String → Text
utf8 String.[] = []
utf8 (String.◌∷◌ c s) = utf8_code (code c) ++ utf8 s
