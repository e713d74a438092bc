-- ===== src/Json/Sample.antt =====
-- An instance of the JSON library over length-prefixed texts, with its laws.
use asyn_log_system.Prelude.{
  ℕ, zero, suc, sym, ◌^◌, ◌≤◌, ◌<◌, ◌≡◌, ◌≢◌, refl, ap, ◌∙◌, List, [], ◌∷◌, ◌++◌, length, take,
  drop, Option, none, some, ltb, if◌then◌else◌, arith, length-append, length-drop, take-append,
  lt→ltb, le→not-ltb,
}
use asyn_log_system.Prelude.Text.{Text, text_eq, text_eq_refl, text_eq-false}
use asyn_log_system.Json.{Json, JsonLaws}
use mathlib.Core.List.{reverse, reverse-cons}

-- The parts of a text in which a length stands before each part.
unfoldable pub parts_from : ℕ → Text → List Text
parts_from zero s = []
parts_from (suc f) [] = []
parts_from (suc f) (n ∷ s) = take n s ∷ parts_from f (drop n s)

unfoldable pub parts : Text → List Text
unfolding parts_from
parts s = parts_from (length s) s

parts_from-fuel :
    (f g : ℕ) (s : Text) → length s ≤ f → length s ≤ g → parts_from f s ≡ parts_from g s
unfolding parts_from
parts_from-fuel zero zero s h k = refl
parts_from-fuel zero (suc g) [] h k = refl
parts_from-fuel zero (suc g) (n ∷ s) h k = absurd (omega arith)
parts_from-fuel (suc f) zero [] h k = refl
parts_from-fuel (suc f) zero (n ∷ s) h k = absurd (omega arith)
parts_from-fuel (suc f) (suc g) [] h k = refl
parts_from-fuel (suc f) (suc g) (n ∷ s) h k = ap (◌∷◌ (take n s)) (
    parts_from-fuel f g (drop n s) (omega (arith, length-drop n s))
      (omega (arith, length-drop n s)))

drop-append : (s t : Text) → drop (length s) (s ++ t) ≡ t
drop-append [] t = refl
drop-append (x ∷ s) t = drop-append s t

parts-cons : (s t : Text) → parts (length s ∷ s ++ t) ≡ s ∷ parts t
unfolding parts parts_from
parts-cons s t =
    rw (take-append s t, drop-append s t)
      (ap (◌∷◌ s) (
        parts_from-fuel (length (s ++ t)) (length t) t (omega (arith, length-append s t))
          (omega arith)))

-- Keys and values in turn.
unfoldable pub value_of : Text → List Text → Text
value_of k [] = []
value_of k (i ∷ []) = []
value_of k (i ∷ x ∷ rest) = if text_eq i k then x else value_of k rest

unfoldable pub small_int : Text → Option ℕ
small_int [] = some 0
small_int (n ∷ []) = if ltb n (2 ^ 31) then some n else none
small_int (n ∷ m ∷ s) = none

unfoldable pub any_int : Text → Option ℕ
any_int [] = some 0
any_int (n ∷ []) = some n
any_int (n ∷ m ∷ s) = none

abbrev pub json : Json
json = record {
  Value = Text;
  null = [];
  int64 = λ n. n ∷ [];
  string = λ s. s;
  set = λ v k x. length k ∷ k ++ (length x ∷ x ++ v);
  member = λ v k. value_of k (parts v);
  append = λ v x. length x ∷ x ++ v;
  elements = λ v. reverse (parts v);
  as_int = small_int;
  as_int64 = any_int;
  as_string = λ s. some s;
  write = λ s. some s;
  parse = λ s. some s;
}

parts-set : (v k x : Text) → parts (length k ∷ k ++ (length x ∷ x ++ v)) ≡ k ∷ x ∷ parts v
parts-set v k x = parts-cons k (length x ∷ x ++ v) ∙ ap (◌∷◌ k) (parts-cons x v)

value_of_self : (k x : Text) (rest : List Text) → value_of k (k ∷ x ∷ rest) ≡ x
unfolding value_of
value_of_self k x rest = rw (text_eq_refl k)

value_of_ne :
    (k l x : Text) (rest : List Text) → k ≢ l → value_of l (k ∷ x ∷ rest) ≡ value_of l rest
unfolding value_of
value_of_ne k l x rest ne = rw (text_eq-false k l ne)

small_int-lt : (n : ℕ) → n < 2 ^ 31 → small_int (n ∷ []) ≡ some n
unfolding small_int
small_int-lt n h = rw (lt→ltb n (2 ^ 31) h)

small_int-le : (n : ℕ) → 2 ^ 31 ≤ n → small_int (n ∷ []) ≡ none
unfolding small_int
small_int-le n h = rw (le→not-ltb (2 ^ 31) n h)

parts-nil : parts [] ≡ []
unfolding parts parts_from
parts-nil = refl

small_int-nil : small_int [] ≡ some 0
unfolding small_int
small_int-nil = refl

any_int-cons : (n : ℕ) → any_int (n ∷ []) ≡ some n
unfolding any_int
any_int-cons n = refl

any_int-nil : any_int [] ≡ some 0
unfolding any_int
any_int-nil = refl

value_of-nil : (k : Text) → value_of k [] ≡ []
unfolding value_of
value_of-nil k = refl

pub json_laws : JsonLaws json
json_laws = record {
  member-set_self = λ v x k. ap (value_of k) (parts-set v k x) ∙ value_of_self k x (parts v);
  member-set_ne = λ v x k l ne. ap (value_of l) (parts-set v k x) ∙ value_of_ne k l x (parts v) ne;
  elements-null = rw parts-nil;
  elements-append = λ v x. ap reverse (parts-cons x v) ∙ reverse-cons x (parts v);
  as_int-int64 = small_int-lt;
  as_int-too_big = λ n h k. small_int-le n h;
  as_int64-int64 = λ n h. any_int-cons n;
  member-null = λ k. rw parts-nil (value_of-nil k);
  as_int-null = small_int-nil;
  as_int64-null = any_int-nil;
  as_string-null = refl;
  as_string-string = λ s. refl;
  parse-write = λ v s e. sym e;
}
