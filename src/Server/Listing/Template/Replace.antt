-- ===== src/Server/Listing/Template/Replace.antt =====
-- What `std::regex_replace` gives for a format without `$`, as src/server/Service.hpp uses it.
use asyn_log_system.Prelude.Text.{begins-append, Text, begins, has}
use asyn_log_system.Prelude.{
  sym, ◌-◌, ap, suc, append_assoc, ◌∙◌, drop, refl, [], &&-true, arith, false, append-nil, ◌≡◌,
  ◌&&◌, ◌==◌, ◌++◌, not, ◌∷◌, true, length, Bool, ℕ,
}
use asyn_log_system.Server.Listing.Template.{
  regex_replace, replace_from, expand, expand_from, expand_at, expand_end, plain,
}

abbrev pub is_dollar : ℕ → Bool
is_dollar x = x == b'$'

expand_from-plain :
    (match before after format : Text)
    → has is_dollar format ≡ false
    → expand_from match before after plain format ≡ format
unfolding expand_from expand_at expand_end has
expand_from-plain match before after [] none_ = refl
expand_from-plain match before after (x ∷ format) none_ =
    ground (arith, expand_from-plain match before after format)

-- Such a format stands for itself.
pub expand-plain :
    (match before after format : Text)
    → has is_dollar format ≡ false
    → expand match before after format ≡ format
unfolding expand
expand-plain match before after format none_ = expand_from-plain match before after format none_

-- The text may be the beginning of one that begins with `p`.
unfoldable pub may_begin : Text → Text → Bool
may_begin [] s = true
may_begin (x ∷ p) [] = true
may_begin (x ∷ p) (y ∷ s) = x == y && may_begin p s

-- No occurrence of `p` begins in `s`, whatever follows.
unfoldable pub clear : Text → Text → Bool
unfolding may_begin
clear p [] = true
clear p (y ∷ s) = not (may_begin p (y ∷ s)) && clear p s

begins_of_may : (p s t : Text) → may_begin p s ≡ false → begins p (s ++ t) ≡ false
unfolding begins may_begin
begins_of_may [] s t h = cc
begins_of_may (x ∷ p) [] t h = cc
begins_of_may (x ∷ p) (y ∷ s) t h = ground (arith, begins_of_may p s t)

module _ (p format : Text) where
  -- What is passed over of a match.
  replace_from-skip :
      (s t before : Text)
      → replace_from p format (length s) before (s ++ t) ≡ replace_from p format 0 before t
  unfolding replace_from
  replace_from-skip [] t before = refl
  replace_from-skip (x ∷ s) t before = replace_from-skip s t before

  replace_from-clear :
      (s t before : Text)
      → clear p s ≡ true
      → replace_from p format 0 before (s ++ t) ≡ replace_from p format 0 (before ++ s) t
  unfolding replace_from clear
  replace_from-clear [] t before h = rw (append-nil before) refl
  replace_from-clear (x ∷ s) t before h =
      let (absent, rest) = &&-true (not (may_begin p (x ∷ s))) (clear p s) h in
      let here : begins p (x ∷ s ++ t) ≡ false = begins_of_may p (x ∷ s) t (ground arith) in
      rw here (replace_from-clear s t (before ++ x ∷ []) rest ∙ rw append_assoc refl)

pred_suc : (n : ℕ) → suc n - 1 ≡ n
pred_suc n = omega arith

replace_from-match :
    (x : ℕ) (p format t before : Text)
    → has is_dollar format ≡ false
    → replace_from (x ∷ p) format 0 before (x ∷ p ++ t)
      ≡ before ++ (format ++ replace_from (x ∷ p) format 0 [] t)
unfolding replace_from
replace_from-match x p format t before none_ = rw (
  begins-append (x ∷ p) t,
  pred_suc (length p),
  expand-plain (x ∷ p) before (drop (length (x ∷ p)) (x ∷ p ++ t)) format none_,
  replace_from-skip (x ∷ p) format p t [],
)

-- A match of a format without `$` is replaced by the format: what stands before it holds no match,
-- and what follows is replaced by itself.
pub regex_replace-match :
    (x : ℕ) (p format s t : Text)
    → clear (x ∷ p) s ≡ true
    → has is_dollar format ≡ false
    → regex_replace (x ∷ p) format (s ++ (x ∷ p ++ t))
      ≡ s ++ (format ++ regex_replace (x ∷ p) format t)
unfolding regex_replace
regex_replace-match x p format s t free none_ =
    replace_from-clear (x ∷ p) format s (x ∷ p ++ t) [] free
    ∙ replace_from-match x p format t s none_

-- A text without a match stays.
pub regex_replace-clear : (p format s : Text) → clear p s ≡ true → regex_replace p format s ≡ s
unfolding regex_replace replace_from
regex_replace-clear p format s free =
    ap (replace_from p format 0 []) (sym (append-nil s)) ∙ replace_from-clear p format s [] [] free
