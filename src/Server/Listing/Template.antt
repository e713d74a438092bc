-- ===== src/Server/Listing/Template.antt =====
-- `std::regex_replace` for a pattern that stands for one text, with the default format, as
-- src/server/Service.hpp uses it.
pub mod Replace
use asyn_log_system.Prelude.{
  ℕ, zero, suc, ◌+◌, ◌-◌, ◌*◌, ◌≡◌, refl, Bool, true, false, ◌&&◌, List, [], ◌∷◌, ◌++◌, length,
  drop, ltb, leb, ◌==◌, if◌then◌else◌,
}
use asyn_log_system.Prelude.Text.{Text, codes, begins}

abbrev is_digit : ℕ → Bool
is_digit x = leb b'0' x && leb x b'9'

-- Where the reading of a format stands: in plain text, behind a `$`, or behind one digit after it.
pub data Place : Type 0 where
  plain dollar : Place
  digit : ℕ → Place

-- A reference `$n` or `$nn`: the pattern has no groups, so 0 is the match and all else is nothing.
group : Text → ℕ → Text
group match zero = match
group match (suc n) = []

-- What is written for one character, and where the reading stands behind it.
expand_at : Text → Text → Text → Place → ℕ → Text × Place
expand_at match before after plain x = if x == b'$' then ([], dollar) else (x ∷ [], plain)
expand_at match before after dollar x =
    if x == b'$'
    then (b'$' ∷ [], plain)
    else if x == b'&'
    then (match, plain)
    else if x == 0x60
    then (before, plain)
    else if x == 0x27
    then (after, plain)
    else if is_digit x
    then ([], digit (x - b'0'))
    else (b'$' ∷ x ∷ [], plain)
expand_at match before after (digit n) x =
    if is_digit x
    then (group match (n * 10 + (x - b'0')), plain)
    else if x == b'$'
    then (group match n, dollar)
    else (group match n ++ x ∷ [], plain)

-- What is written at the end of the format.
expand_end : Text → Place → Text
expand_end match plain = []
expand_end match dollar = b'$' ∷ []
expand_end match (digit n) = group match n

-- `match_results::format` for one match, with the text before and after it.
expand_from : Text → Text → Text → Place → Text → Text
unfolding expand_at expand_end group
expand_from match before after p [] = expand_end match p
expand_from match before after p (x ∷ format) =
    let (written, p') = expand_at match before after p x in
    written ++ expand_from match before after p' format

unfoldable pub expand : Text → Text → Text → Text → Text
unfolding expand_from
expand match before after format = expand_from match before after plain format

-- The text from some position on, with what stands since the last match, and with how many
-- characters of a match are still to be passed over.
replace_from : Text → Text → ℕ → Text → Text → Text
unfolding begins expand
replace_from pattern_ format k before [] = before
replace_from pattern_ format (suc k) before (x ∷ s) = replace_from pattern_ format k before s
replace_from pattern_ format zero before (x ∷ s) =
    let matched = replace_from pattern_ format (length pattern_ - 1) [] s in
    let unmatched = replace_from pattern_ format zero (before ++ x ∷ []) s in
    if begins pattern_ (x ∷ s)
    then before ++ (expand pattern_ before (drop (length pattern_) (x ∷ s)) format ++ matched)
    else unmatched

-- `regex_replace(s, regex(pattern), format)`.
unfoldable pub regex_replace : Text → Text → Text → Text
unfolding replace_from
regex_replace pattern_ format s = replace_from pattern_ format zero [] s

twice :
    regex_replace (codes "{{A}}") (codes "<$&>") (codes "x{{A}}y{{A}}") ≡ codes "x<{{A}}>y<{{A}}>"
unfolding regex_replace
twice = refl

dollars : regex_replace (codes "A") (codes "$$1 $0 $12 $x $") (codes "A") ≡ codes "$1 A  $x $"
unfolding regex_replace
dollars = refl
