-- ===== src/LogSystem/Flush/Chunks.antt =====
-- A reference for `RollFileFlush` of logSystem/logsCode/LogFlush.hpp: how a sequence of texts is cut
-- at a size.
use asyn_log_system.Prelude.{
  ◌≤◌, ◌∙◌, refl, inr, false, length-append, ap, true, inl, arith, append_assoc, Bool-cases,
  size_mod, leb, [], ◌≡◌, ◌<◌, ◌++◌, ◌+◌, ◌∷◌, concat, if◌then◌else◌, length, List, ℕ, Bool,
}
use asyn_log_system.Prelude.Text.{Text}

-- Texts put together until they have `max` bytes or more, then from the next text on again; `cur`
-- is what was put together last.
unfoldable pub chunks_from : ℕ → Text → List Text → List Text
chunks_from max cur [] = cur ∷ []
chunks_from max cur (s ∷ rest) =
    let closes = chunks_from max s rest in
    let grows = chunks_from max (cur ++ s) rest in
    if leb max (length cur) then cur ∷ closes else grows

-- Every text has at least `max` bytes.
abbrev pub AllLong : ℕ → List Text → Type 0
AllLong max [] = Unit
AllLong max (t ∷ ts) = (max ≤ length t) × AllLong max ts

pub AllLong-snoc :
    (max : ℕ) (ts : List Text) (t : Text)
    → AllLong max ts
    → max ≤ length t
    → AllLong max (ts ++ t ∷ [])
AllLong-snoc max [] t long one = (one, tt)
AllLong-snoc max (x ∷ ts) t (first, long) one = (first, AllLong-snoc max ts t long one)

-- Nothing is lost and nothing moved.
pub concat-chunks_from :
    (max : ℕ) (cur : Text) (rest : List Text)
    → concat (chunks_from max cur rest) ≡ cur ++ concat rest
unfolding chunks_from
concat-chunks_from max cur [] = refl
concat-chunks_from max cur (s ∷ rest) = elim (Bool-cases (leb max (length cur))) [
  | inl full ↦ rw full (ap (◌++◌ cur) (concat-chunks_from max s rest))
  | inr room ↦ rw room (concat-chunks_from max (cur ++ s) rest ∙ append_assoc cur s (concat rest))
]

pub fits :
    (full : Bool) (cur s rest : Text)
    → length cur + (length s + length rest) < size_mod
    → length (if full then s else cur ++ s) + length rest < size_mod
fits true cur s rest small = omega arith
fits false cur s rest small = omega (arith, length-append cur s)

-- One more text, by the test on what was put together.
pub cut_lem :
    (full : Bool) (max : ℕ) (cur s : Text) (closed rest : List Text)
    → (if full then closed ++ cur ∷ [] else closed)
        ++ chunks_from max (if full then s else cur ++ s) rest
      ≡ closed ++ (if full then cur ∷ chunks_from max s rest else chunks_from max (cur ++ s) rest)
cut_lem true max cur s closed rest = append_assoc closed (cur ∷ []) (chunks_from max s rest)
cut_lem false max cur s closed rest = refl
