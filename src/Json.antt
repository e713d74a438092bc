-- ===== src/Json.antt =====
-- The JSON library that src/server uses, as the calls that the sources make of it and the laws
-- that they rely on; and `JsonUtil` of src/server/Util.hpp.
pub mod Objects
pub mod Sample
use asyn_log_system.Prelude.{
  arith, ℕ, ◌^◌, ◌≤◌, ◌<◌, ◌≡◌, ◌≢◌, Bool, true, false, List, [], ◌∷◌, ◌++◌, Option, none, some,
}
use asyn_log_system.Prelude.Text.{Text}

pub record Json : Type 1 where
  pub Value : Type 0
  -- The value that the default constructor makes.
  pub null : Value
  -- A 64-bit number, given as its bit pattern.
  pub int64 : ℕ → Value
  pub string : Text → Value
  -- `v[k] = x`.
  pub set : Value → Text → Value → Value
  -- `v[k]` read.
  pub member : Value → Text → Value
  -- `v.append(x)`.
  pub append : Value → Value → Value
  -- What a `for` loop over `v` visits.
  pub elements : Value → List Value
  -- `asInt()`, `asInt64()` and `asString()`; `none` is the exception that they throw. Numbers are
  -- given as 64-bit patterns.
  pub as_int : Value → Option ℕ
  pub as_int64 : Value → Option ℕ
  pub as_string : Value → Option Text
  -- `StreamWriter::write`; `none` is a result other than 0.
  pub write : Value → Option Text
  -- `CharReader::parse`; `none` is the result `false`.
  pub parse : Text → Option Value

-- Documented behaviour: a member set is read back and others stay; `append` adds at the end;
-- `asInt` returns what an `int` can hold and throws beyond; the null value has no members, and reads
-- as 0 and as the empty text; a text that was written parses to the value.
pub record JsonLaws (j : Json) : Type 0 where
  pub member-set_self : (v x : j.Value) (k : Text) → j.member (j.set v k x) k ≡ x
  pub member-set_ne : (v x : j.Value) (k l : Text) → k ≢ l → j.member (j.set v k x) l ≡ j.member v l
  pub elements-null : j.elements j.null ≡ []
  pub elements-append : (v x : j.Value) → j.elements (j.append v x) ≡ j.elements v ++ x ∷ []
  pub as_int-int64 : (n : ℕ) → n < 2 ^ 31 → j.as_int (j.int64 n) ≡ some n
  pub as_int-too_big : (n : ℕ) → 2 ^ 31 ≤ n → n < 2 ^ 63 → j.as_int (j.int64 n) ≡ none
  pub as_int64-int64 : (n : ℕ) → n < 2 ^ 63 → j.as_int64 (j.int64 n) ≡ some n
  pub member-null : (k : Text) → j.member j.null k ≡ j.null
  pub as_int-null : j.as_int j.null ≡ some 0
  pub as_int64-null : j.as_int64 j.null ≡ some 0
  pub as_string-null : j.as_string j.null ≡ some []
  pub as_string-string : (s : Text) → j.as_string (j.string s) ≡ some s
  pub parse-write : (v : j.Value) (s : Text) → j.write v ≡ some s → j.parse s ≡ some v

module _ (j : Json) where
  open j use {Value, write, parse}

  -- `JsonUtil::Serialize(val, str)` into `str`, with its result.
  unfoldable pub serialize : Value → Text → Bool × Text
  serialize v str = elim (write v) [ none ↦ (false, str) | some s ↦ (true, s) ]

  -- `JsonUtil::UnSerialize(str, val)` into `val`, with its result.
  unfoldable pub unserialize : Text → Value → Bool × Value
  unserialize str v = elim (parse str) [ none ↦ (false, v) | some w ↦ (true, w) ]

  pub serialize_written :
      (v : Value) (str s : Text) → write v ≡ some s → serialize v str ≡ (true, s)
  unfolding serialize
  serialize_written v str s e = ground arith

  pub unserialize_parsed : (v w : Value) (s : Text) → parse s ≡ some w → unserialize s v ≡ (true, w)
  unfolding unserialize
  unserialize_parsed v w s e = ground arith
