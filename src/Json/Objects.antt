-- ===== src/Json/Objects.antt =====
-- Objects of the JSON library.
use asyn_log_system.Prelude.{some, ◌≡◌, [], ◌∷◌, inl, inr, Bool-cases, ap, sym, ◌∙◌, some_injective}
use asyn_log_system.Prelude.Text.{ne_of_text_eq, text_eq_iff, text_eq, Text}
use asyn_log_system.Prelude.Table.{Table, find}
use asyn_log_system.Json.{Json, JsonLaws}

module _ (j : Json) where
  -- An object with these members.
  abbrev pub object : Table j.Value → j.Value
  object [] = j.null
  object ((k, v) ∷ rest) = j.set (object rest) k v

  pub member-object :
      (laws : JsonLaws j) (t : Table j.Value) (k : Text) (v : j.Value)
      → find k t ≡ some v
      → j.member (object t) k ≡ v
  unfolding find
  member-object laws [] k v e = cc
  member-object laws ((i, x) ∷ t) k v e = elim (Bool-cases (text_eq i k)) [
    | inl same ↦
        ap (λ n. j.member (object ((i, x) ∷ t)) n) (sym ((text_eq_iff i k).0 same))
        ∙ laws.member-set_self (object t) x i
        ∙ some_injective (rw same at e)
    | inr other ↦
        laws.member-set_ne (object t) x i k (ne_of_text_eq i k other)
        ∙ member-object laws t k v (rw other at e)
  ]
