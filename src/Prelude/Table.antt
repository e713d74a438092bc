-- ===== src/Prelude/Table.antt =====
-- `std::unordered_map` with text keys, as an association list.
use asyn_log_system.Prelude.Tests.{if◌then◌else◌}
use asyn_log_system.Prelude.Text.{Text, text_eq, text_eq_iff}
use mathlib.Core.Path.{◌≡◌, refl}
use mathlib.Core.Option.{Option, none, some}
use mathlib.Core.List.{List, [], ◌∷◌}
use native.Mathlib.Omega.{arith}

abbrev pub Table {ℓ} : Type ℓ → Type ℓ
Table V = List (Text × V)

module _ {ℓ} {V : Type ℓ} where
  -- `find(k)`.
  unfoldable pub find : Text → Table V → Option V
  find k [] = none
  find k ((j, v) ∷ t) = if text_eq j k then some v else find k t

  -- `t[k] = v`.
  unfoldable pub assign : Text → V → Table V → Table V
  assign k v [] = (k, v) ∷ []
  assign k v ((j, w) ∷ t) = if text_eq j k then (j, v) ∷ t else (j, w) ∷ assign k v t

  -- The values, in the order of the list.
  unfoldable pub values : Table V → List V
  values [] = []
  values ((k, v) ∷ t) = v ∷ values t

  pub find-assign :
      (k j : Text) (v : V) (t : Table V)
      → find j (assign k v t) ≡ (if text_eq k j then some v else find j t)
  unfolding find assign
  find-assign k j v [] = refl
  find-assign k j v ((i, w) ∷ t) =
      ground (arith, text_eq_iff k j, text_eq_iff i k, text_eq_iff i j, find-assign k j v t)

pub find-nil {ℓ} : (V : Type ℓ) (k : Text) → find {V = V} k [] ≡ none
unfolding find
find-nil V k = refl
