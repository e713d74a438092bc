-- ===== src/Server/DataManager/Order.antt =====
-- src/server/DataManager.hpp: tables with the same entries in another order, as a restart makes
-- them from what an iteration wrote.
use mathlib.Core.List.Permᴰ
use mathlib.Core.List.{Permᴰ}
use asyn_log_system.Prelude.{
  ◌≡◌, refl, sym, inl, inr, ap, ◌∙◌, subst, false, List, ◌∷◌, none, some, arith, Bool-cases,
  if◌then◌else◌,
}
use asyn_log_system.Prelude.Text.{Text, text_eq, text_eq_iff}
use asyn_log_system.Prelude.Table.{Table, find, assign, values}
use asyn_log_system.Server.DataManager.Entry.{StorageInfo}
use asyn_log_system.Server.DataManager.Items.{All, IsKeyed}

pub values-Permᴰ : (t u : Table StorageInfo) → Permᴰ t u → Permᴰ (values t) (values u)
unfolding values
values-Permᴰ _ _ Permᴰ.nil = Permᴰ.nil
values-Permᴰ _ _ (Permᴰ.cons {l₁ = t} {l₂ = u} e p) =
    Permᴰ.cons (ap (λ x. x.1) e) (values-Permᴰ t u p)
values-Permᴰ _ _ (Permᴰ.swap e1 e2) = Permᴰ.swap (ap (λ x. x.1) e1) (ap (λ x. x.1) e2)
values-Permᴰ _ _ (Permᴰ.trans {l₁ = t} {l₂ = u} {l₃ = v} p q) =
    Permᴰ.trans (values-Permᴰ t u p) (values-Permᴰ u v q)

pub All-Permᴰ {ℓ κ} :
    {A : Type ℓ} (P : A → Type κ) (xs ys : List A) → Permᴰ xs ys → All P xs → All P ys
All-Permᴰ P _ _ Permᴰ.nil all = tt
All-Permᴰ P _ _ (Permᴰ.cons {l₁ = xs} {l₂ = ys} e p) (x, all) =
    (subst P e x, All-Permᴰ P xs ys p all)
All-Permᴰ P _ _ (Permᴰ.swap e1 e2) (x, (y, all)) = (subst P e2 y, (subst P e1 x, all))
All-Permᴰ P _ _ (Permᴰ.trans {l₁ = xs} {l₂ = ys} {l₃ = zs} p q) all =
    All-Permᴰ P ys zs q (All-Permᴰ P xs ys p all)

-- Two tables with the same entry under every key.
abbrev Finds : Table StorageInfo → Table StorageInfo → Type 0
Finds t u = (k : Text) → find k t ≡ find k u

keys_apart :
    (i j : Text) (w : StorageInfo) (t : Table StorageInfo)
    → find i ((j, w) ∷ t) ≡ none
    → text_eq j i ≡ false
unfolding find
keys_apart i j w t once = elim (Bool-cases (text_eq j i)) [
  | inl same ↦ cc (rw same at once)
  | inr other ↦ other
]

swap-Finds :
    (i j : Text) (v w : StorageInfo) (t : Table StorageInfo)
    → IsKeyed ((i, v) ∷ (j, w) ∷ t)
    → IsKeyed ((j, w) ∷ (i, v) ∷ t) × Finds ((i, v) ∷ (j, w) ∷ t) ((j, w) ∷ (i, v) ∷ t)
unfolding find
swap-Finds i j v w t (own1, once1, (own2, once2, rest)) =
    let apart = keys_apart i j w t once1 in
    let other_way : text_eq i j ≡ false = ground (arith, text_eq_iff i j, text_eq_iff j i, apart) in
    (
      (own2, rw other_way once2, (own1, rw apart at once1, rest)),
      λ k. ground (arith, text_eq_iff i k, text_eq_iff j k, text_eq_iff j i, apart),
    )

-- A table with the same entries in another order has no key twice either, and the same entry under
-- every key.
pub IsKeyed-Permᴰ : (t u : Table StorageInfo) → Permᴰ t u → IsKeyed t → IsKeyed u × Finds t u
unfolding find
IsKeyed-Permᴰ _ _ Permᴰ.nil keyed = (tt, λ k. refl)
IsKeyed-Permᴰ _ _ (Permᴰ.cons {a = (i, v)} {l₁ = t} {l₂ = u} e p) (own, once, rest) =
    let (keyed, same) = IsKeyed-Permᴰ t u p rest in
    subst (λ x. IsKeyed (x ∷ u) × Finds ((i, v) ∷ t) (x ∷ u)) e
      ((own, sym (same i) ∙ once, keyed), λ k. ap (λ o. if text_eq i k then some v else o) (same k))
IsKeyed-Permᴰ _ _ (Permᴰ.swap {a = (i, v)} {b = (j, w)} {b' = y} {l = t} e1 e2) keyed =
    subst (λ x. IsKeyed (x ∷ y ∷ t) × Finds ((i, v) ∷ (j, w) ∷ t) (x ∷ y ∷ t)) e2
      (subst (λ y. IsKeyed ((j, w) ∷ y ∷ t) × Finds ((i, v) ∷ (j, w) ∷ t) ((j, w) ∷ y ∷ t)) e1
        (swap-Finds i j v w t keyed))
IsKeyed-Permᴰ _ _ (Permᴰ.trans {l₁ = t} {l₂ = u} {l₃ = v} p q) keyed =
    let (keyed_u, same) = IsKeyed-Permᴰ t u p keyed in
    let (keyed_v, same') = IsKeyed-Permᴰ u v q keyed_u in (keyed_v, λ k. same k ∙ same' k)

assign_swap :
    (k : Text) (n : StorageInfo) (i j : Text) (v w : StorageInfo) (t : Table StorageInfo)
    → IsKeyed ((i, v) ∷ (j, w) ∷ t)
    → Permᴰ (assign k n ((i, v) ∷ (j, w) ∷ t)) (assign k n ((j, w) ∷ (i, v) ∷ t))
unfolding assign find
assign_swap k n i j v w t (own1, once1, (own2, once2, rest)) = elim (Bool-cases (text_eq i k)) [
  | inl first ↦ elim (Bool-cases (text_eq j k)) [
    | inl second ↦
        let same : j ≡ i = (text_eq_iff j k).0 second ∙ sym ((text_eq_iff i k).0 first) in
        cc ((text_eq_iff j i).1 same, keys_apart i j w t once1)
    | inr other ↦ rw (first, other) (Permᴰ.swap refl refl)
  ]
  | inr other ↦ elim (Bool-cases (text_eq j k)) [
    | inl second ↦ rw (other, second) (Permᴰ.swap refl refl)
    | inr neither ↦ rw (other, neither) (Permᴰ.swap refl refl)
  ]
]

-- An entry can be set before or after the order changes.
pub assign-Permᴰ :
    (k : Text) (n : StorageInfo) (t u : Table StorageInfo)
    → Permᴰ t u
    → IsKeyed t
    → Permᴰ (assign k n t) (assign k n u)
unfolding assign
assign-Permᴰ k n _ _ Permᴰ.nil keyed = Permᴰ.refl _
assign-Permᴰ k n _ _ (Permᴰ.cons {a = (i, v)} {l₁ = t} {l₂ = u} e p) (own, once, rest) =
    subst (λ x. Permᴰ (assign k n ((i, v) ∷ t)) (assign k n (x ∷ u))) e
      (elim (Bool-cases (text_eq i k)) [
        | inl same ↦ rw same (Permᴰ.cons refl p)
        | inr other ↦ rw other (Permᴰ.cons refl (assign-Permᴰ k n t u p rest))
      ])
assign-Permᴰ k n _ _ (Permᴰ.swap {a = (i, v)} {b = (j, w)} {b' = y} {l = t} e1 e2) keyed =
    subst (λ x. Permᴰ (assign k n ((i, v) ∷ (j, w) ∷ t)) (assign k n (x ∷ y ∷ t))) e2
      (subst (λ y. Permᴰ (assign k n ((i, v) ∷ (j, w) ∷ t)) (assign k n ((j, w) ∷ y ∷ t))) e1
        (assign_swap k n i j v w t keyed))
assign-Permᴰ k n _ _ (Permᴰ.trans {l₁ = t} {l₂ = u} {l₃ = v} p q) keyed =
    Permᴰ.trans (assign-Permᴰ k n t u p keyed)
      (assign-Permᴰ k n u v q (IsKeyed-Permᴰ t u p keyed).0)
