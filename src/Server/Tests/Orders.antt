-- ===== src/Server/Tests/Orders.antt =====
-- Lists of one or two entries, in whatever order.
use mathlib.Core.List.{Permᴰ}
use asyn_log_system.Prelude.{◌≡◌, ◌∙◌, ◌⊎◌, refl, inl, inr, List, [], ◌∷◌}

module _ {A : Type 0} where
  abbrev AreNone : List A → Type 0
  AreNone [] = Unit
  AreNone (x ∷ xs) = ⊥

  AreNone-Permᴰ : (xs ys : List A) → Permᴰ xs ys → AreNone ys → AreNone xs
  AreNone-Permᴰ _ _ Permᴰ.nil none = tt
  AreNone-Permᴰ _ _ (Permᴰ.cons e p) none = absurd none
  AreNone-Permᴰ _ _ (Permᴰ.swap e1 e2) none = absurd none
  AreNone-Permᴰ _ _ (Permᴰ.trans {l₁ = xs} {l₂ = ys} {l₃ = zs} p q) none =
      AreNone-Permᴰ xs ys p (AreNone-Permᴰ ys zs q none)

  abbrev AreOne : A → List A → Type 0
  AreOne a [] = ⊥
  AreOne a (x ∷ xs) = (x ≡ a) × AreNone xs

  AreOne-Permᴰ : (a : A) (xs ys : List A) → Permᴰ xs ys → AreOne a ys → AreOne a xs
  AreOne-Permᴰ a _ _ Permᴰ.nil one = one
  AreOne-Permᴰ a _ _ (Permᴰ.cons {l₁ = xs} {l₂ = ys} e p) (own, none) =
      (e ∙ own, AreNone-Permᴰ xs ys p none)
  AreOne-Permᴰ a _ _ (Permᴰ.swap e1 e2) (own, none) = absurd none
  AreOne-Permᴰ a _ _ (Permᴰ.trans {l₁ = xs} {l₂ = ys} {l₃ = zs} p q) one =
      AreOne-Permᴰ a xs ys p (AreOne-Permᴰ a ys zs q one)

  abbrev AreTwo : A → A → List A → Type 0
  AreTwo a b [] = ⊥
  AreTwo a b (x ∷ xs) = ((x ≡ a) × AreOne b xs) ⊎ ((x ≡ b) × AreOne a xs)

  AreTwo-Permᴰ : (a b : A) (xs ys : List A) → Permᴰ xs ys → AreTwo a b ys → AreTwo a b xs
  AreTwo-Permᴰ a b _ _ Permᴰ.nil two = two
  AreTwo-Permᴰ a b _ _ (Permᴰ.cons {l₁ = xs} {l₂ = ys} e p) (inl (own, one)) =
      inl (e ∙ own, AreOne-Permᴰ b xs ys p one)
  AreTwo-Permᴰ a b _ _ (Permᴰ.cons {l₁ = xs} {l₂ = ys} e p) (inr (own, one)) =
      inr (e ∙ own, AreOne-Permᴰ a xs ys p one)
  AreTwo-Permᴰ a b _ _ (Permᴰ.swap e1 e2) (inl (own, (second, none))) =
      inr (e1 ∙ second, (e2 ∙ own, none))
  AreTwo-Permᴰ a b _ _ (Permᴰ.swap e1 e2) (inr (own, (second, none))) =
      inl (e1 ∙ second, (e2 ∙ own, none))
  AreTwo-Permᴰ a b _ _ (Permᴰ.trans {l₁ = xs} {l₂ = ys} {l₃ = zs} p q) two =
      AreTwo-Permᴰ a b xs ys p (AreTwo-Permᴰ a b ys zs q two)

  none-eq : (xs : List A) → AreNone xs → xs ≡ []
  none-eq [] none = refl
  none-eq (x ∷ xs) none = absurd none

  one-eq : (a : A) (xs : List A) → AreOne a xs → xs ≡ a ∷ []
  one-eq a [] one = absurd one
  one-eq a (x ∷ xs) (own, none) = λ i. own i ∷ none-eq xs none i

  two-eq : (a b : A) (xs : List A) → AreTwo a b xs → (xs ≡ a ∷ b ∷ []) ⊎ (xs ≡ b ∷ a ∷ [])
  two-eq a b [] two = absurd two
  two-eq a b (x ∷ xs) (inl (own, one)) = inl (λ i. own i ∷ one-eq b xs one i)
  two-eq a b (x ∷ xs) (inr (own, one)) = inr (λ i. own i ∷ one-eq a xs one i)

  pub orders_of_one : (a : A) (xs : List A) → Permᴰ xs (a ∷ []) → xs ≡ a ∷ []
  orders_of_one a xs p = one-eq a xs (AreOne-Permᴰ a xs (a ∷ []) p (refl, tt))

  pub orders_of_two :
      (a b : A) (xs : List A) → Permᴰ xs (a ∷ b ∷ []) → (xs ≡ a ∷ b ∷ []) ⊎ (xs ≡ b ∷ a ∷ [])
  orders_of_two a b xs p =
      two-eq a b xs (AreTwo-Permᴰ a b xs (a ∷ b ∷ []) p (inl (refl, (refl, tt))))
