-- ===== src/Prelude/Members.antt =====
-- Members of a list from which one element is taken out.
use mathlib.Core.Path.{◌≡◌, refl, sym}
use mathlib.Core.Logic.{◌⊎◌, inl, inr}
use mathlib.Core.List.{List, [], ◌∷◌, ◌++◌, Memᴰ}

module _ {ℓ} {A : Type ℓ} where
  pub Memᴰ_with :
      (x y : A) (before after : List A) → Memᴰ x (before ++ after) → Memᴰ x (before ++ y ∷ after)
  Memᴰ_with x y [] after m = Memᴰ.tail m
  Memᴰ_with x y (z ∷ before) after (Memᴰ.head e) = Memᴰ.head e
  Memᴰ_with x y (z ∷ before) after (Memᴰ.tail m) = Memᴰ.tail (Memᴰ_with x y before after m)

  pub Memᴰ_without :
      (x y : A) (before after : List A)
      → Memᴰ x (before ++ y ∷ after)
      → (x ≡ y) ⊎ Memᴰ x (before ++ after)
  Memᴰ_without x y [] after (Memᴰ.head e) = inl e
  Memᴰ_without x y [] after (Memᴰ.tail m) = inr m
  Memᴰ_without x y (z ∷ before) after (Memᴰ.head e) = inr (Memᴰ.head e)
  Memᴰ_without x y (z ∷ before) after (Memᴰ.tail m) = elim (Memᴰ_without x y before after m) [
    | inl e ↦ inl e
    | inr k ↦ inr (Memᴰ.tail k)
  ]

  pub Memᴰ_split : (y : A) (before after : List A) → Memᴰ y (before ++ y ∷ after)
  Memᴰ_split y [] after = Memᴰ.head refl
  Memᴰ_split y (z ∷ before) after = Memᴰ.tail (Memᴰ_split y before after)

  -- No element stands in the list twice.
  abbrev pub Distinct : List A → Type ℓ
  Distinct [] = Unit
  Distinct (x ∷ xs) = (¬ Memᴰ x xs) × Distinct xs

  pub Memᴰ_snoc : (x y : A) (xs : List A) → Memᴰ x (xs ++ y ∷ []) → Memᴰ x xs ⊎ (x ≡ y)
  Memᴰ_snoc x y [] (Memᴰ.head e) = inr e
  Memᴰ_snoc x y [] (Memᴰ.tail m) = elim m [ ]
  Memᴰ_snoc x y (z ∷ xs) (Memᴰ.head e) = inl (Memᴰ.head e)
  Memᴰ_snoc x y (z ∷ xs) (Memᴰ.tail m) = elim (Memᴰ_snoc x y xs m) [
    | inl k ↦ inl (Memᴰ.tail k)
    | inr e ↦ inr e
  ]

  pub Distinct-snoc : (x : A) (xs : List A) → ¬ Memᴰ x xs → Distinct xs → Distinct (xs ++ x ∷ [])
  Distinct-snoc x [] new d = (λ m. elim m [ ], tt)
  Distinct-snoc x (y ∷ xs) new d = (
    λ m. elim (Memᴰ_snoc y x xs m) [ inl k ↦ d.0 k | inr e ↦ new (Memᴰ.head (sym e)) ],
    Distinct-snoc x xs (λ m. new (Memᴰ.tail m)) d.1,
  )
