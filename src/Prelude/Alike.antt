-- ===== src/Prelude/Alike.antt =====
-- Values, lists and maps whose elements are alike by a relation.
use orch.Prelude.{
  ℕ, suc, zero, String, Option, none, some, List, [], ◌∷◌, ◌++◌, ◌≡◌, refl, ap, inl, inr,
  Bool-cases, ◌==◌,
}
use orch.Prelude.Lists.{length, drop, last?}
use orch.Prelude.GoMap
use orch.Prelude.GoMap.{GoMap, SameReads}

module _ {ℓ κ} {A : Type ℓ} (R : A → A → Type κ) where
  pub data OptionAlike : Option A → Option A → Type (ℓ ⊔ κ) where
    neither : OptionAlike none none
    both : (a b : A) → R a b → OptionAlike (some a) (some b)

  pub data ListAlike : List A → List A → Type (ℓ ⊔ κ) where
    nil : ListAlike [] []
    cons : (a b : A) (xs ys : List A) → R a b → ListAlike xs ys → ListAlike (a ∷ xs) (b ∷ ys)

  -- Every read of the one map is like that of the other.
  pub record MapAlike (m n : GoMap A) : Type (ℓ ⊔ κ) where
    pub at_key : (k : String) → OptionAlike (GoMap.lookup k m) (GoMap.lookup k n)

module _ {ℓ κ} {A : Type ℓ} (R : A → A → Type κ) (reflexive : (a : A) → R a a) where
  pub OptionAlike-refl : (o : Option A) → OptionAlike R o o
  OptionAlike-refl none = neither
  OptionAlike-refl (some a) = both a a (reflexive a)

  pub ListAlike-refl : (xs : List A) → ListAlike R xs xs
  ListAlike-refl [] = nil
  ListAlike-refl (x ∷ xs) = cons x x xs xs (reflexive x) (ListAlike-refl xs)

  pub MapAlike-of_SameReads : (m n : GoMap A) → SameReads m n → MapAlike R m n
  MapAlike-of_SameReads m n h = record {
    at_key = λ k. rw (h.at_key k) (OptionAlike-refl (GoMap.lookup k n));
  }

module _ {ℓ κ} {A : Type ℓ} (R : A → A → Type κ) where
  pub append-ListAlike :
      {xs ys zs ws : List A}
      → ListAlike R xs ys
      → ListAlike R zs ws
      → ListAlike R (xs ++ zs) (ys ++ ws)
  append-ListAlike nil k = k
  append-ListAlike (cons a b xs ys r h) k = cons a b _ _ r (append-ListAlike h k)

  pub length-ListAlike : {xs ys : List A} → ListAlike R xs ys → length xs ≡ length ys
  length-ListAlike nil = refl
  length-ListAlike (cons a b xs ys r h) = ap suc (length-ListAlike h)

  pub drop-ListAlike :
      (n : ℕ) {xs ys : List A} → ListAlike R xs ys → ListAlike R (drop n xs) (drop n ys)
  drop-ListAlike zero h = h
  drop-ListAlike (suc n) nil = nil
  drop-ListAlike (suc n) (cons a b xs ys r h) = drop-ListAlike n h

  pub last?-ListAlike : {xs ys : List A} → ListAlike R xs ys → OptionAlike R (last? xs) (last? ys)
  last?-ListAlike nil = neither
  last?-ListAlike (cons a b [] [] r nil) = both a b r
  last?-ListAlike (cons a b [] (y ∷ ys) r h) = elim h [ ]
  last?-ListAlike (cons a b (x ∷ xs) [] r h) = elim h [ ]
  last?-ListAlike (cons a b (x ∷ xs) (y ∷ ys) r h) = last?-ListAlike h

  pub insert-MapAlike :
      (k : String) (v w : A) (m n : GoMap A)
      → R v w
      → MapAlike R m n
      → MapAlike R (GoMap.insert k v m) (GoMap.insert k w n)
  insert-MapAlike k v w m n r h = record {
    at_key = λ j.
        rw (GoMap.lookup-insert k j v m, GoMap.lookup-insert k j w n)
          (elim (Bool-cases (k == j)) [
            | inl same ↦ rw same (both v w r)
            | inr other ↦ rw other (h.at_key j)
          ]);
  }

  pub delete-MapAlike :
      (k : String) (m n : GoMap A)
      → MapAlike R m n
      → MapAlike R (GoMap.delete k m) (GoMap.delete k n)
  delete-MapAlike k m n h = record {
    at_key = λ j.
        rw (GoMap.lookup-delete k j m, GoMap.lookup-delete k j n)
          (elim (Bool-cases (k == j)) [
            | inl same ↦ rw same neither
            | inr other ↦ rw other (h.at_key j)
          ]);
  }
