-- ===== src/Prelude/GoMap.antt =====
-- Go's map[string]V. A map is nil or made; a read of a nil map finds nothing. The entries stand in
-- a list with no promise on its order, as Go makes none on the order of `range`.
use Prim.Native.Nat.{ℕ}
use Prim.Native.String.{String}
use mathlib.Core.Path.{◌≡◌, refl, ap, subst₂}
use mathlib.Core.Logic.{◌≢◌, ◌⊎◌, inl, inr}
use mathlib.Core.Option.{Option, none, some}
use mathlib.Core.List.{List, [], ◌∷◌, map, Memᴰ}
use native.Mathlib.Omega.{arith}
use text.Mathlib.Text.{◌==◌}
use text.Mathlib.TextEquality.{eq_iff}
use text.Mathlib.TextPositions.{eq_refl}
use orch.Prelude.Tests.{if◌then◌else◌, Bool-cases}
use orch.Prelude.Lists.{length}

pub data GoMap {ℓ} (V : Type ℓ) : Type ℓ where
  nil : GoMap V
  made : List (String × V) → GoMap V

module _ {ℓ} {V : Type ℓ} where
  lookup_entries : String → List (String × V) → Option V
  lookup_entries k [] = none
  lookup_entries k ((j, v) ∷ l) = if j == k then some v else lookup_entries k l

  insert_entries : String → V → List (String × V) → List (String × V)
  insert_entries k v [] = (k, v) ∷ []
  insert_entries k v ((j, w) ∷ l) = if j == k then (k, v) ∷ l else (j, w) ∷ insert_entries k v l

  delete_entries : String → List (String × V) → List (String × V)
  delete_entries k [] = []
  delete_entries k ((j, w) ∷ l) =
      let rest = delete_entries k l in if j == k then rest else (j, w) ∷ rest

  -- The pairs that `range m` visits, in some order.
  abbrev pub entries : GoMap V → List (String × V)
  entries nil = []
  entries (made l) = l

  -- v, ok := m[k]
  unfoldable pub lookup : String → GoMap V → Option V
  unfolding lookup_entries
  lookup k m = lookup_entries k (entries m)

  -- if m == nil { m = make(map[string]V) }; m[k] = v
  unfoldable pub insert : String → V → GoMap V → GoMap V
  unfolding insert_entries
  insert k v m = made (insert_entries k v (entries m))

  -- if m != nil { delete(m, k) }
  unfoldable pub delete : String → GoMap V → GoMap V
  unfolding delete_entries
  delete k nil = nil
  delete k (made l) = made (delete_entries k l)

  -- len(m)
  abbrev pub len : GoMap V → ℕ
  len m = length (entries m)

  abbrev pub keys : GoMap V → List String
  keys m = map (λ e. e.0) (entries m)

  abbrev pub values : GoMap V → List V
  values m = map (λ e. e.1) (entries m)

module _ {ℓ} {V : Type ℓ} where
  lookup-insert_entries :
      (k j : String) (v : V) (l : List (String × V))
      → lookup_entries j (insert_entries k v l) ≡ (if k == j then some v else lookup_entries j l)
  unfolding lookup_entries insert_entries
  lookup-insert_entries k j v [] = refl
  lookup-insert_entries k j v ((i, w) ∷ l) =
      ground (arith, eq_iff k j, eq_iff i k, eq_iff i j, lookup-insert_entries k j v l)

  lookup-delete_entries :
      (k j : String) (l : List (String × V))
      → lookup_entries j (delete_entries k l) ≡ (if k == j then none else lookup_entries j l)
  unfolding lookup_entries delete_entries
  lookup-delete_entries k j [] = ground arith
  lookup-delete_entries k j ((i, w) ∷ l) =
      ground (arith, eq_iff k j, eq_iff i k, eq_iff i j, lookup-delete_entries k j l)

  pub lookup-insert :
      (k j : String) (v : V) (m : GoMap V)
      → lookup j (insert k v m) ≡ (if k == j then some v else lookup j m)
  unfolding lookup insert
  lookup-insert k j v m = lookup-insert_entries k j v (entries m)

  pub lookup-delete :
      (k j : String) (m : GoMap V) → lookup j (delete k m) ≡ (if k == j then none else lookup j m)
  unfolding lookup delete
  lookup-delete k j nil = ground arith
  lookup-delete k j (made l) = lookup-delete_entries k j l

  found_entry :
      (k : String) (v : V) (l : List (String × V))
      → lookup_entries k l ≡ some v
      → Memᴰ v (map (λ e. e.1) l)
  unfolding lookup_entries
  found_entry k v [] h = absurd (cc h)
  found_entry k v ((j, w) ∷ l) h = elim (Bool-cases (j == k)) [
    | inl same ↦ Memᴰ.head (let q = (rw (lookup_entries, same) at h) in cc q)
    | inr other ↦ Memᴰ.tail (found_entry k v l (rw (lookup_entries, other) at h))
  ]

  -- What a read finds is one of the values.
  pub lookup-values : (k : String) (v : V) (m : GoMap V) → lookup k m ≡ some v → Memᴰ v (values m)
  unfolding lookup
  lookup-values k v m h = found_entry k v (entries m) h

  pub lookup-insert_self : (k : String) (v : V) (m : GoMap V) → lookup k (insert k v m) ≡ some v
  lookup-insert_self k v m = simp (lookup-insert, eq_refl)

  pub lookup-nil : (k : String) → lookup {V = V} k nil ≡ none
  unfolding lookup
  lookup-nil k = refl

pub ruleset map_laws = (lookup-insert, lookup-delete, lookup-nil)

-- Every entry that a read can find has the property.
pub record ForEach {ℓ κ} {V : Type ℓ} (P : String → V → Type κ) (m : GoMap V) : Type (ℓ ⊔ κ) where
  pub at_key : (k : String) (v : V) → lookup k m ≡ some v → P k v

module _ {ℓ} {V : Type ℓ} where
  -- What is found after a write was written by it, or stood there before.
  pub lookup-insert_cases :
      (k j : String) (v w : V) (m : GoMap V)
      → lookup j (insert k v m) ≡ some w
      → (k ≡ j) × (v ≡ w) ⊎ (lookup j m ≡ some w)
  lookup-insert_cases k j v w m e = ground (arith, eq_iff k j, lookup-insert k j v m)

  pub lookup-delete_found :
      (k j : String) (w : V) (m : GoMap V)
      → lookup j (delete k m) ≡ some w
      → (k ≢ j) × (lookup j m ≡ some w)
  lookup-delete_found k j w m e =
      (λ p. ground (arith, eq_iff k j, lookup-delete k j m), ground (arith, lookup-delete k j m))

  module _ {κ} (P : String → V → Type κ) where
    pub insert-ForEach :
        (k : String) (v : V) (m : GoMap V) → P k v → ForEach P m → ForEach P (insert k v m)
    insert-ForEach k v m p h = record {
      at_key = λ j w e. elim (lookup-insert_cases k j v w m e) [
        | inl (same, written) ↦ subst₂ P same written p
        | inr before ↦ h.at_key j w before
      ];
    }

    pub delete-ForEach : (k : String) (m : GoMap V) → ForEach P m → ForEach P (delete k m)
    delete-ForEach k m h = record {
      at_key = λ j w e. h.at_key j w (lookup-delete_found k j w m e).1;
    }

    pub nil-ForEach : ForEach P nil
    nil-ForEach = record { at_key = λ j w e. cc (lookup-nil {V = V} j) }

-- Two maps in which every read finds the same; a nil map and an empty one are such.
pub record SameReads {ℓ} {V : Type ℓ} (m n : GoMap V) : Type ℓ where
  pub at_key : (k : String) → lookup k m ≡ lookup k n

module _ {ℓ} {V : Type ℓ} where
  pub SameReads-refl : (m : GoMap V) → SameReads m m
  SameReads-refl m = record { at_key = λ k. refl }

  pub insert-SameReads :
      (k : String) (v : V) (m n : GoMap V) → SameReads m n → SameReads (insert k v m) (insert k v n)
  insert-SameReads k v m n h = record {
    at_key = λ j. cc (
      lookup-insert k j v m,
      lookup-insert k j v n,
      ap (λ o. if k == j then some v else o) (h.at_key j),
    );
  }

  pub delete-SameReads :
      (k : String) (m n : GoMap V) → SameReads m n → SameReads (delete k m) (delete k n)
  delete-SameReads k m n h = record {
    at_key = λ j. cc (
      lookup-delete k j m,
      lookup-delete k j n,
      ap (λ o. if k == j then none else o) (h.at_key j),
    );
  }
