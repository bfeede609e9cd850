-- ===== src/Task/Libraries.antt =====
-- What internal/services/task calls and the repository does not hold: collectionx's sets, and the sort
-- of its list under strings.Compare.
use orch.Prelude.{String, Bool, true, false, List, [], ◌≡◌, ◌≢◌, ◌⊎◌, ◌↔◌, ◌==◌, if◌then◌else◌}
use mathlib.Core.List.{Memᴰ}

-- set.Set[string]
pub record NodeSet (S : Type 0) : Type 0 where
  pub new_set : S
  pub add : String → S → S
  pub contains : S → String → Bool

pub record NodeSetLaws {S : Type 0} (set : NodeSet S) : Type 0 where
  pub contains-new_set : (a : String) → set.contains set.new_set a ≡ false
  pub contains-add :
      (a b : String) (s : S)
      → set.contains (set.add a s) b ≡ (if a == b then true else set.contains s b)

-- Sorting moves the elements and keeps them.
pub record SortLaws (sort : List String → List String) : Type 0 where
  pub members : (x : String) (xs : List String) → Memᴰ x (sort xs) ↔ Memᴰ x xs

-- set.OrderedSet[string]; `remove` returns whether the element was there.
pub record RequestSet (O : Type 0) : Type 0 where
  pub new_set : O
  pub add : String → O → O
  pub remove : String → O → Bool × O
  pub is_empty : O → Bool
  pub values : O → List String

pub record RequestSetLaws {O : Type 0} (set : RequestSet O) : Type 0 where
  pub values-new_set : set.values set.new_set ≡ []
  pub values-add :
      (a x : String) (s : O) → Memᴰ x (set.values (set.add a s)) ↔ ((a ≡ x) ⊎ Memᴰ x (set.values s))
  pub removed : (a : String) (s : O) → ((set.remove a s).0 ≡ true) ↔ Memᴰ a (set.values s)
  pub values-remove :
      (a x : String) (s : O)
      → Memᴰ x (set.values (set.remove a s).1) ↔ (Memᴰ x (set.values s) × (x ≢ a))
  pub emptiness : (s : O) → (set.is_empty s ≡ true) ↔ (set.values s ≡ [])
