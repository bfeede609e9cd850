-- ===== src/Placement/Libraries.antt =====
-- What internal/placement calls and the repository does not hold: float64 arithmetic, collectionx's
-- ordered set, and the store behind nodecapacity.Catalog.
use orch.Prelude.{ℕ, String, Bool, true, false, Option, List, ◌≡◌, ◌==◌, if◌then◌else◌}
use orch.Prelude.Int.{ℤ}
use orch.Raft.State.{Snapshot}

-- IEEE 754 double precision, as Go computes with it; every comparison with a NaN but `!=` is false.
pub record Float64 (F : Type 0) : Type 0 where
  pub zero_f : F
  pub hundred : F
  pub lt : F → F → Bool
  pub le : F → F → Bool
  pub eq : F → F → Bool
  pub sub : F → F → F
  pub div : F → F → F
  pub mul : F → F → F
  pub of_int64 : ℤ → F
  pub to_int64 : F → ℤ

-- The laws of the comparisons, NaN included.
pub record Float64Laws {F : Type 0} (fl : Float64 F) : Type 0 where
  pub lt_irrefl : (a : F) → fl.lt a a ≡ false
  pub lt_trans : (a b c : F) → fl.lt a b ≡ true → fl.lt b c ≡ true → fl.lt a c ≡ true
  pub lt_not_eq : (a b : F) → fl.lt a b ≡ true → fl.eq a b ≡ false
  pub lt_eq : (a b c : F) → fl.lt a b ≡ true → fl.eq b c ≡ true → fl.lt a c ≡ true
  pub eq_lt : (a b c : F) → fl.eq a b ≡ true → fl.lt b c ≡ true → fl.lt a c ≡ true
  pub eq_trans : (a b c : F) → fl.eq a b ≡ true → fl.eq b c ≡ true → fl.eq a c ≡ true

-- set.OrderedSet[string]: `values` in the order of Range.
pub record OrderedSet (O : Type 0) : Type 0 where
  pub new_set : O
  pub add : String → O → O
  pub contains : O → String → Bool
  pub is_empty : O → Bool
  pub values : O → List String

-- An empty set contains nothing.
pub record OrderedSetLaws {O : Type 0} (set : OrderedSet O) : Type 0 where
  pub empty_contains : (s : O) (x : String) → set.is_empty s ≡ true → set.contains s x ≡ false

-- A set contains what was added to it.
pub record OrderedSetAdds {O : Type 0} (set : OrderedSet O) : Type 0 where
  pub contains-new_set : (x : String) → set.contains set.new_set x ≡ false
  pub contains-add :
      (a x : String) (s : O)
      → set.contains (set.add a s) x ≡ (if a == x then true else set.contains s x)

-- nodecapacity.SnapshotStore, as Catalog reads it.
pub record SnapshotStore (F : Type 0) : Type 0 where
  pub get : String → Option (Snapshot F)
  pub node_ids : List String
  pub len : ℕ
