-- ===== src/Deploy/Libraries.antt =====
-- What internal/deploy/v1alpha1 calls and the repository does not hold: parsers of the Go standard
-- library whose grammar plays no part here, and collectionx's set and graph. The operations are the
-- parameter `Libraries`; their documented behaviour is stated in SetLaws and GraphLaws.
use orch.Prelude.{
  ℕ, String, Bool, true, false, Option, none, some, List, ◌∷◌, ◌≡◌, ◌⊎◌, ◌==◌, if◌then◌else◌,
}
use mathlib.Core.List.{Memᴰ}
use orch.Prelude.Int.{ℤ}

-- graph.TopologicalSort: the sorted nodes, ErrCycleDetected, or another error.
pub data SortResult : Type 0 where
  sorted : List String → SortResult
  cycle_detected : SortResult
  failed : SortResult

pub record Libraries (S G : Type 0) : Type 0 where
  -- time.ParseDuration in nanoseconds; whether net.ParseIP and net.ParseMAC accept a text
  pub parse_duration : String → Option ℤ
  pub parse_ip : String → Bool
  pub parse_mac : String → Bool
  -- set.Set[string]
  pub new_set : S
  pub add : String → S → S
  pub contains : S → String → Bool
  -- graph.Graph[string, int], directed
  pub new_graph : G
  pub add_node : String → ℕ → G → G
  pub has_node : G → String → Bool
  pub get_node : G → String → Option ℕ
  pub add_edge : String → String → G → Option G
  pub topological_sort : G → SortResult

pub record SetLaws {S G : Type 0} (lib : Libraries S G) : Type 0 where
  pub contains-new_set : (a : String) → lib.contains lib.new_set a ≡ false
  pub contains-add :
      (a b : String) (s : S)
      → lib.contains (lib.add a s) b ≡ (if a == b then true else lib.contains s b)

-- The one text stands before the other.
pub data Precedes (a b : String) : List String → Type 0 where
  first : {xs : List String} → Memᴰ b xs → Precedes a b (a ∷ xs)
  later : {x : String} {xs : List String} → Precedes a b xs → Precedes a b (x ∷ xs)

-- `HasEdge` is whether the graph has an edge.
pub record GraphLaws {S G : Type 0} (lib : Libraries S G) (HasEdge : G → String → String → Type 0)
    : Type 0 where
  pub get_node-new_graph : (x : String) → lib.get_node lib.new_graph x ≡ none
  pub get_node-add_node :
      (a b : String) (i j : ℕ) (g : G)
      → lib.get_node (lib.add_node a i g) b ≡ some j
      → (a ≡ b) × (i ≡ j) ⊎ (lib.get_node g b ≡ some j)
  pub get_node-add_edge :
      (a b x : String) (g h : G) → lib.add_edge a b g ≡ some h → lib.get_node h x ≡ lib.get_node g x
  pub add_edge-HasEdge : (a b : String) (g h : G) → lib.add_edge a b g ≡ some h → HasEdge h a b
  pub add_edge_kept :
      (a b c d : String) (g h : G) → lib.add_edge a b g ≡ some h → HasEdge g c d → HasEdge h c d
  pub sorted-nodes :
      (g : G) (ids : List String) (x : String)
      → lib.topological_sort g ≡ sorted ids
      → Memᴰ x ids
      → (i : ℕ) × (lib.get_node g x ≡ some i)
  pub sorted-Precedes :
      (g : G) (ids : List String) (a b : String)
      → lib.topological_sort g ≡ sorted ids
      → HasEdge g a b
      → Precedes a b ids
