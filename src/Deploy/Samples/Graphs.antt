-- ===== src/Deploy/Samples/Graphs.antt =====
-- The list graph keeps to what internal/deploy/v1alpha1/dependency.go relies on.
use orch.Prelude.{
  ℕ, String, Bool, true, false, ◌&&◌, Option, none, some, List, [], ◌∷◌, ◌≡◌, refl, sym, inl, inr,
  arith, ◌==◌, eq_iff, if◌then◌else◌, Bool-cases, &&_true,
}
use mathlib.Core.List.{Memᴰ}
use orch.Deploy.Libraries.{
  GraphLaws, Precedes, first, later, SortResult, sorted, cycle_detected, failed,
}
use orch.Deploy.Samples.{
  ListGraph, list_contains, node_index, has_index, stands_before, keeps_edges, all_nodes, checked,
  list_libraries,
}

abbrev pub lists_edge : List (String × String) → String → String → Bool
lists_edge [] a b = false
lists_edge ((c, d) ∷ es) a b =
    let rest = lists_edge es a b in if c == a && d == b then true else rest

abbrev pub HasEdge : ListGraph → String → String → Type 0
HasEdge g a b = lists_edge g.edges a b ≡ true

list_contains_true : (xs : List String) (b : String) → list_contains xs b ≡ true → Memᴰ b xs
list_contains_true [] b h = absurd cc
list_contains_true (x ∷ xs) b h = elim (Bool-cases (x == b)) [
  | inl same ↦ Memᴰ.head (sym ((eq_iff x b).0 same))
  | inr other ↦ Memᴰ.tail (list_contains_true xs b (rw other at h))
]

Precedes-of_stands_before :
    (a b : String) (ids : List String) → stands_before a b ids ≡ true → Precedes a b ids
Precedes-of_stands_before a b [] h = absurd cc
Precedes-of_stands_before a b (x ∷ ids) h = elim (Bool-cases (x == a)) [
  | inl same ↦ elim (Bool-cases (list_contains ids b)) [
    | inl c ↦ rw (sym ((eq_iff x a).0 same)) (first (list_contains_true ids b c))
    | inr n ↦ later (Precedes-of_stands_before a b ids (let q = (rw (same, n) at h) in q))
  ]
  | inr other ↦ later (Precedes-of_stands_before a b ids (rw other at h))
]

kept_edge :
    (es : List (String × String)) (ids : List String) (a b : String)
    → keeps_edges es ids ≡ true
    → lists_edge es a b ≡ true
    → stands_before a b ids ≡ true
kept_edge [] ids a b k h = absurd cc
kept_edge ((c, d) ∷ es) ids a b k h =
    let (now, rest) = &&_true (stands_before c d ids) (keeps_edges es ids) k in
    elim (Bool-cases (c == a && d == b)) [
      | inl same ↦
          (let p : c ≡ a = ground (arith, eq_iff c a, eq_iff d b) in
            let q : d ≡ b = ground (arith, eq_iff c a, eq_iff d b) in rw (sym p) (rw (sym q) now))
      | inr other ↦ kept_edge es ids a b rest (rw other at h)
    ]

has_index-true : (o : Option ℕ) → has_index o ≡ true → (i : ℕ) × (o ≡ some i)
has_index-true none h = absurd cc
has_index-true (some i) h = (i, refl)

all_nodes_found :
    (nodes : List (String × ℕ)) (ids : List String) (x : String)
    → all_nodes nodes ids ≡ true
    → Memᴰ x ids
    → (i : ℕ) × (node_index nodes x ≡ some i)
all_nodes_found nodes (y ∷ ids) x h (Memᴰ.head p) = rw p (
    has_index-true (node_index nodes y)
      (&&_true (has_index (node_index nodes y)) (all_nodes nodes ids) h).0)
all_nodes_found nodes (y ∷ ids) x h (Memᴰ.tail m) =
    all_nodes_found nodes ids x (&&_true (has_index (node_index nodes y)) (all_nodes nodes ids) h).1
      m
all_nodes_found nodes [] x h m = elim m [ ]

checked_sorted :
    (g : ListGraph) (s : SortResult) (ids : List String)
    → checked g s ≡ sorted ids
    → (keeps_edges g.edges ids ≡ true) × (all_nodes g.nodes ids ≡ true)
checked_sorted g (sorted xs) ids h =
    elim (Bool-cases (keeps_edges g.edges xs && all_nodes g.nodes xs)) [
      | inl good ↦
          (let q : xs ≡ ids = (let r = (rw good at h) in cc r) in
            rw (sym q) (&&_true (keeps_edges g.edges xs) (all_nodes g.nodes xs) good))
      | inr bad ↦ absurd (let q = (rw bad at h) in cc q)
    ]
checked_sorted g cycle_detected ids h = absurd cc
checked_sorted g failed ids h = absurd cc

some_graph : (g h : ListGraph) → some g ≡ some h → g ≡ h
some_graph g h e = cc

pub list_graph_laws : GraphLaws list_libraries HasEdge
list_graph_laws = record {
  get_node-new_graph = λ x. refl;
  get_node-add_node = λ a b i j g h. elim (Bool-cases (a == b)) [
    | inl same ↦ inl ((eq_iff a b).0 same, (let q = (rw same at h) in cc q))
    | inr other ↦ inr (rw other at h)
  ];
  get_node-add_edge = λ a b x g h e. rw (sym (some_graph _ h e)) refl;
  add_edge-HasEdge =
      λ a b g h e. rw (sym (some_graph _ h e)) (ground (arith, eq_iff a a, eq_iff b b));
  add_edge_kept = λ a b c d g h e k. rw (sym (some_graph _ h e)) (ground arith);
  sorted-nodes = λ g ids x t m. all_nodes_found g.nodes ids x (checked_sorted g _ ids t).1 m;
  sorted-Precedes = λ g ids a b t k.
      Precedes-of_stands_before a b ids (kept_edge g.edges ids a b (checked_sorted g _ ids t).0 k);
}
