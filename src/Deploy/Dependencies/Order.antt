-- ===== src/Deploy/Dependencies/Order.antt =====
-- The dependency order of internal/deploy/v1alpha1/dependency.go: every workload stands after the
-- workloads that it depends on.
use orch.Prelude.{
  ℕ, suc, String, some, List, [], ◌∷◌, ◌++◌, map, ◌≡◌, refl, sym, ◌∙◌, subst, ◌⊎◌, inl, inr, arith,
  ◌==◌, Bool-cases, Option-cases,
}
use mathlib.Core.List.{Memᴰ}
use orch.Prelude.Text.{trim_space}
use orch.Prelude.Lists.{length, get_elem?, length-append}
use orch.Deploy.Document.{WorkloadRef, Workload, App}
use orch.Deploy.Errors.{DeployError}
use orch.Deploy.Libraries.{
  Libraries, SortResult, sorted, cycle_detected, failed, GraphLaws, Precedes,
}
use orch.Deploy.Dependencies.{
  Result, ok, err, add_workload_dependency_node, add_nodes_from, add_workload_dependency_nodes,
  edge_result, add_workload_dependency_edge, add_refs_from,
  add_workload_dependency_edges_for_workload, add_edges_from, build_workload_dependency_graph,
  node_workload, workloads_of_ids, sort_result, ordered_workloads, order_nonempty, order_list,
  workloads_in_dependency_order,
}

abbrev pub trimmed_names : List Workload → List String
trimmed_names ws = map (λ (w : Workload). trim_space w.name) ws

get_elem?-append :
    (pre : List Workload) (w : Workload) (ws : List Workload)
    → get_elem? (pre ++ w ∷ ws) (length pre) ≡ some w
get_elem?-append [] w ws = refl
get_elem?-append (x ∷ pre) w ws = get_elem?-append pre w ws

append_assoc :
    (pre : List Workload) (w : Workload) (ws : List Workload)
    → (pre ++ w ∷ []) ++ ws ≡ pre ++ w ∷ ws
append_assoc [] w ws = refl
append_assoc (x ∷ pre) w ws = cc (append_assoc pre w ws)

module _ {S G : Type 0} (lib : Libraries S G) (HasEdge : G → String → String → Type 0)
    (laws : GraphLaws lib HasEdge) where
  -- A node's value is the index of a workload of its name.
  record IsIndexed (all : List Workload) (g : G) : Type 0 where
    at_node :
        (x : String) (i : ℕ)
        → lib.get_node g x ≡ some i
        → (w : Workload) × (get_elem? all i ≡ some w) × (trim_space w.name ≡ x)

  node-IsIndexed :
      (all : List Workload) (i : ℕ) (w : Workload) (g : G)
      → get_elem? all i ≡ some w
      → IsIndexed all g
      → IsIndexed all (lib.add_node (trim_space w.name) i g)
  node-IsIndexed all i w g here h = record {
    at_node = λ x j e. elim (laws.get_node-add_node (trim_space w.name) x i j g e) [
      | inl (same, index) ↦ (w, subst (λ k. get_elem? all k ≡ some w) index here, same)
      | inr before ↦ h.at_node x j before
    ];
  }

  node_ok :
      (all : List Workload) (i : ℕ) (w : Workload) (g : G) (seen : S) (gs : G × S)
      → get_elem? all i ≡ some w
      → IsIndexed all g
      → add_workload_dependency_node lib i w (g, seen) ≡ ok gs
      → IsIndexed all gs.0
  unfolding add_workload_dependency_node
  node_ok all i w g seen gs here h e = elim (Bool-cases (trim_space w.name == "")) [
    | inl blank ↦ absurd (let q = (rw blank at e) in cc q)
    | inr named ↦ elim (Bool-cases (lib.contains seen (trim_space w.name))) [
      | inl again ↦ absurd (let q = (rw (named, again) at e) in cc q)
      | inr new ↦
          (let q : (lib.add_node (trim_space w.name) i g, lib.add (trim_space w.name) seen) ≡ gs =
              (let r = (rw (named, new) at e) in cc r) in
            subst (λ (p : G × S). IsIndexed all p.0) q (node-IsIndexed all i w g here h))
    ]
  ]

  Result-cases :
      {A : Type 0} (r : Result A) → ((a : A) × (r ≡ ok a)) ⊎ ((e : DeployError) × (r ≡ err e))
  Result-cases (ok a) = inl (a, refl)
  Result-cases (err e) = inr (e, refl)

  add_nodes_from-IsIndexed :
      (all pre : List Workload) (ws : List Workload) (g : G) (seen : S) (gs : G × S)
      → pre ++ ws ≡ all
      → IsIndexed all g
      → add_nodes_from lib (length pre) ws (g, seen) ≡ ok gs
      → IsIndexed all gs.0
  unfolding add_nodes_from
  add_nodes_from-IsIndexed all pre [] g seen gs split h e =
      (let s : (g, seen) ≡ gs = cc e in subst (λ (p : G × S). IsIndexed all p.0) s h)
  add_nodes_from-IsIndexed all pre (w ∷ ws) g seen gs split h e =
      elim (Result-cases (add_workload_dependency_node lib (length pre) w (g, seen))) [
        | inl (gs2, f) ↦
            (let here : get_elem? all (length pre) ≡ some w =
                rw (sym split) (get_elem?-append pre w ws) in
              let size : suc (length pre) ≡ length (pre ++ w ∷ []) =
                (let l = length-append pre (w ∷ []) in omega (arith, l)) in
              add_nodes_from-IsIndexed all (pre ++ w ∷ []) ws gs2.0 gs2.1 gs
                (append_assoc pre w ws ∙ split) (node_ok all (length pre) w g seen gs2 here h f)
                (subst (λ n. add_nodes_from lib n ws gs2 ≡ ok gs) size
                  (rw (add_nodes_from, f) at e)))
        | inr (x, f) ↦ absurd (let q = (rw (add_nodes_from, f) at e) in cc q)
      ]

  edge_ok :
      (i j : ℕ) (a b : String) (g h : G)
      → add_workload_dependency_edge lib i j a b g ≡ ok h
      → lib.add_edge a b g ≡ some h
  unfolding add_workload_dependency_edge edge_result
  edge_ok i j a b g h e = elim (Bool-cases (lib.has_node g a)) [
    | inr gone ↦ absurd (let q = (rw gone at e) in cc q)
    | inl known ↦ elim (Option-cases (lib.add_edge a b g)) [
      | inl bad ↦ absurd (let q = (rw (known, bad) at e) in cc q)
      | inr (g2, f) ↦ (let q : g2 ≡ h = (let r = (rw (known, f) at e) in cc r) in rw (sym q) f)
    ]
  ]

  -- The graph after a step has the nodes and the edges from before.
  record IsGrown (g h : G) : Type 0 where
    nodes : (x : String) → lib.get_node h x ≡ lib.get_node g x
    edges : (a b : String) → HasEdge g a b → HasEdge h a b

  IsGrown-refl : (g : G) → IsGrown g g
  IsGrown-refl g = record { nodes = λ x. refl; edges = λ a b e. e }

  IsGrown-trans : (f g h : G) → IsGrown f g → IsGrown g h → IsGrown f h
  IsGrown-trans f g h p q = record {
    nodes = λ x. q.nodes x ∙ p.nodes x;
    edges = λ a b e. q.edges a b (p.edges a b e);
  }

  edge-IsGrown : (a b : String) (g h : G) → lib.add_edge a b g ≡ some h → IsGrown g h
  edge-IsGrown a b g h e = record {
    nodes = λ x. laws.get_node-add_edge a b x g h e;
    edges = λ c d f. laws.add_edge_kept a b c d g h e f;
  }

  refs_ok :
      (i j : ℕ) (name : String) (refs : List WorkloadRef) (g h : G)
      → add_refs_from lib i j name refs g ≡ ok h
      → IsGrown g h × ((ref : WorkloadRef) → Memᴰ ref refs → HasEdge h (trim_space ref.name) name)
  unfolding add_refs_from
  refs_ok i j name [] g h e =
      (let q : g ≡ h = cc e in (subst (IsGrown g) q (IsGrown-refl g), λ ref m. elim m [ ]))
  refs_ok i j name (r ∷ refs) g h e =
      elim (Result-cases (add_workload_dependency_edge lib i j (trim_space r.name) name g)) [
        | inl (g2, f) ↦
            (let added = edge_ok i j (trim_space r.name) name g g2 f in
              let (grown, later) = refs_ok i (suc j) name refs g2 h (rw (add_refs_from, f) at e) in
              (
                IsGrown-trans g g2 h (edge-IsGrown (trim_space r.name) name g g2 added) grown,
                λ ref m.
                    listed ref m
                      (grown.edges (trim_space r.name) name
                        (laws.add_edge-HasEdge (trim_space r.name) name g g2 added))
                      (later ref),
              ))
        | inr (x, f) ↦ absurd (let q = (rw (add_refs_from, f) at e) in cc q)
      ]
    where
      listed :
          (ref : WorkloadRef)
          → Memᴰ ref (r ∷ refs)
          → HasEdge h (trim_space r.name) name
          → (Memᴰ ref refs → HasEdge h (trim_space ref.name) name)
          → HasEdge h (trim_space ref.name) name
      listed ref (Memᴰ.head p) now later = rw p now
      listed ref (Memᴰ.tail m) now later = later m

  -- The graph has an edge from each workload that one of the list depends on.
  abbrev HasEdgesOf : G → List Workload → Type 0
  HasEdgesOf h ws =
      (w : Workload) (ref : WorkloadRef)
      → Memᴰ w ws
      → Memᴰ ref w.depends_on
      → HasEdge h (trim_space ref.name) (trim_space w.name)

  edges_ok :
      (i : ℕ) (ws : List Workload) (g h : G)
      → add_edges_from lib i ws g ≡ ok h
      → IsGrown g h × HasEdgesOf h ws
  unfolding add_edges_from add_workload_dependency_edges_for_workload
  edges_ok i [] g h e =
      (let q : g ≡ h = cc e in (subst (IsGrown g) q (IsGrown-refl g), λ w ref m r. elim m [ ]))
  edges_ok i (x ∷ ws) g h e =
      elim (Result-cases (add_workload_dependency_edges_for_workload lib i x g)) [
        | inl (g2, f) ↦
            (let (first_grown, first_edges) = refs_ok i 0 (trim_space x.name) x.depends_on g g2 f in
              let (grown, later) = edges_ok (suc i) ws g2 h (rw (add_edges_from, f) at e) in
              (
                IsGrown-trans g g2 h first_grown grown,
                λ w ref m r.
                    listed w ref m r (λ d. grown.edges (trim_space d.name) (trim_space x.name))
                      first_edges later,
              ))
        | inr (y, f) ↦ absurd (let q = (rw (add_edges_from, f) at e) in cc q)
      ]
    where
      listed :
          {g2 : G} (w : Workload) (ref : WorkloadRef)
          → Memᴰ w (x ∷ ws)
          → Memᴰ ref w.depends_on
          → ((d : WorkloadRef)
              → HasEdge g2 (trim_space d.name) (trim_space x.name)
              → HasEdge h (trim_space d.name) (trim_space x.name))
          → ((d : WorkloadRef)
              → Memᴰ d x.depends_on
              → HasEdge g2 (trim_space d.name) (trim_space x.name))
          → HasEdgesOf h ws
          → HasEdge h (trim_space ref.name) (trim_space w.name)
      listed w ref (Memᴰ.head p) r keep now later =
          rw p (keep ref (now ref (subst (λ (v : Workload). Memᴰ ref v.depends_on) p r)))
      listed w ref (Memᴰ.tail m) r keep now later = later w ref m r

  grown-IsIndexed :
      (all : List Workload) (g h : G) → IsGrown g h → IsIndexed all g → IsIndexed all h
  grown-IsIndexed all g h p q = record { at_node = λ x i e. q.at_node x i (sym (p.nodes x) ∙ e) }

  nodes_ok :
      (ws : List Workload) (g : G)
      → add_workload_dependency_nodes lib ws lib.new_graph ≡ ok g
      → IsIndexed ws g
  unfolding add_workload_dependency_nodes
  nodes_ok ws g e = elim (Result-cases (add_nodes_from lib 0 ws (lib.new_graph, lib.new_set))) [
    | inl (gs, f) ↦
        (let q : gs.0 ≡ g = (let r = (rw f at e) in cc r) in
          subst (IsIndexed ws) q (
            add_nodes_from-IsIndexed ws [] ws lib.new_graph lib.new_set gs refl
              (record {
                at_node = λ x i h. absurd (let n = laws.get_node-new_graph x in cc (n, h));
              })
              f))
    | inr (x, f) ↦ absurd (let q = (rw f at e) in cc q)
  ]

  graph_ok :
      (ws : List Workload) (g : G)
      → build_workload_dependency_graph lib ws ≡ ok g
      → IsIndexed ws g × HasEdgesOf g ws
  unfolding build_workload_dependency_graph
  graph_ok ws g e = elim (Result-cases (add_workload_dependency_nodes lib ws lib.new_graph)) [
    | inl (g2, f) ↦
        (let (grown, edges) = edges_ok 0 ws g2 g (rw f at e) in
          (grown-IsIndexed ws g2 g grown (nodes_ok ws g2 f), edges))
    | inr (x, f) ↦ absurd (let q = (rw f at e) in cc q)
  ]

  ids_cons :
      (all : List Workload) (g : G) (x : String) (ids : List String) (w : Workload)
      → node_workload lib all (lib.get_node g x) ≡ some w
      → workloads_of_ids lib all g (x ∷ ids) ≡ w ∷ workloads_of_ids lib all g ids
  unfolding workloads_of_ids
  ids_cons all g x ids w e = rw (workloads_of_ids, e) refl

  -- The workloads of the sorted nodes have the nodes' names.
  names_of_ids :
      (all : List Workload) (g : G) (ids : List String)
      → IsIndexed all g
      → ((x : String) → Memᴰ x ids → (i : ℕ) × (lib.get_node g x ≡ some i))
      → trimmed_names (workloads_of_ids lib all g ids) ≡ ids
  unfolding workloads_of_ids node_workload
  names_of_ids all g [] h found = refl
  names_of_ids all g (x ∷ ids) h found =
      let (i, at) = found x (Memᴰ.head refl) in
      let (w, here, named) = h.at_node x i at in
      let rest = names_of_ids all g ids h (λ y m. found y (Memᴰ.tail m)) in
      let index : node_workload lib all (lib.get_node g x) ≡ some w = rw at here in
      rw (ids_cons all g x ids w index) (cc (named, rest))

  sorted_Precedes :
      (all ws : List Workload) (g : G) (s : SortResult)
      → IsIndexed all g × HasEdgesOf g all
      → lib.topological_sort g ≡ s
      → sort_result lib all g s ≡ ok ws
      → (w : Workload) (ref : WorkloadRef) → Memᴰ w all
      → Memᴰ ref w.depends_on
      → Precedes (trim_space ref.name) (trim_space w.name) (trimmed_names ws)
  unfolding sort_result
  sorted_Precedes all ws g (sorted ids) built t e w ref m r =
      let same : workloads_of_ids lib all g ids ≡ ws = cc e in
      let names = names_of_ids all g ids built.0 (λ x k. laws.sorted-nodes g ids x t k) in
      rw (sym same) (
        rw names (
          laws.sorted-Precedes g ids (trim_space ref.name) (trim_space w.name) t
            (built.1 w ref m r)))
  sorted_Precedes all ws g cycle_detected built t e w ref m r = absurd cc
  sorted_Precedes all ws g failed built t e w ref m r = absurd cc

  list_Precedes :
      (all ws : List Workload)
      → order_list lib all ≡ ok ws
      → (w : Workload) (ref : WorkloadRef) → Memᴰ w all
      → Memᴰ ref w.depends_on
      → Precedes (trim_space ref.name) (trim_space w.name) (trimmed_names ws)
  unfolding order_list order_nonempty ordered_workloads
  list_Precedes [] ws e w ref m r = elim m [ ]
  list_Precedes (x ∷ all) ws e w ref m r =
      elim (Result-cases (build_workload_dependency_graph lib (x ∷ all))) [
        | inl (g, f) ↦
            sorted_Precedes (x ∷ all) ws g (lib.topological_sort g) (graph_ok (x ∷ all) g f) refl
              (rw f at e) w ref m r
        | inr (y, f) ↦ absurd (let q = (rw f at e) in cc q)
      ]

  -- Where the graph keeps its nodes and edges and its sort keeps to the edges, the order of an app's
  -- workloads has each workload behind every workload that it depends on.
  pub workloads_in_dependency_order-Precedes :
      (a : App) (ws : List Workload)
      → workloads_in_dependency_order lib a ≡ ok ws
      → (w : Workload) (ref : WorkloadRef) → Memᴰ w a.workloads
      → Memᴰ ref w.depends_on
      → Precedes (trim_space ref.name) (trim_space w.name) (trimmed_names ws)
  unfolding workloads_in_dependency_order
  workloads_in_dependency_order-Precedes a ws e w ref m r = list_Precedes a.workloads ws e w ref m r
