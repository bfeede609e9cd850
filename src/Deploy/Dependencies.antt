-- ===== src/Deploy/Dependencies.antt =====
-- internal/deploy/v1alpha1/dependency.go and dependency_conditions.go: the dependency order.
pub mod Order
use orch.Prelude.{
  ℕ, suc, String, Bool, not, ◌||◌, Option, none, some, List, [], ◌∷◌, ◌==◌, if◌then◌else◌,
}
use orch.Prelude.Text.{trim_space}
use orch.Prelude.Lists.{get_elem?}
use orch.Deploy.Document.{DependencyCondition, WorkloadRef, WorkloadKind, Workload, App}
use orch.Deploy.Constants.{
  condition_started, condition_ready, condition_completed, kind_job, kind_cron,
}
use orch.Deploy.Errors.{
  DeployError, workload_name_required, duplicate_workload_name, unknown_dependency, edge_refused,
  depends_on_cycle, graph_failed,
}
use orch.Deploy.Libraries.{Libraries, SortResult, sorted, cycle_detected, failed}

unfoldable pub normalize_dependency_condition : DependencyCondition → DependencyCondition
normalize_dependency_condition condition =
    let c = trim_space condition in if c == "" then condition_ready else c

unfoldable pub effective_condition : WorkloadRef → DependencyCondition
unfolding normalize_dependency_condition
effective_condition r = normalize_dependency_condition r.condition

unfoldable pub is_dependency_condition : DependencyCondition → Bool
unfolding normalize_dependency_condition
is_dependency_condition condition =
    let c = normalize_dependency_condition condition in
    c == condition_started || (c == condition_ready || c == condition_completed)

unfoldable pub workload_kind_can_complete : WorkloadKind → Bool
workload_kind_can_complete kind = kind == kind_job || kind == kind_cron

-- A value or the error that the source returns.
pub data Result {ℓ} (A : Type ℓ) : Type ℓ where
  ok : A → Result A
  err : DeployError → Result A

infixl 5 ◌>>=◌
abbrev pub ◌>>=◌ {ℓ κ} : {A : Type ℓ} {B : Type κ} → Result A → (A → Result B) → Result B
ok a >>= f = f a
err e >>= f = err e

module _ {S G : Type 0} (lib : Libraries S G) where
  -- The graph and the set are changed in place; the pair is their state after the call.
  unfoldable pub add_workload_dependency_node : ℕ → Workload → G × S → Result (G × S)
  add_workload_dependency_node i w (g, seen) =
      let name = trim_space w.name in
      if name == ""
      then err (workload_name_required i)
      else if lib.contains seen name
      then err (duplicate_workload_name name)
      else ok (lib.add_node name i g, lib.add name seen)

  unfoldable pub add_nodes_from : ℕ → List Workload → G × S → Result (G × S)
  unfolding add_workload_dependency_node
  add_nodes_from i [] gs = ok gs
  add_nodes_from i (w ∷ ws) gs = do
    gs' ← add_workload_dependency_node i w gs
    add_nodes_from (suc i) ws gs'

  unfoldable pub add_workload_dependency_nodes : List Workload → G → Result G
  unfolding add_nodes_from
  add_workload_dependency_nodes ws g = do gs ← add_nodes_from 0 ws (g, lib.new_set); ok gs.0

  unfoldable pub edge_result : Option G → ℕ → ℕ → Result G
  edge_result none i j = err (edge_refused i j)
  edge_result (some g) i j = ok g

  unfoldable pub add_workload_dependency_edge : ℕ → ℕ → String → String → G → Result G
  unfolding edge_result
  add_workload_dependency_edge i j dep_name workload_name g =
      if not (lib.has_node g dep_name)
      then err (unknown_dependency i j dep_name)
      else edge_result (lib.add_edge dep_name workload_name g) i j

  unfoldable pub add_refs_from : ℕ → ℕ → String → List WorkloadRef → G → Result G
  unfolding add_workload_dependency_edge
  add_refs_from i j workload_name [] g = ok g
  add_refs_from i j workload_name (ref ∷ refs) g = do
    g' ← add_workload_dependency_edge i j (trim_space ref.name) workload_name g
    add_refs_from i (suc j) workload_name refs g'

  unfoldable pub add_workload_dependency_edges_for_workload : ℕ → Workload → G → Result G
  unfolding add_refs_from
  add_workload_dependency_edges_for_workload i w g =
      add_refs_from i 0 (trim_space w.name) w.depends_on g

  unfoldable pub add_edges_from : ℕ → List Workload → G → Result G
  unfolding add_workload_dependency_edges_for_workload
  add_edges_from i [] g = ok g
  add_edges_from i (w ∷ ws) g = do
    g' ← add_workload_dependency_edges_for_workload i w g
    add_edges_from (suc i) ws g'

  unfoldable pub build_workload_dependency_graph : List Workload → Result G
  unfolding add_workload_dependency_nodes add_edges_from
  build_workload_dependency_graph ws = do
    g ← add_workload_dependency_nodes ws lib.new_graph
    add_edges_from 0 ws g

  unfoldable pub node_workload : List Workload → Option ℕ → Option Workload
  node_workload ws none = none
  node_workload ws (some i) = get_elem? ws i

  -- Nodes and indices that are not found are passed over.
  unfoldable pub workloads_of_ids : List Workload → G → List String → List Workload
  unfolding node_workload
  workloads_of_ids ws g [] = []
  workloads_of_ids ws g (id ∷ ids) =
      let rest = workloads_of_ids ws g ids in
      elim (node_workload ws (lib.get_node g id)) [ none ↦ rest | some w ↦ w ∷ rest ]

  unfoldable pub sort_result : List Workload → G → SortResult → Result (List Workload)
  unfolding workloads_of_ids
  sort_result ws g (sorted ids) = ok (workloads_of_ids ws g ids)
  sort_result ws g cycle_detected = err depends_on_cycle
  sort_result ws g failed = err graph_failed

  unfoldable pub ordered_workloads : List Workload → G → Result (List Workload)
  unfolding sort_result
  ordered_workloads ws g = sort_result ws g (lib.topological_sort g)

  unfoldable pub order_nonempty : List Workload → Result (List Workload)
  unfolding build_workload_dependency_graph ordered_workloads
  order_nonempty ws = do g ← build_workload_dependency_graph ws; ordered_workloads ws g

  unfoldable pub order_list : List Workload → Result (List Workload)
  unfolding order_nonempty
  order_list [] = ok []
  order_list (w ∷ ws) = order_nonempty (w ∷ ws)

  unfoldable pub workloads_in_dependency_order : App → Result (List Workload)
  unfolding order_list
  workloads_in_dependency_order a = order_list a.workloads
