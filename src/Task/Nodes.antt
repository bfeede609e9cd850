-- ===== src/Task/Nodes.antt =====
-- internal/services/task/operations_nodes.go and deploy.go: the nodes on which a workload may run. The
-- strategy behind placement.Engine.Choose is internal/placement/v1alpha1.go.
pub mod Collected
pub mod Candidates
pub mod Failover
use orch.Prelude.{
  ℕ, String, Bool, not, ◌||◌, Option, none, some, List, [], ◌∷◌, ◌++◌, ◌==◌, if◌then◌else◌, eqb,
}
use orch.Prelude.Text.{trim_space}
use orch.Prelude.GoMap
use orch.Deploy.Document.{Scheduling, Workload}
use orch.Config.{ClusterConfig, node_url}
use orch.Placement.Libraries.{Float64, OrderedSet, SnapshotStore}
use orch.Placement.Choose
use orch.Placement.Choose.{choose_v1_alpha1}
use orch.Task.Libraries.{NodeSet}
use orch.Task.Errors.{Result, ok, err, placement_failed, no_alternative_node}

first_configured : ClusterConfig → String → List String → Option String
first_configured cluster self [] = none
first_configured cluster self (raw ∷ names) =
    let rest = first_configured cluster self names in
    let node_id = trim_space raw in
    if node_id == "" || node_id == trim_space self
    then rest
    else elim (node_url cluster node_id) [ none ↦ rest | some url ↦ some node_id ]

configured_of : ClusterConfig → Option Scheduling → String → Option String
unfolding first_configured
configured_of cluster none self = none
configured_of cluster (some sch) self = first_configured cluster self sch.preferred_nodes

-- preferredConfiguredNode; `none` is the result false.
unfoldable pub preferred_configured_node : ClusterConfig → Workload → String → Option String
unfolding configured_of
preferred_configured_node cluster w self = configured_of cluster w.scheduling self

-- An error of placement falls back to a preferred node that has a URL.
or_configured : Option String → Choose.PlacementError → Result String
or_configured none e = err (placement_failed e)
or_configured (some node_id) e = ok node_id

scheduling_or_zero : Option Scheduling → Scheduling
scheduling_or_zero none = record {
  stateful = Bool.false;
  allow_leader = Bool.false;
  preferred_nodes = [];
}
scheduling_or_zero (some sch) = sch

unfoldable pub failover_candidate : Workload → List String → Workload
unfolding scheduling_or_zero
failover_candidate w candidates = record w {
  scheduling = some (record (scheduling_or_zero w.scheduling) { preferred_nodes = candidates });
}

module _ {S : Type 0} (set : NodeSet S) where
  -- One round of the loop of addNodeCandidate, on the list and the set that it fills.
  add_one : String → String → List String × S → List String × S
  add_one current raw (out, seen) =
      let node_id = trim_space raw in
      if node_id == "" || node_id == current
      then (out, seen)
      else if set.contains seen node_id
      then (out, seen)
      else (out ++ node_id ∷ [], set.add node_id seen)

  unfoldable pub add_node_candidate : String → List String → List String × S → List String × S
  unfolding add_one
  add_node_candidate current [] acc = acc
  add_node_candidate current (raw ∷ node_ids) acc =
      add_node_candidate current node_ids (add_one current raw acc)

  unfoldable pub sorted_configured_node_ids :
      (List String → List String) → ClusterConfig → List String
  sorted_configured_node_ids sort cluster = sort (GoMap.keys cluster.nodes)

  unfoldable pub alternative_node_candidates :
      (List String → List String) → ClusterConfig → List String → String → String → List String
  unfolding add_node_candidate sorted_configured_node_ids
  alternative_node_candidates sort cluster catalog_ids local raw_current =
      let current = trim_space raw_current in
      (add_node_candidate current (local ∷ []) (
        add_node_candidate current (sorted_configured_node_ids sort cluster)
          (add_node_candidate current catalog_ids ([], set.new_set)))).0

module _ {F O : Type 0} (fl : Float64 F) (ordered : OrderedSet O) (cluster : ClusterConfig)
    (catalog : SnapshotStore F) where
  placed : Workload → String → Choose.Result String → Result String
  unfolding or_configured
  placed w self (Choose.Result.ok chosen) = ok chosen
  placed w self (Choose.Result.err e) = or_configured (preferred_configured_node cluster w self) e

  unfoldable pub choose_workload_node : Workload → String → Result String
  unfolding placed
  choose_workload_node w self = placed w self (choose_v1_alpha1 fl ordered w (some catalog) self)

  choose_among : String → Workload → List String → Result String
  choose_among local w [] = err (no_alternative_node w.name)
  choose_among local w (n ∷ ns) = choose_workload_node (failover_candidate w (n ∷ ns)) local

  module _ {S : Type 0} (set : NodeSet S) (sort : List String → List String) (local : String) where
    -- The refresh of the catalog before the call has a result that is only logged; `catalog` is
    -- the catalog after it.
    unfoldable pub choose_failover_node : Workload → String → Result String
    unfolding choose_among
    choose_failover_node w current =
        choose_among local w
          (alternative_node_candidates set sort cluster catalog.node_ids local current)
