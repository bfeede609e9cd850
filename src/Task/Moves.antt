-- ===== src/Task/Moves.antt =====
-- internal/services/task/operations_move.go: the workloads of an app that go to other nodes. The
-- service is not nil; the reads of the replicated state and the calls that change it or a runtime
-- are the operations of `Cluster`.
pub mod Planned
pub mod Run
pub mod Outcome
use orch.Prelude.{
  ℕ, suc, String, Bool, true, false, not, ◌&&◌, ◌||◌, Option, none, some, List, [], ◌∷◌, ◌++◌, ◌⊎◌,
  inl, inr, ◌==◌, if◌then◌else◌,
}
use mathlib.Core.List.{reverse}
use orch.Prelude.Text.{trim_space}
use orch.Prelude.Lists.{length}
use orch.Deploy.Document.{Metadata, Workload, App}
use orch.Meta.{Assignment, namespace_or_default, assignment_key}
use orch.Task.Restart.{assignment_status_running}
use orch.Task.Select.{assignment_status_failed}
use orch.Task.Apps.{assignment_status_stopped}
use orch.Task.Errors.{TaskError, Result, ok, err, ◌>>=◌, empty_target_node, runtime_failed}

abbrev pub operation_failover : String
operation_failover = "failover"

abbrev pub assignment_status_assigned : String
assignment_status_assigned = "assigned"

abbrev pub binding_status_bound : String
binding_status_bound = "bound"

abbrev pub binding_status_failed : String
binding_status_failed = "failed"

abbrev pub binding_status_released : String
binding_status_released = "released"

pub record AppOperationSummary : Type 0 where
  pub operation : String
  pub app : String
  pub namespace : String
  pub target_node : String
  pub workloads : ℕ
  pub moved : ℕ
  pub status : String

pub record PlannedWorkloadMove : Type 0 where
  pub workload : Workload
  pub current : String
  pub target : String
  pub assigned : Bool

pub record WorkloadRunResult : Type 0 where
  pub status : String
  pub address : String

-- What the service calls: the assignments of the replicated state, the stop of a workload and its
-- run on a node, with the text of the error if it fails, and the writes of an assignment (node,
-- status, generation, error, address) and of the volumes' bindings (node, status, generation,
-- error).
pub record Cluster (W : Type 0) : Type 0 where
  pub get_workload_assignment : String → W → Option Assignment
  pub stop_workload : Metadata → Workload → W → Option String × W
  pub run_workload_on_node : Metadata → Workload → String → W → (String ⊎ WorkloadRunResult) × W
  pub apply_workload_assignment :
      Metadata → Workload → String → String → String → String → String → W → W
  pub apply_workload_volume_bindings : App → Workload → String → String → String → String → W → W

unfoldable pub operation_summary : App → String → ℕ → AppOperationSummary
operation_summary app operation workload_count = record {
  operation = operation;
  app = app.metadata.name;
  namespace = namespace_or_default app.metadata.namespace;
  target_node = "";
  workloads = workload_count;
  moved = 0;
  status = assignment_status_running;
}

unfoldable pub normalize_move_target : (Workload → Result String) → Workload → Result String
normalize_move_target target_for w = target_for w >>= λ raw.
    let target = trim_space raw in
    if target == "" then err (empty_target_node w.name) else ok target

-- The state of the loop of planWorkloadMoves.
pub record Planning : Type 0 where
  pub plans : List PlannedWorkloadMove
  pub target_node : String
  pub select_err : Option TaskError

unfoldable pub node_or_self : String → Option Assignment → String
node_or_self self none = self
node_or_self self (some a) = let node = trim_space a.node in if node == "" then self else node

abbrev pub is_assigned : Option Assignment → Bool
is_assigned none = false
is_assigned (some a) = true

unfoldable pub plan_one : String → Workload → String → Option Assignment → Planning → Planning
unfolding node_or_self
plan_one self w target found p =
    let current = node_or_self self found in
    if is_assigned found && current == target then p else record p {
      target_node = if p.target_node == "" then target else p.target_node;
      plans =
          p.plans
          ++ record {
            workload = w;
            current = current;
            target = target;
            assigned = is_assigned found;
          }
            ∷ [];
    }

module _ {W : Type 0} (cluster : Cluster W) where
  -- currentWorkloadAssignmentNode is `node_or_self` of this, without the default.
  abbrev pub assignment_of : Metadata → String → W → Option Assignment
  assignment_of meta name world = cluster.get_workload_assignment (assignment_key meta name) world

  status_of : Option Assignment → String
  status_of none = ""
  status_of (some a) = trim_space a.status

  unfoldable pub workload_assignment_status : Metadata → String → W → String
  unfolding status_of
  workload_assignment_status meta name world = status_of (assignment_of meta name world)

  unfoldable pub plan_from :
      String → (Workload → Result String) → Metadata → W → List Workload → Planning → Planning
  plan_from self target_for meta world [] p = p
  plan_from self target_for meta world (w ∷ ws) p = elim (normalize_move_target target_for w) [
    | ok target ↦
        plan_from self target_for meta world ws
          (plan_one self w target (assignment_of meta w.name world) p)
    | err e ↦ record p { select_err = some e }
  ]

  unfoldable pub plan_workload_moves :
      String → (Workload → Result String) → App → W → List Workload → Planning
  plan_workload_moves self target_for app world ws =
      plan_from self target_for app.metadata world ws
        (record { plans = []; target_node = ""; select_err = none })

  unfoldable pub skip_move_stop : Metadata → String → PlannedWorkloadMove → W → Bool
  skip_move_stop meta operation plan world =
      not plan.assigned
      || (operation == operation_failover
          && workload_assignment_status meta plan.workload.name world == assignment_status_failed)

  unfoldable pub stopped_plan :
      App → String → String → PlannedWorkloadMove → Option String → W → Option TaskError × W
  stopped_plan app operation generation plan none world = (
    none,
    cluster.apply_workload_volume_bindings app plan.workload plan.current binding_status_released
        generation ""
        (cluster.apply_workload_assignment app.metadata plan.workload plan.current
          assignment_status_stopped generation "" "" world),
  )
  stopped_plan app operation generation plan (some text) world = (
    if operation == operation_failover then none else some (runtime_failed text),
    cluster.apply_workload_volume_bindings app plan.workload plan.current binding_status_failed
        generation text
        (cluster.apply_workload_assignment app.metadata plan.workload plan.current
          assignment_status_failed generation text "" world),
  )

  -- A round of the loop of stopMovePlans; it goes on without an error.
  unfoldable pub stop_plan : App → String → String → PlannedWorkloadMove → W → Option TaskError × W
  stop_plan app operation generation plan world =
      if skip_move_stop app.metadata operation plan world
      then (none, world)
      else let (failure, after) = cluster.stop_workload app.metadata plan.workload world in
        stopped_plan app operation generation plan failure after

  unfoldable pub stop_each :
      App → String → String → List PlannedWorkloadMove → W → Option TaskError × W
  stop_each app operation generation [] world = (none, world)
  stop_each app operation generation (plan ∷ plans) world =
      let (failure, after) = stop_plan app operation generation plan world in
      elim failure [
        | none ↦ stop_each app operation generation plans after
        | some e ↦ (some e, after)
      ]

  unfoldable pub stop_move_plans :
      App → String → String → List PlannedWorkloadMove → W → Option TaskError × W
  stop_move_plans app operation generation plans world =
      stop_each app operation generation (reverse plans) world
