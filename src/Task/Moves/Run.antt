-- ===== src/Task/Moves/Run.antt =====
-- internal/services/task/operations_move.go: the start of the planned workloads, and the whole move.
use orch.Prelude.{
  ℕ, suc, String, Option, none, some, List, [], ◌∷◌, ◌⊎◌, inl, inr, ◌==◌, if◌then◌else◌,
}
use orch.Prelude.Text.{trim_space}
use orch.Prelude.Lists.{length}
use orch.Deploy.Document.{Workload, App}
use orch.Task.Restart.{assignment_status_running}
use orch.Task.Select.{assignment_status_failed}
use orch.Task.Errors.{TaskError, Result, runtime_failed}
use orch.Task.Moves.{
  AppOperationSummary, PlannedWorkloadMove, WorkloadRunResult, Cluster, operation_summary,
  plan_workload_moves, stop_move_plans, assignment_status_assigned, binding_status_bound,
  binding_status_failed,
}

or_running : String → String
or_running status = if status == "" then assignment_status_running else status

module _ {W : Type 0} (cluster : Cluster W) where
  abbrev pub announce : App → String → PlannedWorkloadMove → W → W
  announce app generation plan world =
      cluster.apply_workload_assignment app.metadata plan.workload plan.target
        assignment_status_assigned generation "" "" world

  unfoldable pub started_plan :
      App → String → PlannedWorkloadMove → (String ⊎ WorkloadRunResult) → W → Option TaskError × W
  unfolding or_running
  started_plan app generation plan (inl text) world = (
    some (runtime_failed text),
    cluster.apply_workload_volume_bindings app plan.workload plan.target binding_status_failed
        generation text
        (cluster.apply_workload_assignment app.metadata plan.workload plan.target
          assignment_status_failed generation text "" world),
  )
  started_plan app generation plan (inr r) world = (
    none,
    cluster.apply_workload_volume_bindings app plan.workload plan.target binding_status_bound
        generation ""
        (cluster.apply_workload_assignment app.metadata plan.workload plan.target
          (or_running (trim_space r.status)) generation "" r.address world),
  )

  -- A round of the loop of startMovePlans.
  unfoldable pub start_plan : App → String → PlannedWorkloadMove → W → Option TaskError × W
  start_plan app generation plan world =
      let (r, after) =
        cluster.run_workload_on_node app.metadata plan.workload plan.target
          (announce app generation plan world) in
      started_plan app generation plan r after

  unfoldable pub start_from :
      App → String → List PlannedWorkloadMove → ℕ → W → ℕ × Option TaskError × W
  start_from app generation [] moved world = (moved, none, world)
  start_from app generation (plan ∷ plans) moved world =
      let (failure, after) = start_plan app generation plan world in
      elim failure [
        | none ↦ start_from app generation plans (suc moved) after
        | some e ↦ (moved, some e, after)
      ]

  unfoldable pub start_move_plans :
      App → String → List PlannedWorkloadMove → W → ℕ × Option TaskError × W
  start_move_plans app generation plans world = start_from app generation plans 0 world

  unfoldable pub move_started :
      AppOperationSummary → ℕ → Option TaskError → W → AppOperationSummary × Option TaskError × W
  move_started summary moved none world = (record summary { moved = moved }, none, world)
  move_started summary moved (some e) world =
      (record summary { moved = moved; status = assignment_status_failed }, some e, world)

  unfoldable pub move_stopped :
      App
      → String
      → List PlannedWorkloadMove
      → AppOperationSummary
      → Option TaskError
      → W
      → AppOperationSummary × Option TaskError × W
  move_stopped app generation plans summary (some e) world =
      (record summary { status = assignment_status_failed }, some e, world)
  move_stopped app generation plans summary none world =
      let (moved, failure, after) = start_move_plans app generation plans world in
      move_started summary moved failure after

  unfoldable pub move_plans :
      App
      → String
      → String
      → List PlannedWorkloadMove
      → AppOperationSummary
      → W
      → AppOperationSummary × Option TaskError × W
  move_plans app operation generation [] summary world =
      (record summary { status = "unchanged" }, none, world)
  move_plans app operation generation (plan ∷ plans) summary world =
      let (failure, after) =
        stop_move_plans cluster app operation generation (plan ∷ plans) world in
      move_stopped app generation (plan ∷ plans) summary failure after

  unfoldable pub move_planned :
      App
      → String
      → String
      → List PlannedWorkloadMove
      → Option TaskError
      → AppOperationSummary
      → W
      → AppOperationSummary × Option TaskError × W
  move_planned app operation generation plans (some e) summary world =
      (record summary { status = assignment_status_failed }, some e, world)
  move_planned app operation generation plans none summary world =
      move_plans app operation generation plans summary world

  -- `target_for` answers for the state before the move; `generation` is AppGeneration(*app), and
  -- `self` the local node.
  unfoldable pub move_app_workloads :
      String
      → (Workload → Result String)
      → String
      → App
      → String
      → List Workload
      → W
      → AppOperationSummary × Option TaskError × W
  move_app_workloads self target_for generation app operation workloads world =
      let p = plan_workload_moves cluster self target_for app world workloads in
      move_planned app operation generation p.plans p.select_err
        (record (operation_summary app operation (length workloads)) {
          target_node = p.target_node;
        })
        world
