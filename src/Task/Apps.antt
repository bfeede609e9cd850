-- ===== src/Task/Apps.antt =====
-- internal/services/task/apps.go: the view of an app, from its document and its assignments. The
-- service and its Raft service are not nil.
pub mod Counts
use orch.Prelude.{
  ℕ, suc, ◌+◌, String, Bool, true, false, not, ◌&&◌, ◌||◌, Option, none, some, List, [], ◌∷◌, ◌++◌,
  ◌==◌, if◌then◌else◌, eqb, ltb,
}
use orch.Prelude.Text.{trim_space}
use orch.Prelude.Lists.{length}
use orch.Deploy.Document.{Metadata, WorkloadKind, RuntimeKind, RunSpec, Workload, App}
use orch.Deploy.Libraries.{Libraries}
use orch.Deploy.Dependencies
use orch.Deploy.Dependencies.{workloads_in_dependency_order}
use orch.Meta.{Assignment, assignment_key}
use orch.Raft.State.{Fsm, DeployAppRevision}
use orch.Raft.Json.{Json}
use orch.Raft.Revisions.{app_generation}
use orch.Raft.Lookup.{
  get_assignment, list_deploy_app_revisions, previous_deploy_app, get_deploy_app,
}
use orch.Task.Restart.{assignment_status_running}
use orch.Task.Select.{assignment_status_failed}

abbrev pub assignment_status_stopped : String
assignment_status_stopped = "stopped"

abbrev pub app_status_pending : String
app_status_pending = "pending"

abbrev pub app_status_running : String
app_status_running = "running"

abbrev pub app_status_stopped : String
app_status_stopped = "stopped"

abbrev pub app_status_partial : String
app_status_partial = "partial"

abbrev pub app_status_failed : String
app_status_failed = "failed"

pub record AppWorkloadView : Type 0 where
  pub name : String
  pub kind : WorkloadKind
  pub runtime : RuntimeKind
  pub node : String
  pub artifact : String
  pub status : String
  pub generation : String
  pub error : String
  pub updated_at : ℕ

pub record AppView : Type 0 where
  pub metadata : Metadata
  pub status : String
  pub desired_generation : String
  pub observed_generation : String
  pub desired_workloads : ℕ
  pub running : ℕ
  pub stopped : ℕ
  pub failed : ℕ
  pub pending : ℕ
  pub last_transition_at : ℕ
  pub last_error : String
  pub revision_count : ℕ
  pub rollback_available : Bool
  pub previous_generation : String
  pub workloads : List AppWorkloadView

unfoldable pub count_workload_status : String → AppView → AppView
count_workload_status status view =
    if status == assignment_status_running
    then record view { running = suc view.running }
    else if status == assignment_status_stopped
    then record view { stopped = suc view.stopped }
    else if status == assignment_status_failed
    then record view { failed = suc view.failed }
    else record view { pending = suc view.pending }

later_transition : AppWorkloadView → AppView → AppView
later_transition item view =
    if ltb view.last_transition_at item.updated_at
    then record view { last_transition_at = item.updated_at }
    else view

first_failure : AppWorkloadView → AppView → AppView
first_failure item view =
    if not (item.error == "") && view.last_error == ""
    then record view { last_error = item.error }
    else view

unfoldable pub add_workload : AppWorkloadView → AppView → AppView
unfolding later_transition first_failure
add_workload item view = first_failure item (
    later_transition item
      (count_workload_status item.status (record view { workloads = view.workloads ++ item ∷ [] })))

unfoldable pub all_desired_workloads_observed : AppView → Bool
all_desired_workloads_observed view =
    if eqb view.desired_workloads 0 || not (eqb view.pending 0)
    then false
    else eqb (view.running + view.stopped + view.failed) view.desired_workloads

unfoldable pub aggregate_app_status : AppView → String
aggregate_app_status view =
    let total = view.desired_workloads in
    if eqb total 0
    then app_status_pending
    else if ltb 0 view.failed
    then app_status_failed
    else if eqb view.running total
    then app_status_running
    else if eqb view.stopped total
    then app_status_stopped
    else if ltb 0 view.running || ltb 0 view.stopped
    then app_status_partial
    else app_status_pending

first_command : List String → String
first_command [] = ""
first_command (c ∷ cs) = trim_space c

-- runconfig.ArtifactSummary; `coalesce_or_empty` is lo.CoalesceOrEmpty.
unfoldable pub artifact_summary : (List String → String) → RunSpec → String
unfolding first_command
artifact_summary coalesce_or_empty run = coalesce_or_empty (
    trim_space run.artifact.image
    ∷ trim_space run.artifact.path
    ∷ trim_space run.artifact.url
    ∷ first_command run.exec.command
    ∷ [])

-- The view of a workload without an assignment.
pending_view : (List String → String) → Workload → AppWorkloadView
pending_view coalesce_or_empty w = record {
  name = w.name;
  kind = w.kind;
  runtime = w.runtime;
  node = "";
  artifact = artifact_summary coalesce_or_empty w.run;
  status = app_status_pending;
  generation = "";
  error = "";
  updated_at = 0;
}

or_pending : String → String
or_pending status = if status == "" then app_status_pending else status

assigned_view : (List String → String) → Workload → Option Assignment → String → AppWorkloadView
unfolding pending_view or_pending
assigned_view coalesce_or_empty w none desired = pending_view coalesce_or_empty w
assigned_view coalesce_or_empty w (some a) desired =
    let observed = trim_space a.generation in
    let item = record (pending_view coalesce_or_empty w) {
      node = a.node;
      artifact =
          if not (a.artifact == "") then a.artifact else artifact_summary coalesce_or_empty w.run;
      generation = observed;
      updated_at = a.updated_at;
    } in
    if not (observed == desired)
    then item
    else record item { status = or_pending (trim_space a.status); error = a.error }

previous_summary : Option DeployAppRevision → AppView → AppView
previous_summary none view = view
previous_summary (some r) view = record view {
  rollback_available = true;
  previous_generation = trim_space r.generation;
}

module _ {F S G : Type 0} (json : Json F) (lib : Libraries S G)
    (coalesce_or_empty : List String → String) (raft : Fsm F) where
  unfoldable pub build_app_workload_view : Metadata → String → Workload → AppWorkloadView
  unfolding assigned_view
  build_app_workload_view meta desired w =
      assigned_view coalesce_or_empty w (get_assignment (assignment_key meta w.name) raft) desired

  ordered_or_listed : App → Dependencies.Result (List Workload) → List Workload
  ordered_or_listed app (Dependencies.Result.ok ws) = ws
  ordered_or_listed app (Dependencies.Result.err e) = app.workloads

  unfoldable pub app_workloads_for_view : App → List Workload
  unfolding ordered_or_listed
  app_workloads_for_view app = ordered_or_listed app (workloads_in_dependency_order lib app)

  unfoldable pub add_app_revision_summary : AppView → AppView
  unfolding previous_summary
  add_app_revision_summary view =
      previous_summary (previous_deploy_app view.metadata raft)
        (record view { revision_count = length (list_deploy_app_revisions view.metadata raft) })

  add_views : Metadata → String → List Workload → AppView → AppView
  add_views meta desired [] view = view
  add_views meta desired (w ∷ ws) view =
      add_views meta desired ws (add_workload (build_app_workload_view meta desired w) view)

  empty_view : App → String → List Workload → AppView
  empty_view app generation workloads = record {
    metadata = app.metadata;
    status = "";
    desired_generation = generation;
    observed_generation = "";
    desired_workloads = length workloads;
    running = 0;
    stopped = 0;
    failed = 0;
    pending = 0;
    last_transition_at = 0;
    last_error = "";
    revision_count = 0;
    rollback_available = false;
    previous_generation = "";
    workloads = [];
  }

  with_status : AppView → AppView
  with_status view = record view {
    status = aggregate_app_status view;
    observed_generation =
        if all_desired_workloads_observed view
        then view.desired_generation
        else view.observed_generation;
  }

  unfoldable pub build_app_view : App → AppView
  unfolding add_views empty_view with_status
  build_app_view app =
      let workloads = app_workloads_for_view app in
      let generation = app_generation json app in
      add_app_revision_summary (
        with_status
          (add_views app.metadata generation workloads (empty_view app generation workloads)))

  view_of : Option App → Option AppView
  view_of none = none
  view_of (some app) = some (build_app_view app)

  unfoldable pub get_app : Metadata → Option AppView
  unfolding view_of
  get_app meta = view_of (get_deploy_app meta raft)

  find_named : String → List Workload → Option Workload
  find_named name [] = none
  find_named name (w ∷ ws) =
      let rest = find_named name ws in if trim_space w.name == name then some w else rest

  workload_of_app : Option App → String → Option Workload
  unfolding find_named
  workload_of_app none name = none
  workload_of_app (some app) name = find_named (trim_space name) (app_workloads_for_view app)

  unfoldable pub desired_workload : Metadata → String → Option Workload
  unfolding workload_of_app
  desired_workload meta name = workload_of_app (get_deploy_app meta raft) name
