-- ===== src/Task/Operations.antt =====
-- internal/services/task/operations.go: the migration of an app's workloads to a node.
pub mod Migrated
use orch.Prelude.{ℕ, String, Bool, Option, none, some, List, [], ◌==◌, if◌then◌else◌}
use orch.Prelude.Text.{trim_space}
use orch.Deploy.Document.{Metadata, Workload, App}
use orch.Deploy.Libraries.{Libraries}
use orch.Task.Libraries.{RequestSet}
use orch.Task.Errors.{
  TaskError, Result, ok, err, metadata_name_required, raft_unavailable, app_not_found,
  target_node_required,
}
use orch.Task.Select.{select_operation_workloads}
use orch.Task.Moves.{AppOperationSummary, Cluster}
use orch.Task.Moves.Run.{move_app_workloads}

abbrev pub operation_migrate : String
operation_migrate = "migrate"

pub record AppOperationOptions : Type 0 where
  pub target_node : String
  pub workloads : List String

unfoldable pub normalize_operation_metadata : Metadata → Metadata
normalize_operation_metadata meta = record meta {
  name = trim_space meta.name;
  namespace = trim_space meta.namespace;
}

abbrev pub no_summary : AppOperationSummary
no_summary = record {
  operation = "";
  app = "";
  namespace = "";
  target_node = "";
  workloads = 0;
  moved = 0;
  status = "";
}

-- The read of the desired document, whose service may be nil.
desired_of : Metadata → Option (Metadata → Option App) → Result App
desired_of meta none = err raft_unavailable
desired_of meta (some read) = elim (read meta) [ some app ↦ ok app | none ↦ err app_not_found ]

unfoldable pub operation_app : Option (Metadata → Option App) → Metadata → Result App
unfolding desired_of
operation_app desired raw =
    let meta = normalize_operation_metadata raw in
    if meta.name == "" then err metadata_name_required else desired_of meta desired

module _ {W O S G : Type 0} (cluster : Cluster W) (set : RequestSet O)
    (sort : List String → List String) (lib : Libraries S G) (generation_of : App → String)
    (self : String) where
  migrate_selected :
      String → App → Result (List Workload) → W → AppOperationSummary × Option TaskError × W
  migrate_selected target app (err e) world = (no_summary, some e, world)
  migrate_selected target app (ok workloads) world =
      move_app_workloads cluster self (λ w. ok target) (generation_of app) app operation_migrate
        workloads world

  migrate_app : String → List String → Result App → W → AppOperationSummary × Option TaskError × W
  unfolding migrate_selected
  migrate_app target names (err e) world = (no_summary, some e, world)
  migrate_app target names (ok app) world =
      migrate_selected target app (select_operation_workloads set sort lib (some app) names) world

  -- `generation_of` is AppGeneration, and `desired` the read GetDesiredDeployApp.
  unfoldable pub submit_migrate :
      Option (Metadata → Option App)
      → Metadata
      → AppOperationOptions
      → W
      → AppOperationSummary × Option TaskError × W
  unfolding migrate_app
  submit_migrate desired meta opts world =
      let target = trim_space opts.target_node in
      if target == ""
      then (no_summary, some target_node_required, world)
      else migrate_app target opts.workloads (operation_app desired meta) world
