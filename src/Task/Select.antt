-- ===== src/Task/Select.antt =====
-- internal/services/task/operations_select.go: the workloads that an operation is about.
pub mod Selected
use orch.Prelude.{
  String, Bool, true, false, not, Option, none, some, List, [], ◌∷◌, ◌==◌, if◌then◌else◌,
}
use orch.Prelude.Text.{trim_space}
use orch.Deploy.Document.{Metadata, Workload, App}
use orch.Deploy.Libraries.{Libraries}
use orch.Deploy.Dependencies
use orch.Deploy.Dependencies.{workloads_in_dependency_order}
use orch.Meta.{Assignment, assignment_key}
use orch.Raft.State.{Fsm}
use orch.Raft.Lookup.{get_assignment}
use orch.Task.Libraries.{RequestSet}
use orch.Task.Errors.{
  Result, ok, err, ◌>>=◌, order_workloads, workloads_not_found, no_failed_workloads,
}

abbrev pub assignment_status_failed : String
assignment_status_failed = "failed"

of_order : Dependencies.Result (List Workload) → Result (List Workload)
of_order (Dependencies.Result.ok ws) = ok ws
of_order (Dependencies.Result.err e) = err (order_workloads e)

module _ {O : Type 0} (set : RequestSet O) (sort : List String → List String) where
  add_request : String → O → O
  add_request raw wanted =
      let name = trim_space raw in if not (name == "") then set.add name wanted else wanted

  add_requests : List String → O → O
  unfolding add_request
  add_requests [] wanted = wanted
  add_requests (raw ∷ names) wanted = add_requests names (add_request raw wanted)

  unfoldable pub requested_workload_names : List String → O
  unfolding add_requests
  requested_workload_names names = add_requests names set.new_set

  -- The selected workloads, and what is left of the wanted names.
  unfoldable pub selected_operation_workloads : List Workload → O → List Workload × O
  selected_operation_workloads [] wanted = ([], wanted)
  selected_operation_workloads (w ∷ ordered) wanted =
      let (found, wanted') = set.remove (trim_space w.name) wanted in
      let (selected, left) = selected_operation_workloads ordered wanted' in
      (if not found then selected else w ∷ selected, left)

  unfoldable pub missing_workload_error : O → Result (List Workload)
  missing_workload_error wanted = err (workloads_not_found (sort (set.values wanted)))

  selection : List Workload × O → Result (List Workload)
  unfolding missing_workload_error
  selection (selected, left) =
      if not (set.is_empty left) then missing_workload_error left else ok selected

  select_from : List Workload → O → Result (List Workload)
  unfolding selection
  select_from ordered wanted =
      if set.is_empty wanted
      then ok ordered
      else selection (selected_operation_workloads ordered wanted)

  module _ {S G : Type 0} (lib : Libraries S G) where
    -- `none` is a nil app.
    unfoldable pub select_operation_workloads : Option App → List String → Result (List Workload)
    unfolding select_from of_order
    select_operation_workloads none names = ok []
    select_operation_workloads (some app) names = do
      ordered ← of_order (workloads_in_dependency_order lib app)
      select_from ordered (requested_workload_names names)

    module _ {F : Type 0} (raft : Fsm F) where
      is_failed : Option Assignment → Bool
      is_failed none = false
      is_failed (some a) = a.status == assignment_status_failed

      unfoldable pub failed_workloads : Metadata → List Workload → List Workload
      unfolding is_failed
      failed_workloads meta [] = []
      failed_workloads meta (w ∷ ws) =
          let rest = failed_workloads meta ws in
          if is_failed (get_assignment (assignment_key meta w.name) raft) then w ∷ rest else rest

      some_failed : List Workload → Result (List Workload)
      some_failed [] = err no_failed_workloads
      some_failed (w ∷ ws) = ok (w ∷ ws)

      unfoldable pub failover_workloads : App → List String → Result (List Workload)
      unfolding some_failed
      failover_workloads app names = do
        workloads ← select_operation_workloads (some app) names
        elim names [
          | [] ↦ some_failed (failed_workloads app.metadata workloads)
          | n ∷ ns ↦ ok workloads
        ]
