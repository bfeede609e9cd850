-- ===== src/Task/Moves/Outcome.antt =====
-- How a move ends: nothing to move, every planned workload run, or an error.
use orch.Prelude.{
  ℕ, suc, ◌+◌, String, Option, none, some, List, [], ◌∷◌, ◌≡◌, ◌≢◌, refl, ◌⊎◌, inl, inr, arith,
}
use orch.Prelude.Lists.{length, All}
use orch.Deploy.Document.{Workload, App}
use orch.Task.Restart.{assignment_status_running}
use orch.Task.Select.{assignment_status_failed}
use orch.Task.Errors.{TaskError, Result}
use orch.Task.Moves.{
  AppOperationSummary, PlannedWorkloadMove, WorkloadRunResult, Cluster, operation_summary,
  plan_workload_moves, stop_move_plans,
}
use orch.Task.Moves.Run
use orch.Task.Moves.Run.{announce, start_from, start_move_plans, move_app_workloads}
use orch.Task.Moves.Planned.{AtTarget, Settled, plan_workload_moves_lem}

module _ {W : Type 0} (cluster : Cluster W) (app : App) (generation : String) where
  -- Every plan was run on its target, one after the other.
  pub data Ran : List PlannedWorkloadMove → W → W → Type 0 where
    all_ran : (world : W) → Ran [] world world
    ran :
        (plan : PlannedWorkloadMove) (plans : List PlannedWorkloadMove) (r : WorkloadRunResult)
        (world after : W)
        → (cluster.run_workload_on_node app.metadata plan.workload plan.target
            (announce cluster app generation plan world)).0
          ≡ inr r
        → Ran plans
            (Run.started_plan cluster app generation plan
              (inr r)
              (cluster.run_workload_on_node app.metadata plan.workload plan.target
                (announce cluster app generation plan world)).1).1
            after
        → Ran (plan ∷ plans) world after

  record IsStarted (plans : List PlannedWorkloadMove) (moved : ℕ) (world : W)
      (out : ℕ × Option TaskError × W) : Type 0 where
    done : out.1 ≡ none → (out.0 ≡ moved + length plans) × Ran plans world out.2

  start_plan-IsStarted :
      (plan : PlannedWorkloadMove) (plans : List PlannedWorkloadMove) (moved : ℕ) (world : W)
      (r : String ⊎ WorkloadRunResult)
      → (cluster.run_workload_on_node app.metadata plan.workload plan.target
          (announce cluster app generation plan world)).0
        ≡ r
      → ((m : ℕ) (w : W) → IsStarted plans m w (start_from cluster app generation plans m w))
      → IsStarted (plan ∷ plans) moved world (
          let x =
            Run.started_plan cluster app generation plan r
              (cluster.run_workload_on_node app.metadata plan.workload plan.target
                (announce cluster app generation plan world)).1 in
          elim x.0 [
            | none ↦ start_from cluster app generation plans (suc moved) x.1
            | some e ↦ (moved, some e, x.1)
          ])
  unfolding Run.started_plan
  start_plan-IsStarted plan plans moved world (inl text) e ih = record { done = λ h. absurd (cc h) }
  start_plan-IsStarted plan plans moved world (inr r) e ih = record {
    done = λ h.
        let (count, rest) = (ih (suc moved) _).done h in
        (omega (arith, count), Ran.ran plan plans r world _ e rest);
  }

  start_from-IsStarted :
      (plans : List PlannedWorkloadMove) (moved : ℕ) (world : W)
      → IsStarted plans moved world (start_from cluster app generation plans moved world)
  unfolding start_from Run.start_plan
  start_from-IsStarted [] moved world = record { done = λ h. (omega arith, Ran.all_ran world) }
  start_from-IsStarted (plan ∷ plans) moved world =
      start_plan-IsStarted plan plans moved world _ refl (start_from-IsStarted plans)

  abbrev pub Out : Type 0
  Out = AppOperationSummary × Option TaskError × W

  pub record IsUnchanged (world : W) (out : Out) : Type 0 where
    pub status : out.0.status ≡ "unchanged"
    pub error : out.1 ≡ none
    pub same : out.2 ≡ world

  -- The workloads were stopped, then all the plans ran.
  pub record IsCompleted (operation : String) (plans : List PlannedWorkloadMove) (world : W)
      (out : Out) : Type 0 where
    pub status : out.0.status ≡ assignment_status_running
    pub error : out.1 ≡ none
    pub moved : out.0.moved ≡ length plans
    pub stopped : (stop_move_plans cluster app operation generation plans world).0 ≡ none
    pub runs : Ran plans (stop_move_plans cluster app operation generation plans world).1 out.2

  pub record IsFailed (out : Out) : Type 0 where
    pub status : out.0.status ≡ assignment_status_failed
    pub error : out.1 ≢ none

  move_started-ends :
      (operation : String) (plans : List PlannedWorkloadMove) (summary : AppOperationSummary)
      (world : W) (out : ℕ × Option TaskError × W)
      → summary.status ≡ assignment_status_running
      → (stop_move_plans cluster app operation generation plans world).0 ≡ none
      → IsStarted plans 0 (stop_move_plans cluster app operation generation plans world).1 out
      → IsCompleted operation plans world (Run.move_started cluster summary out.0 out.1 out.2)
        ⊎ IsFailed (Run.move_started cluster summary out.0 out.1 out.2)
  unfolding Run.move_started
  move_started-ends operation plans summary world (moved, none, after) s e i =
      let (count, runs) = i.done refl in
      inl (record {
        status = s;
        error = refl;
        moved = omega (arith, count);
        stopped = e;
        runs = runs;
      })
  move_started-ends operation plans summary world (moved, some x, after) s e i =
      inr (record { status = refl; error = λ p. absurd (cc p) })

  move_stopped-ends :
      (operation : String) (plans : List PlannedWorkloadMove) (summary : AppOperationSummary)
      (world : W) (failure : Option TaskError)
      → (stop_move_plans cluster app operation generation plans world).0 ≡ failure
      → summary.status ≡ assignment_status_running
      → IsCompleted operation plans world (
          Run.move_stopped cluster app generation plans summary failure
            (stop_move_plans cluster app operation generation plans world).1)
        ⊎ IsFailed (
            Run.move_stopped cluster app generation plans summary failure
              (stop_move_plans cluster app operation generation plans world).1)
  unfolding Run.move_stopped start_move_plans
  move_stopped-ends operation plans summary world (some x) e s =
      inr (record { status = refl; error = λ p. absurd (cc p) })
  move_stopped-ends operation plans summary world none e s =
      move_started-ends operation plans summary world _ s e (
        start_from-IsStarted plans 0
          (stop_move_plans cluster app operation generation plans world).1)

module _ {W : Type 0} (cluster : Cluster W) (self : String) (target_for : Workload → Result String)
    (generation : String) (app : App) (operation : String) (ws : List Workload) (world : W) where
  abbrev pub plans : List PlannedWorkloadMove
  plans = (plan_workload_moves cluster self target_for app world ws).plans

  abbrev pub Ends : AppOperationSummary × Option TaskError × W → Type 0
  Ends out =
      (IsUnchanged cluster app generation world out
        × All (AtTarget cluster self target_for app.metadata world) ws)
      ⊎ ((IsCompleted cluster app generation operation plans world out
            × All (Settled cluster self target_for app.metadata world plans) ws)
          ⊎ IsFailed cluster app generation out)

  all_there :
      (xs : List Workload)
      → All (Settled cluster self target_for app.metadata world []) xs
      → All (AtTarget cluster self target_for app.metadata world) xs
  all_there [] h = tt
  all_there (x ∷ xs) (inl a, rest) = (a, all_there xs rest)
  all_there (x ∷ xs) (inr (plan, m, same), rest) = absurd (elim m [ ])

  move_planned-Ends :
      (summary : AppOperationSummary) (moves : List PlannedWorkloadMove)
      (failure : Option TaskError)
      → summary.status ≡ assignment_status_running
      → plans ≡ moves
      → (failure ≡ none → All (Settled cluster self target_for app.metadata world moves) ws)
      → Ends (Run.move_planned cluster app operation generation moves failure summary world)
  unfolding Run.move_planned Run.move_plans
  move_planned-Ends summary moves (some x) s e h =
      inr (inr (record { status = refl; error = λ p. absurd (cc p) }))
  move_planned-Ends summary [] none s e h =
      inl (record { status = refl; error = refl; same = refl }, all_there ws (h refl))
  move_planned-Ends summary (plan ∷ more) none s e h =
      rw e
        (elim (move_stopped-ends cluster app generation operation (plan ∷ more) summary world _ refl
          s) [ inl done ↦ inr (inl (done, h refl)) | inr failed ↦ inr (inr failed) ])

  -- A move of an app's workloads ends in one of three ways: unchanged, with no effect, when every
  -- workload is assigned where it belongs; completed, when the stop of the sources gave no error,
  -- then every plan ran on its target, all were counted, and every workload is planned or is
  -- assigned where it belongs; or failed, with an error.
  pub move_app_workloads_lem :
      Ends (move_app_workloads cluster self target_for generation app operation ws world)
  unfolding move_app_workloads operation_summary
  move_app_workloads_lem =
      let l = plan_workload_moves_lem cluster self target_for app world ws in
      move_planned-Ends _ plans
        (plan_workload_moves cluster self target_for app world ws).select_err refl refl l.1
