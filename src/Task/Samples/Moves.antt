-- ===== src/Task/Samples/Moves.antt =====
-- A move of two workloads, in a world that counts the workloads that run.
use orch.Prelude.{ℕ, suc, none, List, [], ◌∷◌, ◌≡◌, refl, inr}
use orch.Prelude.Text.{trim_space}
use orch.Deploy.Document.{Workload}
use orch.Deploy.Samples.{workload_named, shop_app}
use orch.Task.Errors.{ok}
use orch.Task.Moves
use orch.Task.Moves.{Cluster, PlannedWorkloadMove, normalize_move_target}
use orch.Task.Moves.Run
use orch.Task.Moves.Run.{move_app_workloads}
use orch.Task.Moves.Outcome.{Ends, move_app_workloads_lem}

abbrev pub counting : Cluster ℕ
counting = record {
  get_workload_assignment = λ key world. none;
  stop_workload = λ meta w world. (none, world);
  run_workload_on_node =
      λ meta w node world. (inr (record { status = ""; address = "10.0.0.2" }), suc world);
  apply_workload_assignment = λ meta w node status generation error address world. world;
  apply_workload_volume_bindings = λ app w node status generation error world. world;
}

abbrev moving : List Workload
moving = workload_named "web" [] ∷ workload_named "db" [] ∷ []

moved_both :
    (move_app_workloads counting "a" (λ w. ok " b") "gen-1" shop_app "migrate" moving 0).2 ≡ 2
unfolding move_app_workloads Run.move_planned Moves.plan_workload_moves Moves.plan_from
    normalize_move_target trim_space Moves.plan_one Run.move_plans Run.move_stopped
    Moves.stop_move_plans Moves.stop_each Moves.stop_plan Moves.skip_move_stop Run.move_started
    Run.start_move_plans Run.start_from Run.start_plan Run.started_plan
moved_both = refl

move_app_workloads_lem_example :
    Ends counting "a"
      (λ w. ok " b")
      "gen-1"
      shop_app
      "migrate"
      moving
      0
      (move_app_workloads counting "a" (λ w. ok " b") "gen-1" shop_app "migrate" moving 0)
move_app_workloads_lem_example =
    move_app_workloads_lem counting "a" (λ w. ok " b") "gen-1" shop_app "migrate" moving 0
