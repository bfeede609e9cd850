-- ===== src/Task/Samples.antt =====
-- Runs of internal/services/task: failures of a workload of the sample document.
mod Apps
mod Background
mod Moves
pub mod Nodes
mod Operations
mod Submit
use orch.Prelude.{ℕ, ◌≤◌, true, some, List, [], ◌∷◌, ◌≡◌, refl, arith, eq_iff}
use orch.Prelude.Int.{pos}
use orch.Prelude.Text.{trim_space}
use orch.Prelude.GoMap
use orch.Deploy.Document.{Workload}
use orch.Deploy.Samples.{workload_named}
use orch.Deploy.Validate.Lifecycle.{rollback_on_failure_enabled}
use orch.Meta.{namespace_or_default, deploy_app_map_key}
use orch.Raft.State.{DeployAppRevision, Fsm, empty_state}
use orch.Raft.Revisions.{app_generation}
use orch.Raft.Lookup.{get_deploy_app, previous_deploy_app}
use orch.Raft.Samples.{shop, app_of_size, toy_json, new_fsm}
use orch.Task.Restart.{workload_max_restarts}
use orch.Task.Restart.Limit.{Failure, granted, granted_le_limit}
use orch.Task.Rollback
use orch.Task.Rollback.{Guards, maybe_auto_rollback_deploy_failure}
use orch.Task.Rollback.Once.{Report, rollbacks, rollbacks_le_one}
use orch.Task.Rollback.Suppressed.{rollbacks-after_rollback}
use orch.Task.Rollback.Target.{IsTarget, maybe_auto_rollback_deploy_failure-IsTarget}

abbrev web : Workload
web = workload_named "web" []

abbrev web_failure : Failure
web_failure = record { workload = web; assignment_key = "default/shop/web"; generation = "gen-1" }

abbrev db_failure : Failure
db_failure = record {
  workload = workload_named "db" [];
  assignment_key = "default/shop/db";
  generation = "gen-1";
}

abbrev failures : List Failure
failures = web_failure ∷ web_failure ∷ db_failure ∷ web_failure ∷ web_failure ∷ web_failure ∷ []

web_limit : workload_max_restarts web ≡ pos 3
unfolding workload_max_restarts
web_limit = refl

db_limit : workload_max_restarts (workload_named "db" []) ≡ pos 3
unfolding workload_max_restarts
db_limit = refl

granted_le_limit_example : granted "default/shop/web@gen-1" failures GoMap.GoMap.nil ≤ 3
unfolding GoMap.lookup
granted_le_limit_example =
    granted_le_limit "default/shop/web@gen-1" 3 failures GoMap.GoMap.nil (omega arith) (omega arith)
      (
        λ k. web_limit,
        (λ k. web_limit, (λ k. db_limit, (λ k. web_limit, (λ k. web_limit, (λ k. web_limit, tt))))),
      )
      refl

abbrev no_guards : Guards
no_guards = record { attempts = GoMap.GoMap.nil; suppressed = GoMap.GoMap.nil }

abbrev before : DeployAppRevision
before = record { generation = "gen-0"; app = app_of_size shop 0 }

abbrev upgraded : Fsm ℕ
upgraded = record new_fsm {
  state = record empty_state {
    deploy_apps = GoMap.GoMap.made (("default/shop", app_of_size shop 1) ∷ []);
    deploy_app_revisions = GoMap.GoMap.made (("default/shop", before ∷ []) ∷ []);
  };
}

abbrev report : Report toy_json
report = record {
  preflight = λ a. true;
  raft = some upgraded;
  app = some (app_of_size shop 1);
  workload = web;
  generation = " gen-1";
}

rollbacks_le_one_example :
    rollbacks toy_json "default/shop@gen-1" (report ∷ report ∷ []) no_guards ≤ 1
rollbacks_le_one_example =
    rollbacks_le_one toy_json "default/shop@gen-1" (report ∷ report ∷ []) no_guards

maybe_auto_rollback_deploy_failure-IsTarget_example :
    (r : DeployAppRevision) × IsTarget toy_json upgraded
      (app_of_size shop 1)
      web
      " gen-1"
      no_guards
      r
    × (r.app ≡ app_of_size shop 0)
    × (true ≡ true)
unfolding maybe_auto_rollback_deploy_failure Rollback.auto_rollback_revision
    Rollback.auto_rollback_configured Rollback.auto_rollback_is_suppressed
    Rollback.auto_rollback_guard_key Rollback.auto_rollback_desired_generation_current
    Rollback.previous_auto_rollback_revision Rollback.mark_auto_rollback_attempt
    rollback_on_failure_enabled get_deploy_app previous_deploy_app deploy_app_map_key
    namespace_or_default trim_space app_generation GoMap.lookup GoMap.insert
maybe_auto_rollback_deploy_failure-IsTarget_example =
    maybe_auto_rollback_deploy_failure-IsTarget toy_json (λ a. true) upgraded (app_of_size shop 1)
      web " gen-1" no_guards (app_of_size shop 0) refl

rollbacks-after_rollback_example :
    rollbacks toy_json "default/shop@gen-0"
      (report ∷ report ∷ [])
      (maybe_auto_rollback_deploy_failure toy_json
        (λ a. true)
        (some upgraded)
        (some (app_of_size shop 1))
        web
        " gen-1"
        no_guards).1
    ≡ 0
unfolding Rollback.auto_rollback_revision Rollback.auto_rollback_configured
    Rollback.auto_rollback_is_suppressed Rollback.auto_rollback_guard_key
    Rollback.auto_rollback_desired_generation_current Rollback.previous_auto_rollback_revision
    Rollback.mark_auto_rollback_attempt rollback_on_failure_enabled get_deploy_app
    previous_deploy_app deploy_app_map_key namespace_or_default trim_space app_generation
    GoMap.lookup GoMap.insert
rollbacks-after_rollback_example =
    rollbacks-after_rollback toy_json (λ a. true) (some upgraded) (app_of_size shop 1) web " gen-1"
      no_guards before (report ∷ report ∷ []) (ground (arith, eq_iff "default/shop@gen-0" "")) refl
      refl
