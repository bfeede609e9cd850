-- ===== src/Task/Errors.antt =====
-- The errors that internal/services/task returns; those of other components are arguments.
use orch.Prelude.{String, List}
use orch.Deploy.Errors.{DeployError}
use orch.Placement.Choose.{PlacementError}

pub data TaskError : Type 0 where
  order_workloads : DeployError → TaskError
  workloads_not_found : List String → TaskError
  no_failed_workloads : TaskError
  no_alternative_node : String → TaskError
  placement_failed : PlacementError → TaskError
  empty_target_node : String → TaskError
  target_node_required : TaskError
  metadata_name_required : TaskError
  raft_unavailable : TaskError
  app_not_found : TaskError
  runtime_failed : String → TaskError

pub data Result {ℓ} (A : Type ℓ) : Type ℓ where
  ok : A → Result A
  err : TaskError → Result A

infixl 5 ◌>>=◌
abbrev pub ◌>>=◌ {ℓ κ} : {A : Type ℓ} {B : Type κ} → Result A → (A → Result B) → Result B
ok a >>= f = f a
err e >>= f = err e
