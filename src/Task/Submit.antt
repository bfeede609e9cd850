-- ===== src/Task/Submit.antt =====
-- SubmitDeploy of internal/services/task/deploy.go, with ApplyDeployApp and applyCommand of
-- internal/raftsvc/apply_app.go and service.go.
pub mod Ports
use orch.Prelude.{String, Bool, not, Option, none, some, List, if◌then◌else◌}
use orch.Deploy.Document.{App}
use orch.Deploy.Errors.{DeployError}
use orch.Deploy.Libraries.{Libraries}
use orch.Deploy.Validate.Apps
use orch.Raft.State.{Fsm}
use orch.Raft.Json.{Bytes, Json}
use orch.Raft.Fsm.{update, replay}
use orch.Task.Preflight.{HostPortClaim, PreflightError, preflight_deploy}

pub data SubmitError : Type 0 where
  nil_app : SubmitError
  invalid_app : DeployError → SubmitError
  no_raft : SubmitError
  preflight_failed : PreflightError → SubmitError
  not_marshalled : SubmitError
  not_proposed : SubmitError

pub data Result (A : Type 0) : Type 0 where
  ok : A → Result A
  err : SubmitError → Result A

-- What the Raft library does with a command: json.Marshal of the envelope, and whether the node leads
-- and the proposal is committed.
pub record Proposals : Type 0 where
  pub marshal : App → Option Bytes
  pub commits : Bytes → Bool

module _ {F : Type 0} (json : Json F) (raft_library : Proposals) where
  -- applyCommand; the state machine runs the committed command.
  unfoldable pub apply_command : Bytes → Fsm F → Result (Fsm F)
  apply_command cmd raft =
      if not (raft_library.commits cmd) then err not_proposed else ok (update json cmd raft).0

  marshalled : Option Bytes → Fsm F → Result (Fsm F)
  unfolding apply_command
  marshalled none raft = err not_marshalled
  marshalled (some cmd) raft = apply_command cmd raft

  -- ApplyDeployApp, on a service that is not nil
  unfoldable pub submit_to_raft : App → Fsm F → Result (Fsm F)
  unfolding marshalled
  submit_to_raft a raft = marshalled (raft_library.marshal a) raft

  module _ {S G : Type 0} (lib : Libraries S G) (available : HostPortClaim → Bool) where
    checked : Option PreflightError → App → Fsm F → List Bytes → Result (Fsm F)
    checked (some e) a raft between = err (preflight_failed e)
    checked none a raft between = submit_to_raft a (replay json between raft)

    validated : Option DeployError → App → Option (Fsm F) → List Bytes → Result (Fsm F)
    unfolding checked
    validated (some e) a raft between = err (invalid_app e)
    validated none a none between = err no_raft
    validated none a (some raft) between =
        checked (preflight_deploy available (some raft) a) a raft between

    -- `none` is a nil app, or a nil Raft service; the result holds the replicated state after it.
    -- Nothing is locked from the preflight to the commit: `raft` is the state that the preflight
    -- reads, and `between` has the log entries that are committed after it and before the app's.
    unfoldable pub submit_deploy : Option App → Option (Fsm F) → List Bytes → Result (Fsm F)
    unfolding validated
    submit_deploy none raft between = err nil_app
    submit_deploy (some a) raft between = validated (Apps.validate lib a) a raft between
