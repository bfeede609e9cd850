-- ===== src/Raft/State.antt =====
-- internal/raftsvc/fsm.go and revisions.go: the replicated state. `F` stands for Go's float64.
use orch.Prelude.{ℕ, ◌^◌, String, Bool, List}
use orch.Prelude.Int.{ℤ}
use orch.Prelude.GoMap.{GoMap}
use orch.Deploy.Document.{App}
use orch.Meta.{Assignment, Binding}

-- nodecapacity.Snapshot
pub record Snapshot (F : Type 0) : Type 0 where
  pub node_id : String
  pub updated_at : ℕ
  pub logical_cpu_cores : ℤ
  pub cpu_usage_percent : F
  pub memory_total_bytes : ℕ  -- uint64
  pub memory_avail_bytes : ℕ  -- uint64
  pub memory_used_pct : F

pub record DeployAppRevision : Type 0 where
  pub generation : String
  pub app : App

-- fsmSnapshotState
pub record State (F : Type 0) : Type 0 where
  pub applied_commands : ℕ  -- uint64
  pub node_capacity : GoMap (Snapshot F)
  pub deploy_apps : GoMap App
  pub deploy_app_revisions : GoMap (List DeployAppRevision)
  pub assignments : GoMap Assignment
  pub volume_bindings : GoMap Binding

-- schedulingFSM. Its notifier, once set, makes a send on a channel of capacity one that does not
-- block, so all that is left of the calls is whether a signal is pending.
pub record Fsm (F : Type 0) : Type 0 where
  pub state : State F
  pub notify_deploy_set : Bool
  pub signal_pending : Bool

abbrev pub uint64_mod : ℕ
uint64_mod = 2 ^ 64

abbrev pub max_deploy_app_revisions : ℕ
max_deploy_app_revisions = 10

-- The zero value of fsmSnapshotState.
module _ {F : Type 0} where
  abbrev pub empty_state : State F
  empty_state = record {
    applied_commands = 0;
    node_capacity = GoMap.nil;
    deploy_apps = GoMap.nil;
    deploy_app_revisions = GoMap.nil;
    assignments = GoMap.nil;
    volume_bindings = GoMap.nil;
  }
