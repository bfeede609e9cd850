-- ===== src/Raft/Fsm/Outcome.antt =====
-- What a log entry does (internal/raftsvc/fsm.go): it is refused, or what it names is found after it.
use orch.Prelude.{none, some, ◌≡◌, ◌⊎◌}
use orch.Prelude.Text.{trim_space}
use orch.Deploy.Document.{Metadata, App}
use orch.Meta.{Assignment, Binding}
use orch.Raft.State.{Snapshot, Fsm}
use orch.Raft.Json.{Bytes, Json}
use orch.Raft.Lookup.{get_deploy_app, get_assignment, get_volume_binding, get_node_capacity}
use orch.Raft.Fsm.{
  cmd_upsert_node_capacity, cmd_upsert_deploy_app, cmd_delete_deploy_app,
  cmd_upsert_workload_assignment, cmd_upsert_volume_binding, update,
}
use orch.Raft.Fsm.Refusals
use orch.Raft.Fsm.Refusals.{IsRefused}
use orch.Raft.Fsm.Reads.{IsCommand}

module _ {F : Type 0} (json : Json F) where
  -- The entry decodes and names what it must name, and what a read finds afterwards.
  pub data IsStored (cmd : Bytes) (after : Fsm F) : Type 0 where
    node :
        (n : Snapshot F)
        → IsCommand json cmd cmd_upsert_node_capacity
        → json.decode_node cmd ≡ some n
        → get_node_capacity (trim_space n.node_id) after ≡ some n
        → IsStored cmd after
    app :
        (a : App)
        → IsCommand json cmd cmd_upsert_deploy_app
        → json.decode_app cmd ≡ some a
        → get_deploy_app a.metadata after ≡ some a
        → IsStored cmd after
    deleted :
        (m : Metadata)
        → IsCommand json cmd cmd_delete_deploy_app
        → json.decode_metadata cmd ≡ some m
        → get_deploy_app m after ≡ none
        → IsStored cmd after
    assignment :
        (a b : Assignment)
        → IsCommand json cmd cmd_upsert_workload_assignment
        → json.decode_assignment cmd ≡ some a
        → get_assignment b.key after ≡ some b
        → b.metadata.name ≡ trim_space a.metadata.name
        → b.workload ≡ trim_space a.workload
        → b.status ≡ trim_space a.status
        → b.node ≡ trim_space a.node
        → IsStored cmd after
    binding :
        (a b : Binding)
        → IsCommand json cmd cmd_upsert_volume_binding
        → json.decode_binding cmd ≡ some a
        → get_volume_binding b.key after ≡ some b
        → b.metadata.name ≡ trim_space a.metadata.name
        → b.workload ≡ trim_space a.workload
        → b.volume ≡ trim_space a.volume
        → b.status ≡ trim_space a.status
        → IsStored cmd after

  module _ (cmd : Bytes) (f : Fsm F) where
    abbrev Decided : Type 0
    Decided = IsRefused json cmd ⊎ IsStored cmd (update json cmd f).0
