-- ===== src/Raft/Fsm.antt =====
-- internal/raftsvc/fsm.go and fsm_snapshot.go: the commands of the replicated state machine. A command
-- that does not decode, or that fails a guard, leaves the tables as they are.
pub mod Induction
pub mod WellFormed
pub mod Reads
pub mod Histories
pub mod Recovery
pub mod Refusals
pub mod Outcome
use orch.Prelude.{ℕ, ◌+◌, ◌%◌, String, ◌||◌, Option, none, some, List, [], ◌∷◌, ◌==◌, if◌then◌else◌}
use orch.Prelude.Text.{trim_space}
use orch.Prelude.GoMap
use orch.Prelude.GoMap.{GoMap}
use orch.Deploy.Document.{Metadata, App}
use orch.Meta.{Assignment, Binding, deploy_app_map_key}
use orch.Raft.State.{Snapshot, DeployAppRevision, State, Fsm, uint64_mod, empty_state}
use orch.Raft.Json.{Bytes, Json}
use orch.Raft.Normalize.{normalize_assignment, normalize_volume_binding}
use orch.Raft.Revisions.{app_generation, append_deploy_app_revision}

abbrev pub cmd_upsert_node_capacity : String
cmd_upsert_node_capacity = "upsert_node_capacity"

abbrev pub cmd_upsert_deploy_app : String
cmd_upsert_deploy_app = "upsert_deploy_app"

abbrev pub cmd_delete_deploy_app : String
cmd_delete_deploy_app = "delete_deploy_app"

abbrev pub cmd_upsert_workload_assignment : String
cmd_upsert_workload_assignment = "upsert_workload_assignment"

abbrev pub cmd_upsert_volume_binding : String
cmd_upsert_volume_binding = "upsert_volume_binding"

module _ {F : Type 0} where
  unfoldable pub notify_deploy_changed : Fsm F → Fsm F
  notify_deploy_changed f = record f { signal_pending = f.signal_pending || f.notify_deploy_set }

  unfoldable pub count_command : Fsm F → Fsm F
  count_command f = record f {
    state = record f.state { applied_commands = (f.state.applied_commands + 1) % uint64_mod };
  }

  store_node : Snapshot F → Fsm F → Fsm F
  store_node node f =
      let id = trim_space node.node_id in
      if id == "" then f else record f {
        state = record f.state { node_capacity = GoMap.insert id node f.state.node_capacity };
      }

  delete_app : Metadata → Fsm F → Fsm F
  unfolding notify_deploy_changed
  delete_app meta f =
      let key = deploy_app_map_key meta in
      if trim_space meta.name == ""
      then f
      else notify_deploy_changed (record f {
        state = record f.state {
          deploy_apps = GoMap.delete key f.state.deploy_apps;
          deploy_app_revisions = GoMap.delete key f.state.deploy_app_revisions;
        };
      })

  store_assignment : Option Assignment → Fsm F → Fsm F
  store_assignment none f = f
  store_assignment (some a) f = record f {
    state = record f.state { assignments = GoMap.insert a.key a f.state.assignments };
  }

  store_binding : Option Binding → Fsm F → Fsm F
  store_binding none f = f
  store_binding (some b) f = record f {
    state = record f.state { volume_bindings = GoMap.insert b.key b f.state.volume_bindings };
  }

module _ {F : Type 0} (json : Json F) where
  pub revise :
      String → Option App → App → GoMap (List DeployAppRevision) → GoMap (List DeployAppRevision)
  revise key none app table = table
  revise key (some current) app table =
      if app_generation json current == app_generation json app
      then table
      else append_deploy_app_revision json key current table

  store_app : App → Fsm F → Fsm F
  unfolding revise notify_deploy_changed
  store_app app f =
      let key = deploy_app_map_key app.metadata in
      if trim_space app.metadata.name == ""
      then f
      else notify_deploy_changed (record f {
        state = record f.state {
          deploy_app_revisions =
              revise key (GoMap.lookup key f.state.deploy_apps) app f.state.deploy_app_revisions;
          deploy_apps = GoMap.insert key app f.state.deploy_apps;
        };
      })

  -- f unless the payload decodes
  abbrev on_decoded {ℓ} : {A : Type ℓ} → (A → Fsm F → Fsm F) → Option A → Fsm F → Fsm F
  on_decoded store none f = f
  on_decoded store (some a) f = store a f

  unfoldable pub apply_node_capacity : Bytes → Fsm F → Fsm F
  unfolding store_node
  apply_node_capacity payload f = on_decoded store_node (json.decode_node payload) f

  unfoldable pub apply_deploy_app : Bytes → Fsm F → Fsm F
  unfolding store_app
  apply_deploy_app payload f = on_decoded store_app (json.decode_app payload) f

  unfoldable pub apply_delete_deploy_app : Bytes → Fsm F → Fsm F
  unfolding delete_app
  apply_delete_deploy_app payload f = on_decoded delete_app (json.decode_metadata payload) f

  unfoldable pub apply_workload_assignment : Bytes → Fsm F → Fsm F
  unfolding store_assignment
  apply_workload_assignment payload f =
      on_decoded (λ a. store_assignment (normalize_assignment a)) (json.decode_assignment payload) f

  unfoldable pub apply_volume_binding : Bytes → Fsm F → Fsm F
  unfolding store_binding
  apply_volume_binding payload f =
      on_decoded (λ b. store_binding (normalize_volume_binding b)) (json.decode_binding payload) f

  pub dispatch : Option String → Bytes → Fsm F → Fsm F
  dispatch none payload f = f
  dispatch (some command_type) payload f =
      if command_type == cmd_upsert_node_capacity
      then apply_node_capacity payload f
      else if command_type == cmd_upsert_deploy_app
      then apply_deploy_app payload f
      else if command_type == cmd_delete_deploy_app
      then apply_delete_deploy_app payload f
      else if command_type == cmd_upsert_workload_assignment
      then apply_workload_assignment payload f
      else if command_type == cmd_upsert_volume_binding
      then apply_volume_binding payload f
      else f

  unfoldable pub apply_payload_locked : Bytes → Fsm F → Fsm F
  unfolding dispatch
  apply_payload_locked payload f = dispatch (json.decode_command_type payload) payload f

  unfoldable pub payload_or_skip : Bytes → Fsm F → Fsm F
  payload_or_skip [] f = f
  payload_or_skip (b ∷ bs) f = apply_payload_locked (b ∷ bs) f

  -- Update: the state, and the value of the result.
  unfoldable pub update : Bytes → Fsm F → Fsm F × ℕ
  unfolding payload_or_skip count_command
  update cmd f = let f' = payload_or_skip cmd (count_command f) in (f', f'.state.applied_commands)

  -- The path that skips the Raft log.
  unfoldable pub apply_command_payload : Bytes → Fsm F → Fsm F
  unfolding payload_or_skip count_command
  apply_command_payload cmd f = payload_or_skip cmd (count_command f)

  -- The log, entry by entry.
  unfoldable pub replay : List Bytes → Fsm F → Fsm F
  replay [] f = f
  replay (cmd ∷ log) f = replay log (update cmd f).0

  -- SaveSnapshot; `none` is the error of json.Marshal. The lock makes it one step.
  unfoldable pub save_snapshot : Fsm F → Option Bytes
  save_snapshot f = json.encode_state f.state

  restored : Option (State F) → Fsm F → Option (Fsm F)
  restored none f = none
  restored (some st) f = some (record f { state = st })

  -- RecoverFromSnapshot, on the bytes that the reader yields; `none` is the error of json.Unmarshal.
  unfoldable pub recover_from_snapshot : Bytes → Fsm F → Option (Fsm F)
  unfolding restored
  recover_from_snapshot [] f = restored (some empty_state) f
  recover_from_snapshot (b ∷ bs) f = restored (json.decode_state (b ∷ bs)) f
