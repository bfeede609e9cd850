-- ===== src/Raft/Samples.antt =====
-- A concrete machine for internal/raftsvc/fsm.go, in a toy encoding: the first
-- byte is the command's type, the second tells its payloads apart.
mod Runs
mod Snapshots
use orch.Prelude.{
  ℕ, String, Bool, true, false, Option, none, some, List, [], ◌∷◌, ◌≡◌, ◌≢◌, refl, inl, inr, arith,
  eq_iff, ◌==◌, if◌then◌else◌, eqb,
}
use orch.Prelude.Int.{ℤ, pos, pos_part}
use orch.Prelude.Text.{trim_space}
use orch.Prelude.GoMap
use orch.Prelude.GoMap.{GoMap}
use orch.Deploy.Document.{Metadata, Volume, App}
use orch.Meta.{
  Assignment, Binding, namespace_or_default, deploy_app_map_key, assignment_key, binding_key,
}
use orch.Raft.State.{Snapshot, DeployAppRevision, State, Fsm, empty_state}
use orch.Raft.Json.{Bytes, Json}
use orch.Raft.Fsm.{
  cmd_upsert_node_capacity, cmd_upsert_deploy_app, cmd_delete_deploy_app,
  cmd_upsert_workload_assignment, cmd_upsert_volume_binding, update, replay, save_snapshot,
  recover_from_snapshot,
}
use orch.Raft.Lookup.{
  get_deploy_app, list_deploy_app_revisions, previous_deploy_app, get_assignment,
  get_volume_binding,
}

abbrev pub shop : Metadata
shop = record { name = "shop"; namespace = ""; labels = GoMap.nil; annotations = GoMap.nil }

abbrev pub blog : Metadata
blog = record { name = "blog"; namespace = "web"; labels = GoMap.nil; annotations = GoMap.nil }

abbrev pub nobody : Metadata
nobody = record { name = "  "; namespace = "web"; labels = GoMap.nil; annotations = GoMap.nil }

-- Documents that differ in the size of a volume.
abbrev pub app_of_size : Metadata → ℕ → App
app_of_size m n = record {
  api_version = "orch/v1alpha1";
  kind = "App";
  metadata = m;
  workloads = [];
  configs = [];
  secrets = [];
  volumes = (record { name = "data"; persistent = true; size_bytes = pos n }) ∷ [];
  ingresses = [];
}

abbrev pub node_a : Snapshot ℕ
node_a = record {
  node_id = " node-a ";
  updated_at = 7;
  logical_cpu_cores = pos 4;
  cpu_usage_percent = 10;
  memory_total_bytes = 1000;
  memory_avail_bytes = 600;
  memory_used_pct = 40;
}

abbrev pub shop_web : Assignment
shop_web = record {
  key = "";
  metadata = shop;
  workload = " web ";
  node = "node-a";
  address = "10.0.0.1";
  runtime = "docker";
  artifact = "nginx:1";
  status = "running";
  generation = "gen-0";
  error = "";
  updated_at = 9;
}

abbrev pub shop_data : Binding
shop_data = record {
  key = "";
  metadata = shop;
  volume = "data";
  workload = "web";
  target = "/data";
  node = "node-a";
  runtime = "docker";
  source = "/var/data";
  persistent = true;
  size_bytes = pos 5;
  status = "bound";
  generation = "gen-0";
  error = "";
  updated_at = 9;
}

abbrev pub type_of_byte : ℕ → Option String
type_of_byte t =
    if eqb t 0
    then some cmd_upsert_node_capacity
    else if eqb t 1
    then some cmd_upsert_deploy_app
    else if eqb t 2
    then some cmd_delete_deploy_app
    else if eqb t 3
    then some cmd_upsert_workload_assignment
    else if eqb t 4
    then some cmd_upsert_volume_binding
    else none

abbrev pub command_type : Bytes → Option String
command_type [] = none
command_type (t ∷ bs) = type_of_byte t

abbrev pub second_byte {ℓ} : {A : Type ℓ} → (ℕ → A) → Bytes → Option A
second_byte f [] = none
second_byte f (t ∷ []) = none
second_byte f (t ∷ n ∷ bs) = some (f n)

abbrev pub volume_bytes : List Volume → Option Bytes
volume_bytes [] = none
volume_bytes (v ∷ vs) = some (pos_part v.size_bytes ∷ [])

abbrev pub digest_text : Bytes → String
digest_text [] = "gen"
digest_text (n ∷ bs) = if eqb n 0 then "gen-0" else if eqb n 1 then "gen-1" else "gen-2"

-- Only a state without tables has a text here: its count.
abbrev pub count_text : State ℕ → Option Bytes
count_text s = elim s.node_capacity [
  | GoMap.made l ↦ none
  | GoMap.nil ↦ elim s.deploy_apps [
    | GoMap.made l ↦ none
    | GoMap.nil ↦ elim s.deploy_app_revisions [
      | GoMap.made l ↦ none
      | GoMap.nil ↦ elim s.assignments [
        | GoMap.made l ↦ none
        | GoMap.nil ↦ elim s.volume_bindings [
          | GoMap.made l ↦ none
          | GoMap.nil ↦ some (s.applied_commands ∷ [])
        ]
      ]
    ]
  ]
]

abbrev pub state_of_text : Bytes → Option (State ℕ)
state_of_text [] = none
state_of_text (n ∷ bs) = some (record empty_state { applied_commands = n })

abbrev pub toy_json : Json ℕ
toy_json = record {
  decode_command_type = command_type;
  decode_node = second_byte (λ n. node_a);
  decode_app = second_byte (app_of_size shop);
  decode_metadata = second_byte (λ n. if eqb n 0 then shop else nobody);
  decode_assignment = second_byte (λ n. shop_web);
  decode_binding = second_byte (λ n. shop_data);
  decode_state = state_of_text;
  encode_state = count_text;
  encode_app = λ a. volume_bytes a.volumes;
  digest = digest_text;
}

abbrev pub new_fsm : Fsm ℕ
new_fsm = record { state = empty_state; notify_deploy_set = true; signal_pending = false }

abbrev pub fsm_with_shop : Fsm ℕ
fsm_with_shop = record new_fsm {
  state = record empty_state {
    deploy_apps = GoMap.made (("default/shop", app_of_size shop 0) ∷ []);
  };
}
