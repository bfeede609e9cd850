-- ===== src/Raft/Normalize.antt =====
-- internal/raftsvc/fsm.go: what an assignment and a volume binding become before they are stored.
pub mod Keys
use orch.Prelude.{◌||◌, Option, none, some, ◌==◌, if◌then◌else◌}
use orch.Prelude.Text.{trim_space}
use orch.Meta.{Assignment, Binding, assignment_key, binding_key}

trim_assignment : Assignment → Assignment
trim_assignment a = record a {
  key = trim_space a.key;
  metadata = record a.metadata {
    name = trim_space a.metadata.name;
    namespace = trim_space a.metadata.namespace;
  };
  workload = trim_space a.workload;
  node = trim_space a.node;
  address = trim_space a.address;
  status = trim_space a.status;
}

-- `none` is the result false
keyed_assignment : Assignment → Option Assignment
keyed_assignment a =
    if a.metadata.name == "" || a.workload == ""
    then none
    else (let key = if a.key == "" then assignment_key a.metadata a.workload else a.key in
        if key == "" then none else some (record a { key = key }))

unfoldable pub normalize_assignment : Assignment → Option Assignment
unfolding trim_assignment keyed_assignment
normalize_assignment a = keyed_assignment (trim_assignment a)

trim_binding : Binding → Binding
trim_binding b = record b {
  key = trim_space b.key;
  metadata = record b.metadata {
    name = trim_space b.metadata.name;
    namespace = trim_space b.metadata.namespace;
  };
  volume = trim_space b.volume;
  workload = trim_space b.workload;
  target = trim_space b.target;
  node = trim_space b.node;
  source = trim_space b.source;
  status = trim_space b.status;
}

keyed_binding : Binding → Option Binding
keyed_binding b =
    if b.metadata.name == "" || (b.workload == "" || b.volume == "")
    then none
    else (let key = if b.key == "" then binding_key b.metadata b.workload b.volume else b.key in
        if key == "" then none else some (record b { key = key }))

unfoldable pub normalize_volume_binding : Binding → Option Binding
unfolding trim_binding keyed_binding
normalize_volume_binding b = keyed_binding (trim_binding b)
