-- ===== src/Raft/Lookup.antt =====
-- internal/raftsvc/fsm_lookup.go and fsm_capacity.go: the reads. A read of the copy under the lock
-- is one step; what ranges over a map has no promise on its order.
use orch.Prelude.{ℕ, String, Option, List}
use mathlib.Core.List.{reverse}
use orch.Prelude.Text.{trim_space}
use orch.Prelude.Lists.{last?}
use orch.Prelude.GoMap
use orch.Deploy.Document.{Metadata, App}
use orch.Meta.{Assignment, Binding, deploy_app_map_key}
use orch.Raft.State.{Snapshot, DeployAppRevision, Fsm}
use orch.Raft.Revisions.{list_or_empty}

module _ {F : Type 0} where
  unfoldable pub get_deploy_app : Metadata → Fsm F → Option App
  get_deploy_app meta f = GoMap.lookup (deploy_app_map_key meta) f.state.deploy_apps

  unfoldable pub list_deploy_apps : Fsm F → List App
  list_deploy_apps f = GoMap.values f.state.deploy_apps

  -- The latest revision comes first.
  unfoldable pub list_deploy_app_revisions : Metadata → Fsm F → List DeployAppRevision
  list_deploy_app_revisions meta f =
      reverse (list_or_empty (GoMap.lookup (deploy_app_map_key meta) f.state.deploy_app_revisions))

  unfoldable pub previous_deploy_app : Metadata → Fsm F → Option DeployAppRevision
  previous_deploy_app meta f =
      last? (list_or_empty (GoMap.lookup (deploy_app_map_key meta) f.state.deploy_app_revisions))

  unfoldable pub list_assignments : Fsm F → List Assignment
  list_assignments f = GoMap.values f.state.assignments

  unfoldable pub get_assignment : String → Fsm F → Option Assignment
  get_assignment key f = GoMap.lookup (trim_space key) f.state.assignments

  unfoldable pub list_volume_bindings : Fsm F → List Binding
  list_volume_bindings f = GoMap.values f.state.volume_bindings

  unfoldable pub get_volume_binding : String → Fsm F → Option Binding
  get_volume_binding key f = GoMap.lookup (trim_space key) f.state.volume_bindings

  unfoldable pub get_node_capacity : String → Fsm F → Option (Snapshot F)
  get_node_capacity node_id f = GoMap.lookup node_id f.state.node_capacity

  unfoldable pub len_node_capacity : Fsm F → ℕ
  len_node_capacity f = GoMap.len f.state.node_capacity

  unfoldable pub node_capacity_ids : Fsm F → List String
  node_capacity_ids f = GoMap.keys f.state.node_capacity
