-- ===== src/Raft/Fsm/WellFormed.antt =====
-- The invariant of the replicated tables (internal/raftsvc/fsm.go) and that every command keeps it.
use orch.Raft.Fsm.Induction.{IsKept, replay_kept}
use orch.Prelude.{
  String, Option, none, some, List, ◌≡◌, ◌≢◌, refl, inl, inr, arith, ◌==◌, eq_iff, Bool-cases,
  Option-cases,
}
use orch.Prelude.Text.{trim_space}
use orch.Prelude.Trim.{trim_space-IsTrimmed}
use orch.Prelude.GoMap
use orch.Prelude.GoMap.{GoMap, ForEach, insert-ForEach, delete-ForEach, nil-ForEach}
use orch.Deploy.Document.{Metadata, App}
use orch.Meta.{Assignment, Binding, deploy_app_map_key}
use orch.Raft.Normalize.Keys.{IsKey, normalize_assignment-IsKey, normalize_volume_binding-IsKey}
use orch.Raft.State.{empty_state, Snapshot, DeployAppRevision, State, Fsm}
use orch.Raft.Json.{Bytes, Json}
use orch.Raft.Normalize.{normalize_assignment, normalize_volume_binding}
use orch.Raft.Revisions.{app_generation}
use orch.Raft.Revisions.History.{IsHistory, AreHistories, append_deploy_app_revision-AreHistories}
use orch.Raft.Fsm.{
  count_command, notify_deploy_changed, store_node, delete_app, store_assignment, store_binding,
  revise, store_app, apply_node_capacity, apply_deploy_app, apply_delete_deploy_app,
  apply_workload_assignment, apply_volume_binding, replay,
}

module _ {F : Type 0} where
  abbrev pub NodeAt : String → Snapshot F → Type 0
  NodeAt k n = IsKey k × (trim_space n.node_id ≡ k)

abbrev pub AppAt : String → App → Type 0
AppAt k a = (deploy_app_map_key a.metadata ≡ k) × (trim_space a.metadata.name ≢ "")

abbrev pub AssignmentAt : String → Assignment → Type 0
AssignmentAt k a = IsKey k × (a.key ≡ k)

abbrev pub BindingAt : String → Binding → Type 0
BindingAt k b = IsKey k × (b.key ≡ k)

module _ {F : Type 0} (json : Json F) where
  pub record IsWellFormed (s : State F) : Type 0 where
    pub nodes : ForEach NodeAt s.node_capacity
    pub apps : ForEach AppAt s.deploy_apps
    pub histories : AreHistories json s.deploy_app_revisions
    pub assignments : ForEach AssignmentAt s.assignments
    pub bindings : ForEach BindingAt s.volume_bindings

  store_node-IsWellFormed :
      (n : Snapshot F) (f : Fsm F) → IsWellFormed f.state → IsWellFormed (store_node n f).state
  unfolding store_node
  store_node-IsWellFormed n f h = elim (Bool-cases (trim_space n.node_id == "")) [
    | inl blank ↦ rw blank h
    | inr set ↦ rw set (record {
      nodes =
          insert-ForEach NodeAt (trim_space n.node_id) n f.state.node_capacity
            (
              record {
                trimmed = trim_space-IsTrimmed n.node_id;
                not_nil = λ p. ground (arith, eq_iff (trim_space n.node_id) "");
              },
              refl,
            )
            h.nodes;
      apps = h.apps;
      histories = h.histories;
      assignments = h.assignments;
      bindings = h.bindings;
    })
  ]

  revise-AreHistories :
      (key : String) (o : Option App) (app : App) (table : GoMap (List DeployAppRevision))
      → ((current : App) → o ≡ some current → deploy_app_map_key current.metadata ≡ key)
      → AreHistories json table
      → AreHistories json (revise json key o app table)
  unfolding revise
  revise-AreHistories key none app table keyed h = h
  revise-AreHistories key (some current) app table keyed h =
      elim (Bool-cases (app_generation json current == app_generation json app)) [
        | inl same ↦ rw same h
        | inr new ↦
            rw new (
              append_deploy_app_revision-AreHistories json key current table (keyed current refl) h)
      ]

  store_app-IsWellFormed :
      (a : App) (f : Fsm F) → IsWellFormed f.state → IsWellFormed (store_app json a f).state
  unfolding store_app notify_deploy_changed
  store_app-IsWellFormed a f h = elim (Bool-cases (trim_space a.metadata.name == "")) [
    | inl blank ↦ rw blank h
    | inr set ↦ rw set (record {
      nodes = h.nodes;
      apps =
          insert-ForEach AppAt (deploy_app_map_key a.metadata) a f.state.deploy_apps
            (refl, λ p. ground (arith, eq_iff (trim_space a.metadata.name) "")) h.apps;
      histories =
          revise-AreHistories (deploy_app_map_key a.metadata)
            (GoMap.lookup (deploy_app_map_key a.metadata) f.state.deploy_apps) a
            f.state.deploy_app_revisions
            (λ current e. (h.apps.at_key (deploy_app_map_key a.metadata) current e).0) h.histories;
      assignments = h.assignments;
      bindings = h.bindings;
    })
  ]

  delete_app-IsWellFormed :
      (m : Metadata) (f : Fsm F) → IsWellFormed f.state → IsWellFormed (delete_app m f).state
  unfolding delete_app notify_deploy_changed
  delete_app-IsWellFormed m f h = elim (Bool-cases (trim_space m.name == "")) [
    | inl blank ↦ rw blank h
    | inr set ↦ rw set (record {
      nodes = h.nodes;
      apps = delete-ForEach AppAt (deploy_app_map_key m) f.state.deploy_apps h.apps;
      histories =
          delete-ForEach (IsHistory json) (deploy_app_map_key m) f.state.deploy_app_revisions
            h.histories;
      assignments = h.assignments;
      bindings = h.bindings;
    })
  ]

  store_assignment-IsWellFormed :
      (a : Assignment) (f : Fsm F)
      → IsWellFormed f.state
      → IsWellFormed (store_assignment (normalize_assignment a) f).state
  unfolding store_assignment
  store_assignment-IsWellFormed a f h = elim (Option-cases (normalize_assignment a)) [
    | inl e ↦ rw e h
    | inr (b, e) ↦ rw e (record {
      nodes = h.nodes;
      apps = h.apps;
      histories = h.histories;
      assignments =
          insert-ForEach AssignmentAt b.key b f.state.assignments
            (normalize_assignment-IsKey a b e, refl) h.assignments;
      bindings = h.bindings;
    })
  ]

  store_binding-IsWellFormed :
      (a : Binding) (f : Fsm F)
      → IsWellFormed f.state
      → IsWellFormed (store_binding (normalize_volume_binding a) f).state
  unfolding store_binding
  store_binding-IsWellFormed a f h = elim (Option-cases (normalize_volume_binding a)) [
    | inl e ↦ rw e h
    | inr (b, e) ↦ rw e (record {
      nodes = h.nodes;
      apps = h.apps;
      histories = h.histories;
      assignments = h.assignments;
      bindings =
          insert-ForEach BindingAt b.key b f.state.volume_bindings
            (normalize_volume_binding-IsKey a b e, refl) h.bindings;
    })
  ]

  module _ (cmd : Bytes) (f : Fsm F) (h : IsWellFormed f.state) where
    apply_node_capacity-IsWellFormed : IsWellFormed (apply_node_capacity json cmd f).state
    unfolding apply_node_capacity
    apply_node_capacity-IsWellFormed = elim (Option-cases (json.decode_node cmd)) [
      | inl e ↦ rw e h
      | inr (n, e) ↦ rw e (store_node-IsWellFormed n f h)
    ]

    apply_deploy_app-IsWellFormed : IsWellFormed (apply_deploy_app json cmd f).state
    unfolding apply_deploy_app
    apply_deploy_app-IsWellFormed = elim (Option-cases (json.decode_app cmd)) [
      | inl e ↦ rw e h
      | inr (a, e) ↦ rw e (store_app-IsWellFormed a f h)
    ]

    apply_delete_deploy_app-IsWellFormed : IsWellFormed (apply_delete_deploy_app json cmd f).state
    unfolding apply_delete_deploy_app
    apply_delete_deploy_app-IsWellFormed = elim (Option-cases (json.decode_metadata cmd)) [
      | inl e ↦ rw e h
      | inr (m, e) ↦ rw e (delete_app-IsWellFormed m f h)
    ]

    apply_workload_assignment-IsWellFormed :
        IsWellFormed (apply_workload_assignment json cmd f).state
    unfolding apply_workload_assignment
    apply_workload_assignment-IsWellFormed = elim (Option-cases (json.decode_assignment cmd)) [
      | inl e ↦ rw e h
      | inr (a, e) ↦ rw e (store_assignment-IsWellFormed a f h)
    ]

    apply_volume_binding-IsWellFormed : IsWellFormed (apply_volume_binding json cmd f).state
    unfolding apply_volume_binding
    apply_volume_binding-IsWellFormed = elim (Option-cases (json.decode_binding cmd)) [
      | inl e ↦ rw e h
      | inr (b, e) ↦ rw e (store_binding-IsWellFormed b f h)
    ]

  count_command-IsWellFormed :
      (f : Fsm F) → IsWellFormed f.state → IsWellFormed (count_command f).state
  unfolding count_command
  count_command-IsWellFormed f h = record {
    nodes = h.nodes;
    apps = h.apps;
    histories = h.histories;
    assignments = h.assignments;
    bindings = h.bindings;
  }

  IsWellFormed-kept : IsKept json (λ f. IsWellFormed f.state)
  IsWellFormed-kept = record {
    node = apply_node_capacity-IsWellFormed;
    app = apply_deploy_app-IsWellFormed;
    delete = apply_delete_deploy_app-IsWellFormed;
    assignment = apply_workload_assignment-IsWellFormed;
    binding = apply_volume_binding-IsWellFormed;
  }

  -- Whatever the log holds, replaying it from a well-formed state ends in a well-formed state: each
  -- table files its records under their own keys, and each history has at most ten revisions, of one
  -- app, each of its own document's generation and no two neighbours of one generation.
  pub replay-IsWellFormed :
      (log : List Bytes) (f : Fsm F) → IsWellFormed f.state → IsWellFormed (replay json log f).state
  replay-IsWellFormed =
      replay_kept json (λ f. IsWellFormed f.state) IsWellFormed-kept count_command-IsWellFormed

  -- The state of a new machine.
  pub empty_state-IsWellFormed : IsWellFormed empty_state
  empty_state-IsWellFormed = record {
    nodes = nil-ForEach NodeAt;
    apps = nil-ForEach AppAt;
    histories = nil-ForEach (IsHistory json);
    assignments = nil-ForEach AssignmentAt;
    bindings = nil-ForEach BindingAt;
  }
