-- ===== src/Raft/Fsm/Recovery.antt =====
-- A snapshot stands for the log before it (internal/raftsvc/fsm_snapshot.go). JSON writes an empty
-- map as a missing field, so what comes back is the state up to nil and empty maps, also within the
-- documents and the metadata.
use orch.Raft.Fsm.Histories.{revise-MapAlike}
use orch.Raft.Fsm.Induction.{IsBisimilar, replay_bisimilar}
use orch.Prelude.{
  Option, none, some, List, [], ◌∷◌, ◌≡◌, ◌≢◌, refl, inl, inr, ◌==◌, Bool-cases, Option-cases,
}
use orch.Prelude.Text.{trim_space}
use orch.Prelude.GoMap.{SameReads, insert-SameReads}
use orch.Prelude.Alike.{ListAlike, MapAlike, insert-MapAlike, delete-MapAlike}
use orch.Deploy.Document.{Metadata, App}
use orch.Meta.{Assignment, Binding, deploy_app_map_key}
use orch.Raft.State.{Snapshot, State, Fsm}
use orch.Raft.Alike.{
  SameApp, SameRevision, SameAssignment, SameBinding, SameApp-refl, SameAssignment-refl,
  SameBinding-refl,
}
use orch.Raft.Json.{Bytes, Json}
use orch.Raft.Normalize.{normalize_assignment, normalize_volume_binding}
use orch.Raft.Fsm.{
  count_command, notify_deploy_changed, store_node, delete_app, store_assignment, store_binding,
  store_app, apply_node_capacity, apply_deploy_app, apply_delete_deploy_app,
  apply_workload_assignment, apply_volume_binding, replay, save_snapshot, recover_from_snapshot,
}

-- Two states whose reads find the same, up to nested maps that have the same reads.
pub record SameTables {F : Type 0} (s t : State F) : Type 0 where
  pub count : s.applied_commands ≡ t.applied_commands
  pub nodes : SameReads s.node_capacity t.node_capacity
  pub apps : MapAlike SameApp s.deploy_apps t.deploy_apps
  pub histories : MapAlike (ListAlike SameRevision) s.deploy_app_revisions t.deploy_app_revisions
  pub assignments : MapAlike SameAssignment s.assignments t.assignments
  pub bindings : MapAlike SameBinding s.volume_bindings t.volume_bindings

module _ {F : Type 0} (json : Json F) where
  -- What encoding/json promises of the types of the state, whose fields of maps are all omitted when
  -- they are empty: a document's text depends on the reads of its maps only, and the text of a
  -- state is not empty and decodes to a state with the same tables.
  pub record StateCodec : Type 0 where
    pub encodes_alike : (a b : App) → SameApp a b → json.encode_app a ≡ json.encode_app b
    pub decodes :
        (s : State F) (b : Bytes)
        → json.encode_state s ≡ some b
        → (b ≢ []) × (t : State F) × (json.decode_state b ≡ some t) × SameTables s t

  abbrev SameStates : Fsm F → Fsm F → Type 0
  SameStates f g = SameTables f.state g.state

  module _ (codec : StateCodec) where
    module _ (f g : Fsm F) (h : SameTables f.state g.state) where
      store_node-SameTables :
          (n : Snapshot F) → SameTables (store_node n f).state (store_node n g).state
      unfolding store_node
      store_node-SameTables n = elim (Bool-cases (trim_space n.node_id == "")) [
        | inl blank ↦ rw blank h
        | inr set ↦ rw set (record {
          count = h.count;
          nodes =
              insert-SameReads (trim_space n.node_id) n f.state.node_capacity g.state.node_capacity
                h.nodes;
          apps = h.apps;
          histories = h.histories;
          assignments = h.assignments;
          bindings = h.bindings;
        })
      ]

      store_app-SameTables :
          (a : App) → SameTables (store_app json a f).state (store_app json a g).state
      unfolding store_app notify_deploy_changed
      store_app-SameTables a =
          let key = deploy_app_map_key a.metadata in
          elim (Bool-cases (trim_space a.metadata.name == "")) [
            | inl blank ↦ rw blank h
            | inr set ↦ rw set (record {
              count = h.count;
              nodes = h.nodes;
              apps =
                  insert-MapAlike SameApp key a a f.state.deploy_apps g.state.deploy_apps
                    (SameApp-refl a) h.apps;
              histories =
                  revise-MapAlike json codec.encodes_alike key a f.state.deploy_app_revisions
                    g.state.deploy_app_revisions (h.apps.at_key key) h.histories;
              assignments = h.assignments;
              bindings = h.bindings;
            })
          ]

      delete_app-SameTables :
          (m : Metadata) → SameTables (delete_app m f).state (delete_app m g).state
      unfolding delete_app notify_deploy_changed
      delete_app-SameTables m =
          let key = deploy_app_map_key m in
          elim (Bool-cases (trim_space m.name == "")) [
            | inl blank ↦ rw blank h
            | inr set ↦ rw set (record {
              count = h.count;
              nodes = h.nodes;
              apps = delete-MapAlike SameApp key f.state.deploy_apps g.state.deploy_apps h.apps;
              histories =
                  delete-MapAlike (ListAlike SameRevision) key f.state.deploy_app_revisions
                    g.state.deploy_app_revisions h.histories;
              assignments = h.assignments;
              bindings = h.bindings;
            })
          ]

      store_assignment-SameTables :
          (o : Option Assignment)
          → SameTables (store_assignment o f).state (store_assignment o g).state
      unfolding store_assignment
      store_assignment-SameTables none = h
      store_assignment-SameTables (some a) = record {
        count = h.count;
        nodes = h.nodes;
        apps = h.apps;
        histories = h.histories;
        assignments =
            insert-MapAlike SameAssignment a.key a a f.state.assignments g.state.assignments
              (SameAssignment-refl a) h.assignments;
        bindings = h.bindings;
      }

      store_binding-SameTables :
          (o : Option Binding) → SameTables (store_binding o f).state (store_binding o g).state
      unfolding store_binding
      store_binding-SameTables none = h
      store_binding-SameTables (some b) = record {
        count = h.count;
        nodes = h.nodes;
        apps = h.apps;
        histories = h.histories;
        assignments = h.assignments;
        bindings =
            insert-MapAlike SameBinding b.key b b f.state.volume_bindings g.state.volume_bindings
              (SameBinding-refl b) h.bindings;
      }

    module _ (cmd : Bytes) (f g : Fsm F) (h : SameStates f g) where
      node-SameTables : SameStates (apply_node_capacity json cmd f) (apply_node_capacity json cmd g)
      unfolding apply_node_capacity
      node-SameTables = elim (Option-cases (json.decode_node cmd)) [
        | inl e ↦ rw e h
        | inr (n, e) ↦ rw e (store_node-SameTables f g h n)
      ]

      app-SameTables : SameStates (apply_deploy_app json cmd f) (apply_deploy_app json cmd g)
      unfolding apply_deploy_app
      app-SameTables = elim (Option-cases (json.decode_app cmd)) [
        | inl e ↦ rw e h
        | inr (a, e) ↦ rw e (store_app-SameTables f g h a)
      ]

      delete-SameTables :
          SameStates (apply_delete_deploy_app json cmd f) (apply_delete_deploy_app json cmd g)
      unfolding apply_delete_deploy_app
      delete-SameTables = elim (Option-cases (json.decode_metadata cmd)) [
        | inl e ↦ rw e h
        | inr (m, e) ↦ rw e (delete_app-SameTables f g h m)
      ]

      assignment-SameTables :
          SameStates (apply_workload_assignment json cmd f) (apply_workload_assignment json cmd g)
      unfolding apply_workload_assignment
      assignment-SameTables = elim (Option-cases (json.decode_assignment cmd)) [
        | inl e ↦ rw e h
        | inr (a, e) ↦ rw e (store_assignment-SameTables f g h (normalize_assignment a))
      ]

      binding-SameTables :
          SameStates (apply_volume_binding json cmd f) (apply_volume_binding json cmd g)
      unfolding apply_volume_binding
      binding-SameTables = elim (Option-cases (json.decode_binding cmd)) [
        | inl e ↦ rw e h
        | inr (b, e) ↦ rw e (store_binding-SameTables f g h (normalize_volume_binding b))
      ]

    count-SameTables :
        (f g : Fsm F) → SameStates f g → SameStates (count_command f) (count_command g)
    unfolding count_command
    count-SameTables f g h = record {
      count = cc h.count;
      nodes = h.nodes;
      apps = h.apps;
      histories = h.histories;
      assignments = h.assignments;
      bindings = h.bindings;
    }

    SameStates-IsBisimilar : IsBisimilar json SameStates
    SameStates-IsBisimilar = record {
      count = count-SameTables;
      node = node-SameTables;
      app = app-SameTables;
      delete = delete-SameTables;
      assignment = assignment-SameTables;
      binding = binding-SameTables;
    }

  recover-SameTables :
      (codec : StateCodec) (f g : Fsm F) (b : Bytes)
      → save_snapshot json f ≡ some b
      → (r : Fsm F) × (recover_from_snapshot json b g ≡ some r) × SameStates f r
  unfolding save_snapshot recover_from_snapshot
  recover-SameTables codec f g [] saved = absurd ((codec.decodes f.state [] saved).0 refl)
  recover-SameTables codec f g (b ∷ bs) saved =
      let (not_nil, t, decoded, same) = codec.decodes f.state (b ∷ bs) saved in
      (record g { state = t }, rw decoded refl, same)

  -- Where a state's encoding decodes to the same tables, up to nested maps with the same reads, and
  -- documents that are the same up to those are encoded alike: a machine that recovers from a
  -- snapshot and then runs a log has the tables, up to those, of the one that wrote the snapshot and
  -- ran the same log, and the recovery succeeds.
  pub recover_then_replay :
      (codec : StateCodec) (f g : Fsm F) (b : Bytes) (log : List Bytes)
      → save_snapshot json f ≡ some b
      → (r : Fsm F) × (recover_from_snapshot json b g ≡ some r)
        × SameTables (replay json log f).state (replay json log r).state
  recover_then_replay codec f g b log saved =
      let (r, recovered, same) = recover-SameTables codec f g b saved in
      (r, recovered, replay_bisimilar json SameStates (SameStates-IsBisimilar codec) log f r same)
