-- ===== src/Raft/Fsm/Refusals.antt =====
-- The commands that internal/raftsvc/fsm.go passes over, and the count of applied commands.
use orch.Prelude.{
  ℕ, ◌+◌, ◌%◌, ◌<◌, String, none, some, List, [], ◌∷◌, ◌≡◌, ◌≢◌, ◌⊎◌, inl, inr, refl, arith, eq_iff,
  Bool-cases, ◌==◌,
}
use orch.Prelude.Text.{trim_space}
use orch.Prelude.Lists.{length}
use orch.Deploy.Document.{Metadata, App}
use orch.Meta.{Assignment, Binding}
use orch.Raft.State.{Snapshot, Fsm, uint64_mod}
use orch.Raft.Json.{Bytes, Json}
use orch.Raft.Normalize.{normalize_assignment, normalize_volume_binding}
use orch.Raft.Fsm.{
  cmd_upsert_node_capacity, cmd_upsert_deploy_app, cmd_delete_deploy_app,
  cmd_upsert_workload_assignment, cmd_upsert_volume_binding, count_command, apply_node_capacity,
  apply_deploy_app, apply_delete_deploy_app, apply_workload_assignment, apply_volume_binding,
  dispatch, apply_payload_locked, payload_or_skip, update, replay,
}
use orch.Raft.Fsm.Induction.{IsKept, payload_kept}

nameless_assignment :
    (a : Assignment)
    → (trim_space a.metadata.name ≡ "") ⊎ (trim_space a.workload ≡ "")
    → normalize_assignment a ≡ none
unfolding normalize_assignment
nameless_assignment a (inl name) = rw name refl
nameless_assignment a (inr workload) = elim (Bool-cases (trim_space a.metadata.name == "")) [
  | inl blank ↦ rw blank refl
  | inr named ↦ rw (named, workload) refl
]

nameless_binding :
    (b : Binding)
    → (trim_space b.metadata.name ≡ "") ⊎ (trim_space b.workload ≡ "") ⊎ (trim_space b.volume ≡ "")
    → normalize_volume_binding b ≡ none
unfolding normalize_volume_binding
nameless_binding b h = ground (
  arith,
  h,
  eq_iff (trim_space b.metadata.name) "",
  eq_iff (trim_space b.workload) "",
  eq_iff (trim_space b.volume) "",
)

module _ {F : Type 0} (json : Json F) where
  -- Why a log entry changes no table.
  pub data IsRefused (cmd : Bytes) : Type 0 where
    empty : cmd ≡ [] → IsRefused cmd
    untyped : json.decode_command_type cmd ≡ none → IsRefused cmd
    unknown :
        (t : String)
        → json.decode_command_type cmd ≡ some t
        → t ≢ cmd_upsert_node_capacity
        → t ≢ cmd_upsert_deploy_app
        → t ≢ cmd_delete_deploy_app
        → t ≢ cmd_upsert_workload_assignment
        → t ≢ cmd_upsert_volume_binding
        → IsRefused cmd
    node_malformed :
        json.decode_command_type cmd ≡ some cmd_upsert_node_capacity
        → json.decode_node cmd ≡ none
        → IsRefused cmd
    node_unnamed :
        (n : Snapshot F)
        → json.decode_command_type cmd ≡ some cmd_upsert_node_capacity
        → json.decode_node cmd ≡ some n
        → trim_space n.node_id ≡ ""
        → IsRefused cmd
    app_malformed :
        json.decode_command_type cmd ≡ some cmd_upsert_deploy_app
        → json.decode_app cmd ≡ none
        → IsRefused cmd
    app_unnamed :
        (a : App)
        → json.decode_command_type cmd ≡ some cmd_upsert_deploy_app
        → json.decode_app cmd ≡ some a
        → trim_space a.metadata.name ≡ ""
        → IsRefused cmd
    delete_malformed :
        json.decode_command_type cmd ≡ some cmd_delete_deploy_app
        → json.decode_metadata cmd ≡ none
        → IsRefused cmd
    delete_unnamed :
        (m : Metadata)
        → json.decode_command_type cmd ≡ some cmd_delete_deploy_app
        → json.decode_metadata cmd ≡ some m
        → trim_space m.name ≡ ""
        → IsRefused cmd
    assignment_malformed :
        json.decode_command_type cmd ≡ some cmd_upsert_workload_assignment
        → json.decode_assignment cmd ≡ none
        → IsRefused cmd
    assignment_incomplete :
        (a : Assignment)
        → json.decode_command_type cmd ≡ some cmd_upsert_workload_assignment
        → json.decode_assignment cmd ≡ some a
        → (trim_space a.metadata.name ≡ "") ⊎ (trim_space a.workload ≡ "")
        → IsRefused cmd
    binding_malformed :
        json.decode_command_type cmd ≡ some cmd_upsert_volume_binding
        → json.decode_binding cmd ≡ none
        → IsRefused cmd
    binding_incomplete :
        (b : Binding)
        → json.decode_command_type cmd ≡ some cmd_upsert_volume_binding
        → json.decode_binding cmd ≡ some b
        → (trim_space b.metadata.name ≡ "")
          ⊎ (trim_space b.workload ≡ "")
          ⊎ (trim_space b.volume ≡ "")
        → IsRefused cmd

  refused_dispatch :
      (cmd : Bytes) (f : Fsm F)
      → cmd ≢ []
      → IsRefused cmd
      → dispatch json (json.decode_command_type cmd) cmd f ≡ f
  unfolding dispatch apply_node_capacity apply_deploy_app apply_delete_deploy_app
      apply_workload_assignment apply_volume_binding
  refused_dispatch cmd f ne (empty e) = absurd (ne e)
  refused_dispatch cmd f ne (untyped e) = rw e refl
  refused_dispatch cmd f ne (unknown t e h1 h2 h3 h4 h5) = rw e (
      ground (
        arith,
        eq_iff t cmd_upsert_node_capacity,
        eq_iff t cmd_upsert_deploy_app,
        eq_iff t cmd_delete_deploy_app,
        eq_iff t cmd_upsert_workload_assignment,
        eq_iff t cmd_upsert_volume_binding,
      ))
  refused_dispatch cmd f ne (node_malformed e d) = rw e (rw d refl)
  refused_dispatch cmd f ne (node_unnamed n e d blank) = rw e (rw d (rw blank refl))
  refused_dispatch cmd f ne (app_malformed e d) = rw e (rw d refl)
  refused_dispatch cmd f ne (app_unnamed a e d blank) = rw e (rw d (rw blank refl))
  refused_dispatch cmd f ne (delete_malformed e d) = rw e (rw d refl)
  refused_dispatch cmd f ne (delete_unnamed m e d blank) = rw e (rw d (rw blank refl))
  refused_dispatch cmd f ne (assignment_malformed e d) = rw e (rw d refl)
  refused_dispatch cmd f ne (assignment_incomplete a e d n) =
      rw e (rw d (rw (nameless_assignment a n) refl))
  refused_dispatch cmd f ne (binding_malformed e d) = rw e (rw d refl)
  refused_dispatch cmd f ne (binding_incomplete b e d n) =
      rw e (rw d (rw (nameless_binding b n) refl))

  refused_payload : (cmd : Bytes) (f : Fsm F) → IsRefused cmd → payload_or_skip json cmd f ≡ f
  unfolding payload_or_skip apply_payload_locked
  refused_payload [] f h = refl
  refused_payload (b ∷ bs) f h = refused_dispatch (b ∷ bs) f (λ p. cc) h

  -- An entry that is empty, does not decode, is of no known type, or lacks what it must name, changes
  -- nothing but the count of applied commands; no reconcile is signalled.
  pub update_refused :
      (cmd : Bytes) (f : Fsm F) → IsRefused cmd → (update json cmd f).0 ≡ count_command f
  unfolding update
  update_refused cmd f h = refused_payload cmd (count_command f) h

  module _ (n : ℕ) where
    abbrev Counts : Fsm F → Type 0
    Counts f = f.state.applied_commands ≡ n

    Counts-kept : IsKept json Counts
    unfolding apply_node_capacity apply_deploy_app apply_delete_deploy_app apply_workload_assignment
        apply_volume_binding
    Counts-kept = record {
      node = λ cmd f h. ground arith;
      app = λ cmd f h. ground arith;
      delete = λ cmd f h. ground arith;
      assignment = λ cmd f h. ground arith;
      binding = λ cmd f h. ground arith;
    }

  payload-applied_commands :
      (cmd : Bytes) (f : Fsm F)
      → (payload_or_skip json cmd f).state.applied_commands ≡ f.state.applied_commands
  payload-applied_commands cmd f =
      payload_kept json (Counts f.state.applied_commands) (Counts-kept f.state.applied_commands) cmd
        f refl

  -- From a count below 2^64, the count of applied commands advances by one for each entry of the log,
  -- refused ones included, modulo 2^64.
  pub replay-applied_commands :
      (log : List Bytes) (f : Fsm F)
      → f.state.applied_commands < uint64_mod
      → (replay json log f).state.applied_commands
        ≡ (f.state.applied_commands + length log) % uint64_mod
  unfolding replay update count_command
  replay-applied_commands [] f h = omega arith
  replay-applied_commands (cmd ∷ log) f h =
      let f' = (update json cmd f).0 in
      let e : f'.state.applied_commands ≡ (f.state.applied_commands + 1) % uint64_mod =
        payload-applied_commands cmd (count_command f) in
      omega (arith, e, replay-applied_commands log f' (omega (arith, e)))
