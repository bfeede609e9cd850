-- ===== src/Raft/Fsm/Induction.antt =====
-- What every command of internal/raftsvc/fsm.go keeps, every log keeps: for one machine, and for two
-- machines that run one log.
use orch.Prelude.{String, Option, none, some, List, [], ◌∷◌, ◌≡◌, refl, arith, ◌==◌, if◌then◌else◌}
use orch.Raft.State.{Fsm}
use orch.Raft.Json.{Bytes, Json}
use orch.Raft.Fsm.{
  cmd_upsert_node_capacity, cmd_upsert_deploy_app, cmd_delete_deploy_app,
  cmd_upsert_workload_assignment, cmd_upsert_volume_binding, count_command, apply_node_capacity,
  apply_deploy_app, apply_delete_deploy_app, apply_workload_assignment, apply_volume_binding,
  dispatch, apply_payload_locked, payload_or_skip, update, replay,
}

-- The handlers that a command's type selects.
data Handler : Type 0 where
  skip node app delete assignment binding : Handler

handler_of : Option String → Handler
handler_of none = skip
handler_of (some t) =
    if t == cmd_upsert_node_capacity
    then node
    else if t == cmd_upsert_deploy_app
    then app
    else if t == cmd_delete_deploy_app
    then delete
    else if t == cmd_upsert_workload_assignment
    then assignment
    else if t == cmd_upsert_volume_binding
    then binding
    else skip

module _ {F : Type 0} (json : Json F) where
  handle : Handler → Bytes → Fsm F → Fsm F
  handle skip cmd f = f
  handle node cmd f = apply_node_capacity json cmd f
  handle app cmd f = apply_deploy_app json cmd f
  handle delete cmd f = apply_delete_deploy_app json cmd f
  handle assignment cmd f = apply_workload_assignment json cmd f
  handle binding cmd f = apply_volume_binding json cmd f

  dispatch-handle :
      (o : Option String) (cmd : Bytes) (f : Fsm F)
      → dispatch json o cmd f ≡ handle (handler_of o) cmd f
  unfolding dispatch handle handler_of
  dispatch-handle none cmd f = refl
  dispatch-handle (some t) cmd f = ground arith

  handler_of_payload : Bytes → Handler
  handler_of_payload [] = skip
  handler_of_payload (b ∷ bs) = handler_of (json.decode_command_type (b ∷ bs))

  payload-handle :
      (cmd : Bytes) (f : Fsm F) → payload_or_skip json cmd f ≡ handle (handler_of_payload cmd) cmd f
  unfolding payload_or_skip apply_payload_locked handler_of_payload handle
  payload-handle [] f = refl
  payload-handle (b ∷ bs) f = dispatch-handle (json.decode_command_type (b ∷ bs)) (b ∷ bs) f

  -- A property of the machine that each kind of command keeps.
  pub record IsKept (P : Fsm F → Type 0) : Type 0 where
    pub node : (cmd : Bytes) (f : Fsm F) → P f → P (apply_node_capacity json cmd f)
    pub app : (cmd : Bytes) (f : Fsm F) → P f → P (apply_deploy_app json cmd f)
    pub delete : (cmd : Bytes) (f : Fsm F) → P f → P (apply_delete_deploy_app json cmd f)
    pub assignment : (cmd : Bytes) (f : Fsm F) → P f → P (apply_workload_assignment json cmd f)
    pub binding : (cmd : Bytes) (f : Fsm F) → P f → P (apply_volume_binding json cmd f)

  module _ (P : Fsm F → Type 0) (kept : IsKept P) where
    handle_kept : (h : Handler) (cmd : Bytes) (f : Fsm F) → P f → P (handle h cmd f)
    unfolding handle
    handle_kept skip = λ cmd f p. p
    handle_kept node = kept.node
    handle_kept app = kept.app
    handle_kept delete = kept.delete
    handle_kept assignment = kept.assignment
    handle_kept binding = kept.binding

    pub payload_kept : (cmd : Bytes) (f : Fsm F) → P f → P (payload_or_skip json cmd f)
    payload_kept cmd f p = rw payload-handle (handle_kept (handler_of_payload cmd) cmd f p)

    module _ (count : (f : Fsm F) → P f → P (count_command f)) where
      pub update_kept : (cmd : Bytes) (f : Fsm F) → P f → P (update json cmd f).0
      unfolding update
      update_kept cmd f h = payload_kept cmd (count_command f) (count f h)

      pub replay_kept : (log : List Bytes) (f : Fsm F) → P f → P (replay json log f)
      unfolding replay
      replay_kept [] f h = h
      replay_kept (cmd ∷ log) f h = replay_kept log (update json cmd f).0 (update_kept cmd f h)

  -- A relation between two machines that counting and each kind of command keep.
  pub record IsBisimilar (R : Fsm F → Fsm F → Type 0) : Type 0 where
    pub count : (f g : Fsm F) → R f g → R (count_command f) (count_command g)
    pub node :
        (cmd : Bytes) (f g : Fsm F)
        → R f g
        → R (apply_node_capacity json cmd f) (apply_node_capacity json cmd g)
    pub app :
        (cmd : Bytes) (f g : Fsm F)
        → R f g
        → R (apply_deploy_app json cmd f) (apply_deploy_app json cmd g)
    pub delete :
        (cmd : Bytes) (f g : Fsm F)
        → R f g
        → R (apply_delete_deploy_app json cmd f) (apply_delete_deploy_app json cmd g)
    pub assignment :
        (cmd : Bytes) (f g : Fsm F)
        → R f g
        → R (apply_workload_assignment json cmd f) (apply_workload_assignment json cmd g)
    pub binding :
        (cmd : Bytes) (f g : Fsm F)
        → R f g
        → R (apply_volume_binding json cmd f) (apply_volume_binding json cmd g)

  module _ (R : Fsm F → Fsm F → Type 0) (bis : IsBisimilar R) where
    handle_bisimilar :
        (h : Handler) (cmd : Bytes) (f g : Fsm F) → R f g → R (handle h cmd f) (handle h cmd g)
    unfolding handle
    handle_bisimilar skip = λ cmd f g r. r
    handle_bisimilar node = bis.node
    handle_bisimilar app = bis.app
    handle_bisimilar delete = bis.delete
    handle_bisimilar assignment = bis.assignment
    handle_bisimilar binding = bis.binding

    update_bisimilar :
        (cmd : Bytes) (f g : Fsm F) → R f g → R (update json cmd f).0 (update json cmd g).0
    unfolding update
    update_bisimilar cmd f g r =
        rw (payload-handle cmd (count_command f), payload-handle cmd (count_command g))
          (handle_bisimilar (handler_of_payload cmd) cmd (count_command f) (count_command g)
            (bis.count f g r))

    pub replay_bisimilar :
        (log : List Bytes) (f g : Fsm F) → R f g → R (replay json log f) (replay json log g)
    unfolding replay
    replay_bisimilar [] f g r = r
    replay_bisimilar (cmd ∷ log) f g r =
        replay_bisimilar log (update json cmd f).0 (update json cmd g).0
          (update_bisimilar cmd f g r)
