-- ===== src/Task/Rollback.antt =====
-- internal/services/task/auto_rollback.go: the automatic return to the previous document of an app. The
-- receiver is not nil; `none` for the Raft service and the app is a nil pointer. Each map is read and
-- written under its lock, so each operation on it is one step.
pub mod Once
pub mod Suppressed
pub mod Target
use orch.Prelude.{String, Bool, true, false, not, ◌||◌, Option, none, some, ◌==◌, if◌then◌else◌}
use Prim.Native.String.{◌++◌}
use orch.Prelude.Text.{trim_space}
use orch.Prelude.GoMap
use orch.Prelude.GoMap.{GoMap}
use orch.Deploy.Document.{Metadata, Workload, App}
use orch.Deploy.Validate.Lifecycle.{rollback_on_failure_enabled}
use orch.Meta.{namespace_or_default}
use orch.Raft.State.{DeployAppRevision, Fsm}
use orch.Raft.Json.{Json}
use orch.Raft.Revisions.{app_generation}
use orch.Raft.Lookup.{get_deploy_app, previous_deploy_app}

-- struct{}
pub data Struct : Type 0 where
  struct : Struct

-- autoRollbackAttempts and autoRollbackSuppressed, maps to struct{}
pub record Guards : Type 0 where
  pub attempts : GoMap Struct
  pub suppressed : GoMap Struct

abbrev pub is_found : Option Struct → Bool
is_found none = false
is_found (some struct) = true

unfoldable pub auto_rollback_guard_key : Metadata → String → String
auto_rollback_guard_key meta raw_generation =
    let name = trim_space meta.name in
    let generation = trim_space raw_generation in
    if name == "" || generation == ""
    then ""
    else namespace_or_default meta.namespace ++ "/" ++ name ++ "@" ++ generation

unfoldable pub auto_rollback_is_suppressed : Metadata → String → Guards → Bool
auto_rollback_is_suppressed meta generation g =
    let key = auto_rollback_guard_key meta generation in
    if key == "" then false else is_found (GoMap.lookup key g.suppressed)

unfoldable pub suppress_auto_rollback : Metadata → String → Guards → Guards
suppress_auto_rollback meta generation g =
    let key = auto_rollback_guard_key meta generation in
    if key == "" then g else record g { suppressed = GoMap.insert key struct g.suppressed }

unfoldable pub mark_auto_rollback_attempt : Metadata → String → Guards → Bool × Guards
mark_auto_rollback_attempt meta generation g =
    let key = auto_rollback_guard_key meta generation in
    if key == ""
    then (false, g)
    else if is_found (GoMap.lookup key g.attempts)
    then (false, g)
    else (true, record g { attempts = GoMap.insert key struct g.attempts })

other_generation : Option DeployAppRevision → String → Option DeployAppRevision
other_generation none generation = none
other_generation (some r) generation =
    let target = trim_space r.generation in
    if target == "" || target == generation then none else some r

-- The revision if the attempt can be marked.
marked_revision :
    Option DeployAppRevision → Metadata → String → Guards → Option DeployAppRevision × Guards
marked_revision none meta generation g = (none, g)
marked_revision (some r) meta generation g =
    let (marked, g') = mark_auto_rollback_attempt meta generation g in
    (if marked then some r else none, g')

submitted : (App → Bool) → Option App → Option DeployAppRevision × Guards → Option App × Guards
submitted preflight app (none, g) = (none, g)
submitted preflight none (some r, g) = (none, g)
submitted preflight (some app) (some r, g) =
    if not (preflight r.app)
    then (none, g)
    else (some r.app, suppress_auto_rollback app.metadata r.generation g)

module _ {F : Type 0} where
  unfoldable pub auto_rollback_configured :
      Option (Fsm F) → Option App → Workload → String → Guards → Bool
  auto_rollback_configured none app w generation g = false
  auto_rollback_configured (some raft) none w generation g = false
  auto_rollback_configured (some raft) (some app) w generation g =
      if generation == ""
      then false
      else if not (rollback_on_failure_enabled w.rollout)
      then false
      else if auto_rollback_is_suppressed app.metadata generation g
      then false
      else true

  -- `none` is the result false
  unfoldable pub previous_auto_rollback_revision :
      Fsm F → Metadata → String → Option DeployAppRevision
  unfolding other_generation
  previous_auto_rollback_revision raft meta generation =
      other_generation (previous_deploy_app meta raft) generation

module _ {F : Type 0} (json : Json F) where
  is_generation : Option App → String → Bool
  is_generation none generation = false
  is_generation (some current) generation = trim_space (app_generation json current) == generation

  unfoldable pub auto_rollback_desired_generation_current : Fsm F → Metadata → String → Bool
  unfolding is_generation
  auto_rollback_desired_generation_current raft meta generation =
      is_generation (get_deploy_app meta raft) generation

  current_revision :
      Option (Fsm F) → Option App → String → Guards → Option DeployAppRevision × Guards
  unfolding marked_revision
  current_revision none app generation g = (none, g)
  current_revision (some raft) none generation g = (none, g)
  current_revision (some raft) (some app) generation g =
      if not (auto_rollback_desired_generation_current raft app.metadata generation)
      then (none, g)
      else marked_revision (previous_auto_rollback_revision raft app.metadata generation)
          app.metadata generation g

  -- `none` is the result false
  unfoldable pub auto_rollback_revision :
      Option (Fsm F) → Option App → Workload → String → Guards → Option DeployAppRevision × Guards
  unfolding current_revision
  auto_rollback_revision raft app w raw_generation g =
      let generation = trim_space raw_generation in
      if not (auto_rollback_configured raft app w generation g)
      then (none, g)
      else current_revision raft app generation g

  -- The document handed to ApplyDeployApp, whose result is only logged; `preflight` is whether
  -- preflightDeploy returns nil.
  unfoldable pub maybe_auto_rollback_deploy_failure :
      (App → Bool) → Option (Fsm F) → Option App → Workload → String → Guards → Option App × Guards
  unfolding submitted
  maybe_auto_rollback_deploy_failure preflight raft app w generation g =
      submitted preflight app (auto_rollback_revision raft app w generation g)
