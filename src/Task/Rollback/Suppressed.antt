-- ===== src/Task/Rollback/Suppressed.antt =====
-- internal/services/task/auto_rollback.go does not roll back what a rollback brought back.
use orch.Prelude.{
  String, Bool, true, false, Option, none, some, List, [], ◌∷◌, ◌≡◌, ◌≢◌, refl, inl, inr, arith,
  ◌==◌, eq_iff, Bool-cases,
}
use orch.Prelude.Text.{trim_space}
use orch.Prelude.GoMap
use orch.Prelude.GoMap.{lookup-insert, lookup-insert_self}
use orch.Deploy.Document.{Metadata, Workload, App}
use orch.Raft.State.{DeployAppRevision, Fsm}
use orch.Raft.Json.{Json}
use orch.Task.Rollback.{
  Guards, struct, is_found, auto_rollback_guard_key, auto_rollback_is_suppressed,
  auto_rollback_configured, previous_auto_rollback_revision,
  auto_rollback_desired_generation_current, auto_rollback_revision,
  maybe_auto_rollback_deploy_failure, mark_auto_rollback_attempt, suppress_auto_rollback,
  marked_revision, current_revision, submitted,
}
use orch.Task.Rollback.Once.{guard_key_of, count_some, Report, rollbacks}

module _ (key : String) where
  abbrev pub IsSuppressed : Guards → Type 0
  IsSuppressed g = is_found (GoMap.lookup key g.suppressed) ≡ true

  suppress_kept :
      (m : Metadata) (generation : String) (g : Guards)
      → IsSuppressed g
      → IsSuppressed (suppress_auto_rollback m generation g)
  unfolding suppress_auto_rollback
  suppress_kept m generation g h =
      ground (arith, lookup-insert (auto_rollback_guard_key m generation) key struct g.suppressed)

  mark_kept :
      (m : Metadata) (generation : String) (g : Guards)
      → IsSuppressed g
      → IsSuppressed (mark_auto_rollback_attempt m generation g).1
  unfolding mark_auto_rollback_attempt
  mark_kept m generation g h = ground arith

  marked_kept :
      (o : Option DeployAppRevision) (m : Metadata) (generation : String) (g : Guards)
      → IsSuppressed g
      → IsSuppressed (marked_revision o m generation g).1
  unfolding marked_revision
  marked_kept none m generation g h = h
  marked_kept (some r) m generation g h = mark_kept m generation g h

  submitted_kept :
      (preflight : App → Bool) (app : Option App) (x : Option DeployAppRevision × Guards)
      → IsSuppressed x.1
      → IsSuppressed (submitted preflight app x).1
  unfolding submitted
  submitted_kept preflight app (none, g) h = h
  submitted_kept preflight none (some r, g) h = h
  submitted_kept preflight (some a) (some r, g) h = elim (Bool-cases (preflight r.app)) [
    | inl passed ↦ rw passed (suppress_kept a.metadata r.generation g h)
    | inr refused ↦ rw refused h
  ]

  module _ {F : Type 0} (json : Json F) where
    current_kept :
        (raft : Option (Fsm F)) (app : Option App) (generation : String) (g : Guards)
        → IsSuppressed g
        → IsSuppressed (current_revision json raft app generation g).1
    unfolding current_revision
    current_kept none app generation g h = h
    current_kept (some raft) none generation g h = h
    current_kept (some raft) (some a) generation g h =
        elim (Bool-cases
          (auto_rollback_desired_generation_current json raft a.metadata generation)) [
            | inl is ↦ rw is (
                marked_kept (previous_auto_rollback_revision raft a.metadata generation) a.metadata
                  generation g h)
            | inr gone ↦ rw gone h
          ]

    maybe_kept :
        (preflight : App → Bool) (raft : Option (Fsm F)) (app : Option App) (w : Workload)
        (generation : String) (g : Guards)
        → IsSuppressed g
        → IsSuppressed (maybe_auto_rollback_deploy_failure json preflight raft app w generation g).1
    unfolding maybe_auto_rollback_deploy_failure auto_rollback_revision
    maybe_kept preflight raft app w generation g h =
        submitted_kept preflight app (auto_rollback_revision json raft app w generation g)
          (elim (Bool-cases (auto_rollback_configured raft app w (trim_space generation) g)) [
            | inl on ↦ rw on (current_kept raft app (trim_space generation) g h)
            | inr off ↦ rw off h
          ])

    not_configured :
        (raft : Option (Fsm F)) (app : Option App) (w : Workload) (generation : String) (g : Guards)
        → key ≢ ""
        → guard_key_of app generation ≡ key
        → IsSuppressed g
        → auto_rollback_configured raft app w generation g ≡ false
    unfolding auto_rollback_configured guard_key_of auto_rollback_is_suppressed
    not_configured none app w generation g ne e h = refl
    not_configured (some raft) none w generation g ne e h = refl
    not_configured (some raft) (some a) w generation g ne e h =
        rw e (rw h (ground (arith, eq_iff key "")))

    none_submitted :
        (preflight : App → Bool) (raft : Option (Fsm F)) (app : Option App) (w : Workload)
        (generation : String) (g : Guards)
        → key ≢ ""
        → guard_key_of app (trim_space generation) ≡ key
        → IsSuppressed g
        → (maybe_auto_rollback_deploy_failure json preflight raft app w generation g).0 ≡ none
    unfolding maybe_auto_rollback_deploy_failure auto_rollback_revision submitted
    none_submitted preflight raft app w generation g ne e h =
        rw (not_configured raft app w (trim_space generation) g ne e h) refl

    rollbacks-IsSuppressed :
        (ps : List (Report json)) (g : Guards)
        → key ≢ ""
        → IsSuppressed g
        → rollbacks json key ps g ≡ 0
    unfolding rollbacks count_some
    rollbacks-IsSuppressed [] g ne h = refl
    rollbacks-IsSuppressed (p ∷ ps) g ne h =
        let rest =
          rollbacks-IsSuppressed ps
            (maybe_auto_rollback_deploy_failure json p.preflight p.raft p.app p.workload
              p.generation g).1
            ne (maybe_kept p.preflight p.raft p.app p.workload p.generation g h) in
        elim (Bool-cases (guard_key_of p.app (trim_space p.generation) == key)) [
          | inl same ↦ rw same (
              rw
                (none_submitted p.preflight p.raft p.app p.workload p.generation g ne
                  ((eq_iff (guard_key_of p.app (trim_space p.generation)) key).0 same) h)
                rest)
          | inr other ↦ rw other rest
        ]

suppress-IsSuppressed :
    (m : Metadata) (generation : String) (g : Guards)
    → auto_rollback_guard_key m generation ≢ ""
    → IsSuppressed (auto_rollback_guard_key m generation) (suppress_auto_rollback m generation g)
unfolding suppress_auto_rollback
suppress-IsSuppressed m generation g ne =
    let key = auto_rollback_guard_key m generation in
    ground (arith, eq_iff key "", lookup-insert_self key struct g.suppressed)

submitted-IsSuppressed :
    (preflight : App → Bool) (a : App) (r : DeployAppRevision)
    (x : Option DeployAppRevision × Guards)
    → auto_rollback_guard_key a.metadata r.generation ≢ ""
    → x.0 ≡ some r
    → preflight r.app ≡ true
    → IsSuppressed
        (auto_rollback_guard_key a.metadata r.generation)
        (submitted preflight (some a) x).1
unfolding submitted
submitted-IsSuppressed preflight a r (none, g) ne e passed = absurd cc
submitted-IsSuppressed preflight a r (some s, g) ne e passed =
    let same : s ≡ r = cc e in
    rw same (rw passed (suppress-IsSuppressed a.metadata r.generation g ne))

module _ {F : Type 0} (json : Json F) where
  -- After a rollback to a revision, no sequence of failures submits a rollback of that revision's
  -- generation, where the app's name and that generation are not blank.
  pub rollbacks-after_rollback :
      (preflight : App → Bool) (raft : Option (Fsm F)) (a : App) (w : Workload)
      (generation : String) (g : Guards) (r : DeployAppRevision) (ps : List (Report json))
      → auto_rollback_guard_key a.metadata r.generation ≢ ""
      → (auto_rollback_revision json raft (some a) w generation g).0 ≡ some r
      → preflight r.app ≡ true
      → rollbacks json
          (auto_rollback_guard_key a.metadata r.generation)
          ps
          (maybe_auto_rollback_deploy_failure json preflight raft (some a) w generation g).1
        ≡ 0
  unfolding maybe_auto_rollback_deploy_failure
  rollbacks-after_rollback preflight raft a w generation g r ps ne e passed =
      rollbacks-IsSuppressed (auto_rollback_guard_key a.metadata r.generation) json ps
        (submitted preflight (some a) (auto_rollback_revision json raft (some a) w generation g)).1
        ne
        (submitted-IsSuppressed preflight a r
          (auto_rollback_revision json raft (some a) w generation g) ne e passed)
