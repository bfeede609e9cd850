-- ===== src/Task/Rollback/Target.antt =====
-- What internal/services/task/auto_rollback.go returns to.
use orch.Prelude.{
  String, Bool, true, false, ◌||◌, Option, none, some, ◌≡◌, ◌≢◌, refl, sym, inl, inr, arith, ◌==◌,
  eq_iff, Bool-cases,
}
use orch.Prelude.Text.{trim_space}
use orch.Deploy.Document.{Metadata, Workload, App}
use orch.Deploy.Validate.Lifecycle.{rollback_on_failure_enabled}
use orch.Raft.State.{DeployAppRevision, Fsm}
use orch.Raft.Json.{Json}
use orch.Raft.Revisions.{app_generation}
use orch.Raft.Lookup.{get_deploy_app, previous_deploy_app}
use orch.Task.Rollback.{
  Guards, auto_rollback_configured, previous_auto_rollback_revision,
  auto_rollback_desired_generation_current, auto_rollback_revision,
  maybe_auto_rollback_deploy_failure, mark_auto_rollback_attempt, marked_revision, current_revision,
  other_generation, is_generation, submitted, auto_rollback_is_suppressed,
}

other_of :
    (o : Option DeployAppRevision) (generation : String) (r : DeployAppRevision)
    → other_generation o generation ≡ some r
    → (o ≡ some r) × (trim_space r.generation ≢ generation)
unfolding other_generation
other_of none generation r h = absurd cc
other_of (some p) generation r h =
    elim (Bool-cases (trim_space p.generation == "" || trim_space p.generation == generation)) [
      | inl bad ↦ absurd (let q = (rw bad at h) in cc q)
      | inr good ↦
          (let q = (rw good at h) in
            (
              q,
              λ e.
                  (let e2 : trim_space p.generation ≡ generation = cc (q, e) in
                    ground (arith, eq_iff (trim_space p.generation) generation)),
            ))
    ]

marked_of :
    (o : Option DeployAppRevision) (m : Metadata) (generation : String) (g : Guards)
    (r : DeployAppRevision)
    → (marked_revision o m generation g).0 ≡ some r
    → (o ≡ some r) × ((mark_auto_rollback_attempt m generation g).0 ≡ true)
unfolding marked_revision
marked_of none m generation g r h = absurd cc
marked_of (some p) m generation g r h =
    elim (Bool-cases (mark_auto_rollback_attempt m generation g).0) [
      | inl marked ↦ (rw marked at h, marked)
      | inr not_marked ↦ absurd (let q = (rw not_marked at h) in cc q)
    ]

module _ {F : Type 0} (json : Json F) where
  -- Why a revision may take the place of a failed generation.
  pub record IsTarget (raft : Fsm F) (app : App) (w : Workload) (generation : String) (g : Guards)
      (r : DeployAppRevision) : Type 0 where
    pub enabled : rollback_on_failure_enabled w.rollout ≡ true
    pub not_suppressed : auto_rollback_is_suppressed app.metadata (trim_space generation) g ≡ false
    pub current :
        (a : App) × (get_deploy_app app.metadata raft ≡ some a)
        × (trim_space (app_generation json a) ≡ trim_space generation)
    pub previous : previous_deploy_app app.metadata raft ≡ some r
    pub other : trim_space r.generation ≢ trim_space generation
    pub marked : (mark_auto_rollback_attempt app.metadata (trim_space generation) g).0 ≡ true

  current_of :
      (o : Option App) (generation : String)
      → is_generation json o generation ≡ true
      → (a : App) × (o ≡ some a) × (trim_space (app_generation json a) ≡ generation)
  unfolding is_generation
  current_of none generation h = absurd cc
  current_of (some a) generation h =
      (a, refl, (eq_iff (trim_space (app_generation json a)) generation).0 h)

  configured_true :
      (raft : Fsm F) (app : App) (w : Workload) (generation : String) (g : Guards)
      → auto_rollback_configured (some raft) (some app) w generation g ≡ true
      → (rollback_on_failure_enabled w.rollout ≡ true)
        × (auto_rollback_is_suppressed app.metadata generation g ≡ false)
  unfolding auto_rollback_configured
  configured_true raft app w generation g h = ground arith

  current_some :
      (raft : Fsm F) (app : App) (generation : String) (g : Guards) (r : DeployAppRevision)
      → (current_revision json (some raft) (some app) generation g).0 ≡ some r
      → (auto_rollback_desired_generation_current json raft app.metadata generation ≡ true)
        × ((marked_revision
              (previous_auto_rollback_revision raft app.metadata generation)
              app.metadata
              generation
              g).0
            ≡ some r)
  unfolding current_revision
  current_some raft app generation g r h =
      elim (Bool-cases
        (auto_rollback_desired_generation_current json raft app.metadata generation)) [
          | inl is ↦ (is, rw is at h)
          | inr gone ↦ absurd (let q = (rw gone at h) in cc q)
        ]

  pub auto_rollback_revision-IsTarget :
      (raft : Fsm F) (app : App) (w : Workload) (generation : String) (g : Guards)
      (r : DeployAppRevision)
      → (auto_rollback_revision json (some raft) (some app) w generation g).0 ≡ some r
      → IsTarget raft app w generation g r
  unfolding auto_rollback_revision auto_rollback_desired_generation_current
      previous_auto_rollback_revision
  auto_rollback_revision-IsTarget raft app w generation g r h =
      elim (Bool-cases
        (auto_rollback_configured (some raft) (some app) w (trim_space generation) g)) [
          | inr off ↦ absurd (let q = (rw off at h) in cc q)
          | inl on ↦
              (let (is, m) = current_some raft app (trim_space generation) g r (rw on at h) in
                let (o, marked) =
                  marked_of
                    (previous_auto_rollback_revision raft app.metadata (trim_space generation))
                    app.metadata (trim_space generation) g r m in
                let (previous, other) =
                  other_of (previous_deploy_app app.metadata raft) (trim_space generation) r o in
                let (enabled, free) = configured_true raft app w (trim_space generation) g on in
                record {
                  enabled = enabled;
                  not_suppressed = free;
                  current =
                      current_of (get_deploy_app app.metadata raft) (trim_space generation) is;
                  previous = previous;
                  other = other;
                  marked = marked;
                })
        ]

  submitted-some :
      (preflight : App → Bool) (o : Option App) (x : Option DeployAppRevision × Guards) (a : App)
      → (submitted preflight o x).0 ≡ some a
      → (r : DeployAppRevision) × (x.0 ≡ some r) × (r.app ≡ a) × (preflight r.app ≡ true)
  unfolding submitted
  submitted-some preflight o (none, g) a h = absurd cc
  submitted-some preflight none (some r, g) a h = absurd cc
  submitted-some preflight (some app) (some r, g) a h = elim (Bool-cases (preflight r.app)) [
    | inl passed ↦ (let q = (rw passed at h) in (r, refl, cc q, passed))
    | inr refused ↦ absurd (let q = (rw refused at h) in cc q)
  ]

  -- A document that is submitted after a failure is that of the previous deploy app in the replicated
  -- state, and passed the preflight; the failed generation is the desired one and not the previous
  -- one, its workload asks for rollbacks, and it is not a generation that a rollback brought back.
  pub maybe_auto_rollback_deploy_failure-IsTarget :
      (preflight : App → Bool) (raft : Fsm F) (app : App) (w : Workload) (generation : String)
      (g : Guards) (a : App)
      → (maybe_auto_rollback_deploy_failure json preflight (some raft) (some app) w generation g).0
        ≡ some a
      → (r : DeployAppRevision) × IsTarget raft app w generation g r
        × (r.app ≡ a)
        × (preflight a ≡ true)
  unfolding maybe_auto_rollback_deploy_failure
  maybe_auto_rollback_deploy_failure-IsTarget preflight raft app w generation g a h =
      let (r, found, same, passed) =
        submitted-some preflight (some app)
          (auto_rollback_revision json (some raft) (some app) w generation g) a h in
      (
        r,
        auto_rollback_revision-IsTarget raft app w generation g r found,
        same,
        rw (sym same) passed,
      )
