-- ===== src/Task/Apps/Counts.antt =====
-- What the counts and the status of an app's view say of its workloads.
use orch.Prelude.{
  ℕ, suc, ◌+◌, ◌≤◌, String, Option, none, some, List, [], ◌∷◌, ◌++◌, ◌≡◌, ◌≢◌, refl, ◌∙◌, inl, inr,
  ◌↔◌, arith, ◌==◌, eq_iff, Bool-cases, if◌then◌else◌,
}
use orch.Prelude.Lists.{length, length-append, All}
use orch.Deploy.Document.{Metadata, Workload, App}
use orch.Deploy.Libraries.{Libraries}
use orch.Raft.State.{Fsm, DeployAppRevision}
use orch.Raft.Revisions.{app_generation}
use orch.Raft.Json.{Json}
use orch.Raft.Lookup.{previous_deploy_app}
use orch.Task.Restart.{assignment_status_running}
use orch.Task.Apps.{
  AppWorkloadView, AppView, app_status_pending, app_status_running, app_status_stopped,
  app_status_partial, app_status_failed, count_workload_status, later_transition, first_failure,
  add_workload, aggregate_app_status, previous_summary, build_app_workload_view,
  app_workloads_for_view, add_app_revision_summary, add_views, empty_view, with_status,
  build_app_view,
}

abbrev pub count_running : List AppWorkloadView → ℕ
count_running [] = 0
count_running (w ∷ ws) =
    let rest = count_running ws in if w.status == assignment_status_running then suc rest else rest

abbrev pub IsRunning : AppWorkloadView → Type 0
IsRunning w = w.status ≡ assignment_status_running

-- The counts fit the workloads that were added.
record IsTally (view : AppView) : Type 0 where
  whole : view.running + view.stopped + view.failed + view.pending ≡ length view.workloads
  running : view.running ≡ count_running view.workloads

count_running-append :
    (xs ys : List AppWorkloadView) → count_running (xs ++ ys) ≡ count_running xs + count_running ys
count_running-append [] ys = omega arith
count_running-append (x ∷ xs) ys = ground (arith, count_running-append xs ys)

-- What adding a workload does to the counts and to the list.
record IsAdded (item : AppWorkloadView) (before after : AppView) : Type 0 where
  listed : after.workloads ≡ before.workloads ++ item ∷ []
  desired : after.desired_workloads ≡ before.desired_workloads
  one_more :
      after.running + after.stopped + after.failed + after.pending
      ≡ suc (before.running + before.stopped + before.failed + before.pending)
  running :
      after.running
      ≡ (if item.status == assignment_status_running then suc before.running else before.running)

add_workload-IsAdded :
    (item : AppWorkloadView) (view : AppView) → IsAdded item view (add_workload item view)
unfolding add_workload count_workload_status later_transition first_failure
add_workload-IsAdded item view = record {
  listed = ground arith;
  desired = ground arith;
  one_more = ground arith;
  running = ground arith;
}

add_workload-IsTally :
    (item : AppWorkloadView) (view : AppView) → IsTally view → IsTally (add_workload item view)
add_workload-IsTally item view t =
    let a = add_workload-IsAdded item view in
    let size = length-append view.workloads (item ∷ []) in
    let counted = count_running-append view.workloads (item ∷ []) in
    let e = a.listed in
    let r = a.running in
    let o = a.one_more in
    let w = t.whole in
    let n = t.running in
    record {
      whole = rw e (omega (arith, size, o, w));
      running = rw e (ground (arith, counted, r, n));
    }

-- The status tells running apart from the rest.
aggregate-running :
    (view : AppView)
    → (aggregate_app_status view ≡ app_status_running)
      ↔ ((view.desired_workloads ≢ 0) × (view.failed ≡ 0) × (view.running ≡ view.desired_workloads))
unfolding aggregate_app_status
aggregate-running view = (
  λ h. ground (
    arith,
    eq_iff app_status_pending app_status_running,
    eq_iff app_status_failed app_status_running,
    eq_iff app_status_stopped app_status_running,
    eq_iff app_status_partial app_status_running,
  ),
  λ h. ground arith,
)

count_running_le : (ws : List AppWorkloadView) → count_running ws ≤ length ws
count_running_le [] = omega arith
count_running_le (w ∷ ws) = ground (arith, count_running_le ws)

count_running_all : (ws : List AppWorkloadView) → (count_running ws ≡ length ws) ↔ All IsRunning ws
count_running_all [] = (λ h. tt, λ h. refl)
count_running_all (w ∷ ws) = elim (Bool-cases (w.status == assignment_status_running)) [
  | inl on ↦ rw on (
    λ h. ((eq_iff w.status assignment_status_running).0 on, (count_running_all ws).0 (omega arith)),
    λ h. let k = (count_running_all ws).1 h.1 in omega arith,
  )
  | inr off ↦ rw off (
    λ h. absurd (let k = count_running_le ws in omega (arith, h, k)),
    λ h. absurd (let t = (eq_iff w.status assignment_status_running).1 h.0 in cc (t, off)),
  )
]

-- The revisions change no count and no status.
record IsSummed (before after : AppView) : Type 0 where
  running : after.running ≡ before.running
  stopped : after.stopped ≡ before.stopped
  failed : after.failed ≡ before.failed
  pending : after.pending ≡ before.pending
  status : after.status ≡ before.status
  workloads : after.workloads ≡ before.workloads

previous_summary-IsSummed :
    (o : Option DeployAppRevision) (view : AppView) → IsSummed view (previous_summary o view)
unfolding previous_summary
previous_summary-IsSummed none view = record {
  running = refl;
  stopped = refl;
  failed = refl;
  pending = refl;
  status = refl;
  workloads = refl;
}
previous_summary-IsSummed (some r) view = record {
  running = refl;
  stopped = refl;
  failed = refl;
  pending = refl;
  status = refl;
  workloads = refl;
}

-- A view with the counts of a tally of n workloads.
tally_lem :
    (view after : AppView) (n : ℕ)
    → IsTally view
    → length view.workloads ≡ n
    → view.desired_workloads ≡ n
    → IsSummed (record view { status = aggregate_app_status view }) after
    → (after.running + after.stopped + after.failed + after.pending ≡ n)
      × ((after.status ≡ app_status_running) ↔ ((n ≢ 0) × All IsRunning after.workloads))
tally_lem view after n t size desired s =
    let whole = t.whole in
    let counted = t.running in
    let all = count_running_all view.workloads in
    let agg = aggregate-running view in
    (
      rw (s.running, s.stopped, s.failed, s.pending) (whole ∙ size),
      rw (s.status, s.workloads)
          (
            λ h.
                let (some_there, failed, same) = agg.0 h in
                (rw (← desired) some_there, all.0 (omega arith)),
            λ h. agg.1 (
              rw desired h.0,
              (let k = all.1 h.1 in omega (arith, k, whole, counted, size)),
              (let k = all.1 h.1 in omega (arith, k, counted, size, desired)),
            ),
          ),
    )

module _ {F S G : Type 0} (json : Json F) (lib : Libraries S G)
    (coalesce_or_empty : List String → String) (raft : Fsm F) where
  add_views-IsTally :
      (meta : Metadata) (desired : String) (ws : List Workload) (view : AppView)
      → IsTally view
      → IsTally (add_views json lib coalesce_or_empty raft meta desired ws view)
        × (length (add_views json lib coalesce_or_empty raft meta desired ws view).workloads
            ≡ length view.workloads + length ws)
        × ((add_views json lib coalesce_or_empty raft meta desired ws view).desired_workloads
            ≡ view.desired_workloads)
  unfolding add_views
  add_views-IsTally meta desired [] view t = (t, omega arith, refl)
  add_views-IsTally meta desired (w ∷ ws) view t =
      let item = build_app_workload_view json lib coalesce_or_empty raft meta desired w in
      let a = add_workload-IsAdded item view in
      let (tally, size, same) =
        add_views-IsTally meta desired ws (add_workload item view)
          (add_workload-IsTally item view t) in
      let listed = a.listed in
      let grown : length (add_workload item view).workloads ≡ suc (length view.workloads) =
        rw listed (let l = length-append view.workloads (item ∷ []) in omega (arith, l)) in
      (tally, omega (arith, size, grown), same ∙ a.desired)

  -- The view of an app counts each workload of the app once, as running, stopped, failed or pending,
  -- and its status is running just if there are workloads and the view of each of them is running.
  pub build_app_view_lem :
      (app : App)
      → ((build_app_view json lib coalesce_or_empty raft app).running
            + (build_app_view json lib coalesce_or_empty raft app).stopped
            + (build_app_view json lib coalesce_or_empty raft app).failed
            + (build_app_view json lib coalesce_or_empty raft app).pending
          ≡ length (app_workloads_for_view json lib coalesce_or_empty raft app))
        × (((build_app_view json lib coalesce_or_empty raft app).status ≡ app_status_running) ↔ (
            (length (app_workloads_for_view json lib coalesce_or_empty raft app) ≢ 0)
            × All IsRunning (build_app_view json lib coalesce_or_empty raft app).workloads))
  unfolding build_app_view with_status add_app_revision_summary empty_view
  build_app_view_lem app =
      let workloads = app_workloads_for_view json lib coalesce_or_empty raft app in
      let start =
        empty_view json lib coalesce_or_empty raft app (app_generation json app) workloads in
      let (t, size, desired) =
        add_views-IsTally app.metadata (app_generation json app) workloads start
          (record { whole = refl; running = refl }) in
      let view =
        add_views json lib coalesce_or_empty raft app.metadata (app_generation json app) workloads
          start in
      let s = previous_summary-IsSummed (previous_deploy_app view.metadata raft) _ in
      tally_lem view (build_app_view json lib coalesce_or_empty raft app) (length workloads) t
        (omega (arith, size)) desired
        (record {
          running = s.running;
          stopped = s.stopped;
          failed = s.failed;
          pending = s.pending;
          status = s.status;
          workloads = s.workloads;
        })
