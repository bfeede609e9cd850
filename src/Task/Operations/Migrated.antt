-- ===== src/Task/Operations/Migrated.antt =====
-- What a migration without an error has done.
use orch.Prelude.{
  String, Option, none, some, List, ◌≡◌, ◌≢◌, refl, sym, ◌∙◌, eq_iff, ◌⊎◌, inl, inr, Bool-cases,
  ◌==◌,
}
use orch.Prelude.Text.{trim_space}
use orch.Prelude.Lists.{All}
use orch.Deploy.Document.{Metadata, Workload, App}
use orch.Deploy.Libraries.{Libraries}
use orch.Task.Libraries.{RequestSet}
use orch.Task.Errors.{TaskError, Result, ok, err}
use orch.Task.Select.{select_operation_workloads}
use orch.Task.Moves.{AppOperationSummary, Cluster}
use orch.Task.Moves.Planned.{AtTarget, Settled}
use orch.Task.Moves.Outcome.{IsUnchanged, IsCompleted, plans, move_app_workloads_lem}
use orch.Task.Operations.{
  AppOperationOptions, operation_migrate, operation_app, migrate_selected, migrate_app,
  submit_migrate,
}

module _ {W O S G : Type 0} (cluster : Cluster W) (set : RequestSet O)
    (sort : List String → List String) (lib : Libraries S G) (generation_of : App → String)
    (self : String) where
  -- The selected workloads of the desired document are assigned to the target, or the plans that
  -- move the others there all ran.
  pub record IsMigrated (target : String) (names : List String) (found : Result App) (world : W)
      (out : AppOperationSummary × Option TaskError × W) : Type 0 where
    pub app : App
    pub workloads : List Workload
    pub desired : found ≡ ok app
    pub selected : select_operation_workloads set sort lib (some app) names ≡ ok workloads
    pub settled :
        (IsUnchanged cluster app (generation_of app) world out
          × All (AtTarget cluster self (λ w. ok target) app.metadata world) workloads)
        ⊎ (IsCompleted cluster app
              (generation_of app)
              operation_migrate
              (plans cluster self
                (λ w. ok target)
                (generation_of app)
                app
                operation_migrate
                workloads
                world)
              world
              out
            × All
                (Settled cluster self
                  (λ w. ok target)
                  app.metadata
                  world
                  (plans cluster self
                    (λ w. ok target)
                    (generation_of app)
                    app
                    operation_migrate
                    workloads
                    world))
                workloads)

  migrate_selected-ends :
      (target : String) (names : List String) (app : App) (chosen : Result (List Workload))
      (world : W)
      → select_operation_workloads set sort lib (some app) names ≡ chosen
      → let out =
          migrate_selected cluster set sort lib generation_of self target app chosen world in
        (out.1 ≢ none) ⊎ IsMigrated target names (ok app) world out
  unfolding migrate_selected
  migrate_selected-ends target names app (err e) world s = inl (λ p. absurd (cc p))
  migrate_selected-ends target names app (ok ws) world s =
      elim (move_app_workloads_lem cluster self (λ w. ok target) (generation_of app) app
        operation_migrate ws world) [
          | inl same ↦ inr (record {
            app = app;
            workloads = ws;
            desired = refl;
            selected = s;
            settled = inl same;
          })
          | inr (inl done) ↦ inr (record {
            app = app;
            workloads = ws;
            desired = refl;
            selected = s;
            settled = inr done;
          })
          | inr (inr failed) ↦ inl failed.error
        ]

  migrate_app-ends :
      (target : String) (names : List String) (found : Result App) (world : W)
      → let out = migrate_app cluster set sort lib generation_of self target names found world in
        (out.1 ≢ none) ⊎ IsMigrated target names found world out
  unfolding migrate_app
  migrate_app-ends target names (err e) world = inl (λ p. absurd (cc p))
  migrate_app-ends target names (ok app) world = migrate_selected-ends target names app _ world refl

  -- A migration gives an error, or its target is not blank, the desired document was found and its
  -- workloads were selected, and either all of them are assigned to the target, with no effect, or
  -- the stop of the sources gave no error, every plan ran on its target, and every selected workload
  -- is planned or is assigned to the target.
  pub submit_migrate_lem :
      (desired : Option (Metadata → Option App)) (meta : Metadata) (opts : AppOperationOptions)
      (world : W)
      → ((submit_migrate cluster set sort lib generation_of self desired meta opts world).1 ≢ none)
        ⊎ ((trim_space opts.target_node ≢ "")
            × IsMigrated
                (trim_space opts.target_node)
                opts.workloads
                (operation_app desired meta)
                world
                (submit_migrate cluster set sort lib generation_of self desired meta opts world))
  unfolding submit_migrate
  submit_migrate_lem desired meta opts world =
      elim (Bool-cases (trim_space opts.target_node == "")) [
        | inl blank ↦ inl (rw blank (λ p. absurd (cc p)))
        | inr given ↦
            rw given
              (elim (migrate_app-ends (trim_space opts.target_node) opts.workloads
                (operation_app desired meta) world) [
                  | inl failed ↦ inl failed
                  | inr done ↦ inr (
                    λ p. absurd (cc (sym given ∙ (eq_iff (trim_space opts.target_node) "").1 p)),
                    done,
                  )
                ])
      ]
