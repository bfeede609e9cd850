-- ===== src/Raft/Fsm/Reads.antt =====
-- What the reads of internal/raftsvc/fsm_lookup.go find after a command of fsm.go.
use mathlib.Core.List.{reverse}
use orch.Prelude.{
  String, Bool, true, false, Option, none, some, List, [], ◌∷◌, ◌≡◌, ◌≢◌, refl, ap, ◌⊎◌, inl, inr,
  arith, ◌==◌, eq_iff, if◌then◌else◌, Bool-cases,
}
use orch.Prelude.Text.{trim_space}
use orch.Prelude.Trim.{trim_space-of_IsTrimmed}
use orch.Prelude.GoMap
use orch.Prelude.GoMap.{GoMap, lookup-insert, lookup-delete}
use orch.Deploy.Document.{Metadata, App}
use orch.Meta.{Assignment, Binding, deploy_app_map_key}
use orch.Raft.State.{DeployAppRevision, Fsm}
use orch.Raft.Json.{Bytes, Json}
use orch.Raft.Normalize.{normalize_assignment, normalize_volume_binding}
use orch.Raft.Normalize.Keys.{normalize_assignment-IsKey, normalize_volume_binding-IsKey}
use orch.Raft.Revisions.{list_or_empty, app_generation}
use orch.Raft.Revisions.History.{last?-append_deploy_app_revision, append_deploy_app_revision_ne}
use orch.Raft.Lookup.{
  get_deploy_app, list_deploy_app_revisions, previous_deploy_app, get_assignment,
  get_volume_binding,
}
use orch.Raft.Fsm.{
  cmd_upsert_deploy_app, cmd_delete_deploy_app, cmd_upsert_workload_assignment,
  cmd_upsert_volume_binding, count_command, notify_deploy_changed, delete_app, store_assignment,
  store_binding, revise, store_app, apply_deploy_app, apply_delete_deploy_app,
  apply_workload_assignment, apply_volume_binding, dispatch, apply_payload_locked, payload_or_skip,
  update,
}

if_empty :
    (b : Bool) (o : Option (List DeployAppRevision))
    → reverse (list_or_empty (if b then none else o))
      ≡ (if b then [] else reverse (list_or_empty o))
if_empty true o = refl
if_empty false o = refl

module _ {F : Type 0} (json : Json F) where
  -- A log entry that is not empty and whose envelope has the type.
  pub record IsCommand (cmd : Bytes) (t : String) : Type 0 where
    pub not_nil : cmd ≢ []
    pub typed : json.decode_command_type cmd ≡ some t

  payload-of_not_nil :
      (cmd : Bytes) (f : Fsm F)
      → cmd ≢ []
      → payload_or_skip json cmd f ≡ apply_payload_locked json cmd f
  unfolding payload_or_skip
  payload-of_not_nil [] f h = absurd (h refl)
  payload-of_not_nil (b ∷ bs) f h = refl

  pub update-dispatch :
      (cmd : Bytes) (t : String) (f : Fsm F)
      → IsCommand cmd t
      → (update json cmd f).0 ≡ dispatch json (some t) cmd (count_command f)
  unfolding update apply_payload_locked
  update-dispatch cmd t f c =
      rw (payload-of_not_nil cmd (count_command f) c.not_nil) (rw c.typed refl)

  update_app :
      (cmd : Bytes) (app : App) (f : Fsm F)
      → IsCommand cmd cmd_upsert_deploy_app
      → json.decode_app cmd ≡ some app
      → (update json cmd f).0 ≡ store_app json app (count_command f)
  update_app cmd app f c d =
      rw (update-dispatch cmd cmd_upsert_deploy_app f c)
        (unfold dispatch apply_deploy_app in rw d refl)

  update_delete :
      (cmd : Bytes) (m : Metadata) (f : Fsm F)
      → IsCommand cmd cmd_delete_deploy_app
      → json.decode_metadata cmd ≡ some m
      → (update json cmd f).0 ≡ delete_app m (count_command f)
  update_delete cmd m f c d =
      rw (update-dispatch cmd cmd_delete_deploy_app f c)
        (unfold dispatch apply_delete_deploy_app in rw d refl)

  update_assignment :
      (cmd : Bytes) (a : Assignment) (f : Fsm F)
      → IsCommand cmd cmd_upsert_workload_assignment
      → json.decode_assignment cmd ≡ some a
      → (update json cmd f).0 ≡ store_assignment (normalize_assignment a) (count_command f)
  update_assignment cmd a f c d =
      rw (update-dispatch cmd cmd_upsert_workload_assignment f c)
        (unfold dispatch apply_workload_assignment in rw d refl)

  update_binding :
      (cmd : Bytes) (b : Binding) (f : Fsm F)
      → IsCommand cmd cmd_upsert_volume_binding
      → json.decode_binding cmd ≡ some b
      → (update json cmd f).0 ≡ store_binding (normalize_volume_binding b) (count_command f)
  update_binding cmd b f c d =
      rw (update-dispatch cmd cmd_upsert_volume_binding f c)
        (unfold dispatch apply_volume_binding in rw d refl)

  revise_leaves :
      (key k : String) (o : Option App) (app : App) (table : GoMap (List DeployAppRevision))
      → (key ≢ k)
        ⊎ ((old : App) × (o ≡ some old) × (app_generation json old ≡ app_generation json app))
      → GoMap.lookup k (revise json key o app table) ≡ GoMap.lookup k table
  unfolding revise
  revise_leaves key k none app table why = refl
  revise_leaves key k (some current) app table why =
      elim (Bool-cases (app_generation json current == app_generation json app)) [
        | inl same ↦ rw same refl
        | inr new ↦ rw new (elim why [
          | inl other ↦
              append_deploy_app_revision_ne json key k current table (ground (arith, eq_iff key k))
          | inr (old, stored, same) ↦ absurd (
              let q : app_generation json current ≡ app_generation json app = cc (stored, same) in
              ground (arith, eq_iff (app_generation json current) (app_generation json app)))
        ])
      ]

  ne_test : (s : String) → s ≢ "" → (s == "") ≡ false
  ne_test s h = ground (arith, eq_iff s "")

  module _ (cmd : Bytes) (app : App) (f : Fsm F) (c : IsCommand cmd cmd_upsert_deploy_app)
      (d : json.decode_app cmd ≡ some app) (named : trim_space app.metadata.name ≢ "") where
    -- After an upsert of an app whose name is not blank, a read under the app's key finds the app, and
    -- any other read what it found before.
    pub get_deploy_app-update :
        (m : Metadata)
        → get_deploy_app m (update json cmd f).0 ≡ (
            if deploy_app_map_key app.metadata == deploy_app_map_key m
            then some app
            else get_deploy_app m f)
    unfolding get_deploy_app
    get_deploy_app-update m = rw (update_app cmd app f c d) (
        unfold store_app notify_deploy_changed count_command in
        rw (ne_test (trim_space app.metadata.name) named) (
          lookup-insert (deploy_app_map_key app.metadata) (deploy_app_map_key m) app
            f.state.deploy_apps))

    -- After an upsert, of an app whose name is not blank, that changes the stored generation, the
    -- previous deploy app is of the generation that was stored before, if that one is not blank.
    pub previous_deploy_app-update :
        (old : App)
        → get_deploy_app app.metadata f ≡ some old
        → app_generation json old ≢ app_generation json app
        → trim_space (app_generation json old) ≢ ""
        → (r : DeployAppRevision) × (previous_deploy_app app.metadata (update json cmd f).0
            ≡ some r)
          × (r.generation ≡ app_generation json old)
    unfolding get_deploy_app previous_deploy_app
    previous_deploy_app-update old stored changed marked =
        let differs : (app_generation json old == app_generation json app) ≡ false =
          ground (arith, eq_iff (app_generation json old) (app_generation json app)) in
        rw (update_app cmd app f c d) (
          unfold store_app notify_deploy_changed count_command revise in
          rw (ne_test (trim_space app.metadata.name) named) (
            rw stored (
              rw differs (
                last?-append_deploy_app_revision json (deploy_app_map_key app.metadata) old
                  f.state.deploy_app_revisions marked))))

    -- An upsert, of an app whose name is not blank, of the stored generation again or under another
    -- key leaves an app's history alone.
    pub list_deploy_app_revisions-update :
        (m : Metadata)
        → (deploy_app_map_key app.metadata ≢ deploy_app_map_key m)
          ⊎ ((old : App) × (get_deploy_app app.metadata f ≡ some old)
              × (app_generation json old ≡ app_generation json app))
        → list_deploy_app_revisions m (update json cmd f).0 ≡ list_deploy_app_revisions m f
    unfolding get_deploy_app list_deploy_app_revisions
    list_deploy_app_revisions-update m why = rw (update_app cmd app f c d) (
        unfold store_app notify_deploy_changed count_command in
        rw (ne_test (trim_space app.metadata.name) named) (
          ap (λ o. reverse (list_or_empty o))
            (revise_leaves (deploy_app_map_key app.metadata) (deploy_app_map_key m)
              (GoMap.lookup (deploy_app_map_key app.metadata) f.state.deploy_apps) app
              f.state.deploy_app_revisions why)))

  module _ (cmd : Bytes) (m : Metadata) (f : Fsm F) (c : IsCommand cmd cmd_delete_deploy_app)
      (d : json.decode_metadata cmd ≡ some m) (named : trim_space m.name ≢ "") where
    -- After a delete by a name that is not blank nothing is found under the key, neither the app nor
    -- its history, and what is found under other keys is as before.
    pub delete_forgets :
        (n : Metadata)
        → (get_deploy_app n (update json cmd f).0
            ≡ (if deploy_app_map_key m == deploy_app_map_key n then none else get_deploy_app n f))
          × (list_deploy_app_revisions n (update json cmd f).0 ≡ (
              if deploy_app_map_key m == deploy_app_map_key n
              then []
              else list_deploy_app_revisions n f))
    unfolding get_deploy_app list_deploy_app_revisions
    delete_forgets n = rw (update_delete cmd m f c d) (
        unfold delete_app notify_deploy_changed count_command in
        rw (ne_test (trim_space m.name) named) (
          lookup-delete (deploy_app_map_key m) (deploy_app_map_key n) f.state.deploy_apps,
          rw lookup-delete (
              if_empty (deploy_app_map_key m == deploy_app_map_key n)
                (GoMap.lookup (deploy_app_map_key n) f.state.deploy_app_revisions)),
        ))

  module _ (cmd : Bytes) (a b : Assignment) (f : Fsm F)
      (c : IsCommand cmd cmd_upsert_workload_assignment) (d : json.decode_assignment cmd ≡ some a)
      (n : normalize_assignment a ≡ some b) where
    lookup_assignment :
        (k : String)
        → get_assignment k (update json cmd f).0
          ≡ (if b.key == trim_space k then some b else get_assignment k f)
    unfolding get_assignment
    lookup_assignment k = rw (update_assignment cmd a f c d) (
        unfold store_assignment count_command in
        rw n (lookup-insert b.key (trim_space k) b f.state.assignments))

    -- An assignment that is complete is read back under its key, and reads of other keys find what
    -- they found before.
    pub get_assignment-update :
        (get_assignment b.key (update json cmd f).0 ≡ some b)
        × ((k : String)
            → trim_space k ≢ b.key
            → get_assignment k (update json cmd f).0 ≡ get_assignment k f)
    get_assignment-update = (
      (let key = trim_space-of_IsTrimmed b.key (normalize_assignment-IsKey a b n).trimmed in
          ground (arith, lookup_assignment b.key, eq_iff b.key (trim_space b.key))),
      λ k other. ground (arith, lookup_assignment k, eq_iff b.key (trim_space k)),
    )

  module _ (cmd : Bytes) (a b : Binding) (f : Fsm F) (c : IsCommand cmd cmd_upsert_volume_binding)
      (d : json.decode_binding cmd ≡ some a) (n : normalize_volume_binding a ≡ some b) where
    lookup_binding :
        (k : String)
        → get_volume_binding k (update json cmd f).0
          ≡ (if b.key == trim_space k then some b else get_volume_binding k f)
    unfolding get_volume_binding
    lookup_binding k = rw (update_binding cmd a f c d) (
        unfold store_binding count_command in
        rw n (lookup-insert b.key (trim_space k) b f.state.volume_bindings))

    -- A volume binding that is complete is read back under its key, and reads of other keys find what
    -- they found before.
    pub get_volume_binding-update :
        (get_volume_binding b.key (update json cmd f).0 ≡ some b)
        × ((k : String)
            → trim_space k ≢ b.key
            → get_volume_binding k (update json cmd f).0 ≡ get_volume_binding k f)
    get_volume_binding-update = (
      (let key = trim_space-of_IsTrimmed b.key (normalize_volume_binding-IsKey a b n).trimmed in
          ground (arith, lookup_binding b.key, eq_iff b.key (trim_space b.key))),
      λ k other. ground (arith, lookup_binding k, eq_iff b.key (trim_space k)),
    )
