-- ===== src/Raft/Samples/Runs.antt =====
-- Runs of the state machine of internal/raftsvc/fsm.go on the sample machine.
use orch.Prelude.{
  String, none, some, List, [], ◌∷◌, ◌≡◌, ◌≢◌, refl, inr, arith, eq_iff, ◌==◌, if◌then◌else◌, ◌%◌,
  ◌+◌,
}
use orch.Prelude.Text.{trim_space}
use orch.Prelude.Lists.{length}
use orch.Prelude.GoMap
use orch.Prelude.GoMap.{GoMap, SameReads-refl}
use orch.Meta.{
  Assignment, Binding, namespace_or_default, deploy_app_map_key, assignment_key, binding_key,
}
use orch.Raft.State.{DeployAppRevision, uint64_mod}
use orch.Raft.Json.{Bytes}
use orch.Raft.Normalize.{normalize_assignment, normalize_volume_binding}
use orch.Raft.Revisions.{app_generation}
use orch.Raft.Fsm.{
  cmd_upsert_deploy_app, cmd_delete_deploy_app, cmd_upsert_workload_assignment,
  cmd_upsert_volume_binding, update, replay,
}
use orch.Raft.Fsm.Reads.{
  IsCommand, get_deploy_app-update, previous_deploy_app-update, list_deploy_app_revisions-update,
  delete_forgets, get_assignment-update, get_volume_binding-update,
}
use orch.Raft.Fsm.WellFormed.{IsWellFormed, replay-IsWellFormed, empty_state-IsWellFormed}
use orch.Raft.Fsm.Refusals.{replay-applied_commands}
use orch.Raft.Lookup.{
  get_deploy_app, list_deploy_app_revisions, previous_deploy_app, get_assignment,
  get_volume_binding,
}
use orch.Raft.Samples.{
  shop, blog, app_of_size, shop_web, shop_data, toy_json, new_fsm, fsm_with_shop,
}

stored_shop : get_deploy_app shop fsm_with_shop ≡ some (app_of_size shop 0)
unfolding get_deploy_app GoMap.lookup deploy_app_map_key namespace_or_default trim_space
stored_shop = refl

shop_named : trim_space "shop" ≢ ""
unfolding trim_space
shop_named = ground (arith, eq_iff "shop" "")

upsert_shop : IsCommand toy_json (1 ∷ 1 ∷ []) cmd_upsert_deploy_app
upsert_shop = record { not_nil = λ p. cc; typed = refl }

upsert_shop_again : IsCommand toy_json (1 ∷ 0 ∷ []) cmd_upsert_deploy_app
upsert_shop_again = record { not_nil = λ p. cc; typed = refl }

delete_shop : IsCommand toy_json (2 ∷ 0 ∷ []) cmd_delete_deploy_app
delete_shop = record { not_nil = λ p. cc; typed = refl }

upsert_web : IsCommand toy_json (3 ∷ 0 ∷ []) cmd_upsert_workload_assignment
upsert_web = record { not_nil = λ p. cc; typed = refl }

upsert_data : IsCommand toy_json (4 ∷ 0 ∷ []) cmd_upsert_volume_binding
upsert_data = record { not_nil = λ p. cc; typed = refl }

generation_changed :
    app_generation toy_json (app_of_size shop 0) ≢ app_generation toy_json (app_of_size shop 1)
unfolding app_generation namespace_or_default trim_space
generation_changed = ground (arith, eq_iff "gen-0" "gen-1")

generation_marked : trim_space (app_generation toy_json (app_of_size shop 0)) ≢ ""
unfolding app_generation namespace_or_default trim_space
generation_marked = ground (arith, eq_iff "gen-0" "")

get_deploy_app-update_example :
    get_deploy_app blog (update toy_json (1 ∷ 1 ∷ []) fsm_with_shop).0 ≡ (
      if deploy_app_map_key shop == deploy_app_map_key blog
      then some (app_of_size shop 1)
      else get_deploy_app blog fsm_with_shop)
get_deploy_app-update_example =
    get_deploy_app-update toy_json (1 ∷ 1 ∷ []) (app_of_size shop 1) fsm_with_shop upsert_shop refl
      shop_named blog

previous_deploy_app-update_example :
    (r : DeployAppRevision) × (previous_deploy_app shop
        (update toy_json (1 ∷ 1 ∷ []) fsm_with_shop).0
      ≡ some r)
    × (r.generation ≡ app_generation toy_json (app_of_size shop 0))
previous_deploy_app-update_example =
    previous_deploy_app-update toy_json (1 ∷ 1 ∷ []) (app_of_size shop 1) fsm_with_shop upsert_shop
      refl shop_named (app_of_size shop 0) stored_shop generation_changed generation_marked

list_deploy_app_revisions-update_example :
    list_deploy_app_revisions shop (update toy_json (1 ∷ 0 ∷ []) fsm_with_shop).0
    ≡ list_deploy_app_revisions shop fsm_with_shop
list_deploy_app_revisions-update_example =
    list_deploy_app_revisions-update toy_json (1 ∷ 0 ∷ []) (app_of_size shop 0) fsm_with_shop
      upsert_shop_again refl shop_named shop (inr (app_of_size shop 0, stored_shop, refl))

delete_forgets_example :
    (get_deploy_app shop (update toy_json (2 ∷ 0 ∷ []) fsm_with_shop).0 ≡ (
      if deploy_app_map_key shop == deploy_app_map_key shop
      then none
      else get_deploy_app shop fsm_with_shop))
    × (list_deploy_app_revisions shop (update toy_json (2 ∷ 0 ∷ []) fsm_with_shop).0 ≡ (
        if deploy_app_map_key shop == deploy_app_map_key shop
        then []
        else list_deploy_app_revisions shop fsm_with_shop))
delete_forgets_example =
    delete_forgets toy_json (2 ∷ 0 ∷ []) shop fsm_with_shop delete_shop refl shop_named shop

abbrev filed_web : Assignment
filed_web = record shop_web { workload = "web"; key = "default/shop/web" }

web_complete : normalize_assignment shop_web ≡ some filed_web
unfolding normalize_assignment assignment_key namespace_or_default trim_space
web_complete = refl

abbrev filed_data : Binding
filed_data = record shop_data { key = "default/shop/web/data" }

data_complete : normalize_volume_binding shop_data ≡ some filed_data
unfolding normalize_volume_binding binding_key namespace_or_default trim_space
data_complete = refl

get_assignment-update_example :
    (get_assignment "default/shop/web" (update toy_json (3 ∷ 0 ∷ []) fsm_with_shop).0
      ≡ some filed_web)
    × ((k : String)
        → trim_space k ≢ "default/shop/web"
        → get_assignment k (update toy_json (3 ∷ 0 ∷ []) fsm_with_shop).0
          ≡ get_assignment k fsm_with_shop)
get_assignment-update_example =
    get_assignment-update toy_json (3 ∷ 0 ∷ []) shop_web filed_web fsm_with_shop upsert_web refl
      web_complete

get_volume_binding-update_example :
    (get_volume_binding "default/shop/web/data" (update toy_json (4 ∷ 0 ∷ []) fsm_with_shop).0
      ≡ some filed_data)
    × ((k : String)
        → trim_space k ≢ "default/shop/web/data"
        → get_volume_binding k (update toy_json (4 ∷ 0 ∷ []) fsm_with_shop).0
          ≡ get_volume_binding k fsm_with_shop)
get_volume_binding-update_example =
    get_volume_binding-update toy_json (4 ∷ 0 ∷ []) shop_data filed_data fsm_with_shop upsert_data
      refl data_complete

abbrev sample_log : List Bytes
sample_log = (0 ∷ 0 ∷ []) ∷ (1 ∷ 0 ∷ []) ∷ (1 ∷ 1 ∷ []) ∷ (9 ∷ []) ∷ (3 ∷ 0 ∷ []) ∷ []

replay-IsWellFormed_example : IsWellFormed toy_json (replay toy_json sample_log new_fsm).state
replay-IsWellFormed_example =
    replay-IsWellFormed toy_json sample_log new_fsm (empty_state-IsWellFormed toy_json)

replay-applied_commands_example :
    (replay toy_json sample_log new_fsm).state.applied_commands
    ≡ (0 + length sample_log) % uint64_mod
replay-applied_commands_example = replay-applied_commands toy_json sample_log new_fsm (omega arith)
