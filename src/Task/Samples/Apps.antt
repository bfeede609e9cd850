-- ===== src/Task/Samples/Apps.antt =====
-- The view of the sample app, of which no workload was assigned yet.
use orch.Prelude.{◌+◌, String, List, [], ◌∷◌, ◌≡◌, ◌≢◌, ◌↔◌, ◌==◌, if◌then◌else◌}
use orch.Prelude.Lists.{length, All}
use orch.Deploy.Samples.{list_libraries, shop_app}
use orch.Raft.Samples.{toy_json, new_fsm}
use orch.Task.Apps.{app_status_running, app_workloads_for_view, build_app_view}
use orch.Task.Apps.Counts.{IsRunning, build_app_view_lem}

abbrev first_text : List String → String
first_text [] = ""
first_text (s ∷ ss) = if s == "" then first_text ss else s

build_app_view_lem_example :
    ((build_app_view toy_json list_libraries first_text new_fsm shop_app).running
        + (build_app_view toy_json list_libraries first_text new_fsm shop_app).stopped
        + (build_app_view toy_json list_libraries first_text new_fsm shop_app).failed
        + (build_app_view toy_json list_libraries first_text new_fsm shop_app).pending
      ≡ length (app_workloads_for_view toy_json list_libraries first_text new_fsm shop_app))
    × (((build_app_view toy_json list_libraries first_text new_fsm shop_app).status
          ≡ app_status_running)
        ↔ ((length (app_workloads_for_view toy_json list_libraries first_text new_fsm shop_app) ≢ 0)
            × All IsRunning
                (build_app_view toy_json list_libraries first_text new_fsm shop_app).workloads))
build_app_view_lem_example = build_app_view_lem toy_json list_libraries first_text new_fsm shop_app
