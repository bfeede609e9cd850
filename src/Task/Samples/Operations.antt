-- ===== src/Task/Samples/Operations.antt =====
-- A migration of the sample app, in a world that counts the workloads that run.
use orch.Prelude.{String, none, some, List, [], ◌∷◌, ◌≢◌, ◌⊎◌}
use orch.Prelude.Text.{trim_space}
use orch.Deploy.Samples.{list_libraries, shop_app}
use orch.Raft.Samples.{shop}
use orch.Task.Samples.Submit.{request_list}
use orch.Task.Samples.Moves.{counting}
use orch.Task.Operations.{AppOperationOptions, operation_app, submit_migrate}
use orch.Task.Operations.Migrated.{IsMigrated, submit_migrate_lem}

abbrev to_b : AppOperationOptions
to_b = record { target_node = " b"; workloads = "web" ∷ [] }

abbrev unsorted : List String → List String
unsorted names = names

submit_migrate_lem_example :
    ((submit_migrate counting request_list unsorted list_libraries
        (λ app. "gen-1")
        "a"
        (some (λ m. some shop_app))
        shop
        to_b
        0).1
      ≢ none)
    ⊎ ((trim_space " b" ≢ "")
        × IsMigrated counting request_list unsorted list_libraries
            (λ app. "gen-1")
            "a"
            (trim_space " b")
            ("web" ∷ [])
            (operation_app (some (λ m. some shop_app)) shop)
            0
            (submit_migrate counting request_list unsorted list_libraries
              (λ app. "gen-1")
              "a"
              (some (λ m. some shop_app))
              shop
              to_b
              0))
submit_migrate_lem_example =
    submit_migrate_lem counting request_list unsorted list_libraries (λ app. "gen-1") "a"
      (some (λ m. some shop_app)) shop to_b 0
