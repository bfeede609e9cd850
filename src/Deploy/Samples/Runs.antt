-- ===== src/Deploy/Samples/Runs.antt =====
-- Runs of the validators of internal/deploy/v1alpha1 on the sample document.
use orch.Prelude.{[], ◌∷◌, none, map, ◌≡◌, refl}
use orch.Deploy.Validate.Runtime
use orch.Deploy.Validate.Endpoints
use orch.Deploy.Validate.Health
use orch.Deploy.Validate.Lifecycle
use orch.Deploy.Validate.Workloads
use orch.Deploy.Validate.Apps
use orch.Deploy.Dependencies
use orch.Deploy.Names
use orch.Deploy.Validate.Apps.{validate}
use orch.Prelude.Text.{trim_space}
use orch.Prelude.Lists.{first_error}
use orch.Prelude.GoMap
use orch.Deploy.Validate.Accepted.{IsAccepted, validate-IsAccepted}
use orch.Prelude.Members.{Distinct}
use orch.Deploy.Validate.Registered.{names_of}
use orch.Deploy.Validate.Keys.{validate-Distinct_keys}
use orch.Deploy.Dependencies.{ok, workloads_in_dependency_order}
use mathlib.Core.List.{Memᴰ}
use orch.Deploy.Document.{Workload}
use orch.Deploy.Libraries.{Precedes}
use orch.Deploy.Dependencies.Order.{trimmed_names, workloads_in_dependency_order-Precedes}
use orch.Deploy.Samples.Graphs.{HasEdge, list_graph_laws}
use orch.Meta.{assignment_key}
use orch.Deploy.Samples.{list_libraries, list_set_laws, shop_app, workload_named}

abbrev pub web_workload : Workload
web_workload = workload_named "web" ((record { name = "db"; condition = "" }) ∷ [])

pub shop_app_valid : validate list_libraries shop_app ≡ none
unfolding Runtime.validate_image_runtime Runtime.validate_firecracker_kernel
    Runtime.validate_firecracker_rootfs Runtime.validate_firecracker_capacity
    Runtime.has_firecracker_network_fields Runtime.validate_exec_runtime
    Runtime.validate_firecracker_guest_mac Runtime.validate_firecracker_network
    Runtime.validate_firecracker_runtime Runtime.validate_run_for_runtime Endpoints.validate_name
    Endpoints.validate_endpoint_port Endpoints.validate_protocol Endpoints.validate_endpoint_host_ip
    Endpoints.validate Health.probe_endpoint_protocol_matches Health.find_first
    Health.first_probe_endpoint Health.endpoint_by_name Health.has_probe_endpoint
    Health.validate_default_probe_endpoint Health.validate_probe_endpoint Health.validate_probe_port
    Health.validate_http_probe Health.validate_tcp_probe Health.probe_kind_count
    Health.validate_probe_kind Health.validate_probe_duration Health.validate_probe_timing
    Health.validate_probe Health.validate_health Lifecycle.validate_restart_policy
    Lifecycle.effective_strategy Lifecycle.rollback_on_failure_enabled Lifecycle.is_rollout_strategy
    Lifecycle.validate_lifecycle Lifecycle.progress_deadline_duration Lifecycle.validate_rollout
    Workloads.validate_kind Workloads.validate_runtime Workloads.validate_env
    Workloads.validate_replica_count Workloads.validate_resources Workloads.validate_name
    Workloads.validate_fields Workloads.validate Workloads.validate_from Apps.validate_metadata
    Apps.workload_map_by_name Apps.validate_workload_dependency_condition
    Apps.validate_workload_dependency_conditions Apps.validate_workload_mounts Apps.wrap_endpoint
    Apps.validate_workload_endpoints_all Apps.validate_workload_depends
    Apps.validate_workload_cross_refs Apps.validate_route Apps.validate_ingress_one
    Apps.validate_ingresses Apps.validate Dependencies.normalize_dependency_condition
    Dependencies.effective_condition Dependencies.is_dependency_condition
    Dependencies.workload_kind_can_complete Dependencies.add_workload_dependency_node
    Dependencies.add_nodes_from Dependencies.add_workload_dependency_nodes
    Dependencies.add_workload_dependency_edge Dependencies.add_refs_from
    Dependencies.add_workload_dependency_edges_for_workload Dependencies.add_edges_from
    Dependencies.build_workload_dependency_graph Dependencies.workloads_of_ids
    Dependencies.ordered_workloads Dependencies.workloads_in_dependency_order Names.is_name_char
    Names.name_re trim_space first_error GoMap.lookup GoMap.insert
shop_app_valid = refl

validate-IsAccepted_example : IsAccepted list_libraries list_set_laws shop_app
validate-IsAccepted_example =
    validate-IsAccepted list_libraries list_set_laws shop_app shop_app_valid

validate-Distinct_keys_example :
    Distinct (map (assignment_key shop_app.metadata) (names_of shop_app.workloads))
validate-Distinct_keys_example =
    validate-Distinct_keys list_libraries list_set_laws shop_app shop_app_valid

pub shop_app_ordered :
    workloads_in_dependency_order list_libraries shop_app
    ≡ ok (workload_named "db" [] ∷ web_workload ∷ [])
unfolding Dependencies.normalize_dependency_condition Dependencies.effective_condition
    Dependencies.is_dependency_condition Dependencies.workload_kind_can_complete
    Dependencies.add_workload_dependency_node Dependencies.add_nodes_from
    Dependencies.add_workload_dependency_nodes Dependencies.add_workload_dependency_edge
    Dependencies.add_refs_from Dependencies.add_workload_dependency_edges_for_workload
    Dependencies.add_edges_from Dependencies.build_workload_dependency_graph
    Dependencies.workloads_of_ids Dependencies.ordered_workloads
    Dependencies.workloads_in_dependency_order trim_space
shop_app_ordered = refl

-- `db` comes before `web`, although it stands after it in the document.
workloads_in_dependency_order-Precedes_example :
    Precedes
      (trim_space "db")
      (trim_space "web")
      (trimmed_names (workload_named "db" [] ∷ web_workload ∷ []))
workloads_in_dependency_order-Precedes_example =
    workloads_in_dependency_order-Precedes list_libraries HasEdge list_graph_laws shop_app
      (workload_named "db" [] ∷ web_workload ∷ []) shop_app_ordered web_workload
      (record { name = "db"; condition = "" }) (Memᴰ.head refl) (Memᴰ.head refl)
