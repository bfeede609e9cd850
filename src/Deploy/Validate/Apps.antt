-- ===== src/Deploy/Validate/Apps.antt =====
-- internal/deploy/v1alpha1/validate.go: App.Validate and the checks across workloads.
use orch.Prelude.{
  ℕ, Bool, true, not, ◌&&◌, ◌||◌, Option, none, some, List, [], ◌∷◌, ◌==◌, if◌then◌else◌,
}
use orch.Prelude.Text.{trim_space}
use orch.Prelude.Lists.{first_error}
use orch.Prelude.GoMap
use orch.Prelude.GoMap.{GoMap}
use orch.Deploy.Document.{WorkloadRef, Mount, Endpoint, Ingress, IngressRoute, Workload, App}
use orch.Deploy.Constants.{condition_completed}
use orch.Deploy.Errors.{
  Check, reject, ◌<|>◌, metadata_name_required, metadata_name_invalid, metadata_namespace_invalid,
  condition_invalid, completed_requires_job, mount_volume_required, mount_target_required,
  at_endpoint, ingress_name_required, route_path_required, route_backend_required,
  route_unknown_workload,
}
use orch.Deploy.Names.{name_re}
use orch.Deploy.Libraries.{Libraries}
use orch.Deploy.Dependencies.{
  Result, ok, err, is_dependency_condition, effective_condition, workload_kind_can_complete,
  workloads_in_dependency_order,
}
use orch.Deploy.Validate.Endpoints
use orch.Deploy.Validate.Workloads.{validate_from}

unfoldable pub validate_metadata : App → Check
validate_metadata a =
    reject (trim_space a.metadata.name == "") metadata_name_required
    <|> reject (not (name_re a.metadata.name)) (metadata_name_invalid a.metadata.name)
    <|> reject (not (a.metadata.namespace == "") && not (name_re a.metadata.namespace))
        (metadata_namespace_invalid a.metadata.namespace)

-- A later workload replaces an earlier one of the same name.
map_from : List Workload → GoMap Workload → GoMap Workload
map_from [] m = m
map_from (w ∷ ws) m = map_from ws (GoMap.insert (trim_space w.name) w m)

unfoldable pub workload_map_by_name : App → GoMap Workload
unfolding map_from
workload_map_by_name a = map_from a.workloads (GoMap.made [])

can_complete : Option Workload → Bool
can_complete none = true
can_complete (some dep) = workload_kind_can_complete dep.kind

unfoldable pub validate_workload_dependency_condition : ℕ → ℕ → WorkloadRef → GoMap Workload → Check
unfolding can_complete
validate_workload_dependency_condition i j ref workloads =
    reject (not (is_dependency_condition ref.condition))
      (condition_invalid i j (trim_space ref.condition))
    <|> (if not (effective_condition ref == condition_completed)
        then none
        else reject (not (can_complete (GoMap.lookup (trim_space ref.name) workloads)))
            (completed_requires_job i j))

unfoldable pub validate_workload_dependency_conditions : App → Check
unfolding validate_workload_dependency_condition first_error workload_map_by_name
validate_workload_dependency_conditions a =
    let workloads = workload_map_by_name a in
    first_error
      (λ i (w : Workload).
        first_error
          (λ j (ref : WorkloadRef). validate_workload_dependency_condition i j ref workloads) 0
          w.depends_on)
      0 a.workloads

validate_mount : ℕ → ℕ → Mount → Check
validate_mount i j mount =
    reject (trim_space mount.volume.name == "") (mount_volume_required i j)
    <|> reject (trim_space mount.target == "") (mount_target_required i j)

unfoldable pub validate_workload_mounts : App → Check
unfolding first_error validate_mount
validate_workload_mounts a =
    first_error (λ i (w : Workload). first_error (λ j (m : Mount). validate_mount i j m) 0 w.mounts)
      0 a.workloads

unfoldable pub wrap_endpoint : ℕ → ℕ → Check → Check
wrap_endpoint i j none = none
wrap_endpoint i j (some e) = some (at_endpoint i j e)

module _ {S G : Type 0} (lib : Libraries S G) where
  unfoldable pub validate_workload_endpoints_all : App → Check
  unfolding first_error wrap_endpoint
  validate_workload_endpoints_all a =
      first_error
        (λ i (w : Workload).
          first_error (λ j (e : Endpoint). wrap_endpoint i j (Endpoints.validate lib e)) 0
            w.endpoints)
        0 a.workloads

  order_error : Result (List Workload) → Check
  order_error (ok ws) = none
  order_error (err e) = some e

  unfoldable pub validate_workload_depends : App → Check
  unfolding order_error
  validate_workload_depends a =
      order_error (workloads_in_dependency_order lib a)
      <|> validate_workload_dependency_conditions a

  unfoldable pub validate_workload_cross_refs : App → Check
  unfolding validate_workload_depends
  validate_workload_cross_refs a =
      validate_workload_depends a
      <|> validate_workload_mounts a
      <|> validate_workload_endpoints_all a

  unfoldable pub validate_route : ℕ → S → ℕ → IngressRoute → Check
  validate_route i seen j r =
      reject (trim_space r.path == "") (route_path_required i j)
      <|> reject (trim_space r.backend.workload == "" || trim_space r.backend.endpoint == "")
          (route_backend_required i j)
      <|> reject (not (lib.contains seen r.backend.workload))
          (route_unknown_workload i j r.backend.workload)

  unfoldable pub validate_ingress_one : ℕ → Ingress → S → Check
  unfolding validate_route first_error
  validate_ingress_one i ing seen =
      reject (trim_space ing.name == "") (ingress_name_required i)
      <|> first_error (validate_route i seen) 0 ing.routes

  unfoldable pub validate_ingresses : App → S → Check
  unfolding validate_ingress_one
  validate_ingresses a seen = first_error (λ i ing. validate_ingress_one i ing seen) 0 a.ingresses

  -- App.Validate
  unfoldable pub validate : App → Check
  unfolding validate_workload_cross_refs validate_ingresses
  validate a =
      let (workload_error, seen) = validate_from lib 0 a.workloads lib.new_set in
      validate_metadata a
      <|> workload_error
      <|> validate_workload_cross_refs a
      <|> validate_ingresses a seen
