-- ===== src/Deploy/Validate/Workloads.antt =====
-- internal/deploy/v1alpha1/validate.go: one workload, behind the set of the names seen before it.
use orch.Prelude.{ℕ, suc, not, ◌||◌, Option, none, some, List, [], ◌∷◌, ◌==◌, if◌then◌else◌}
use orch.Prelude.Int.{pos, ltb_ℤ}
use orch.Prelude.Text.{trim_space}
use orch.Prelude.Lists.{first_error}
use orch.Deploy.Document.{EnvVar, Resources, Workload}
use orch.Deploy.Constants.{
  kind_service, kind_worker, kind_job, kind_cron, kind_stateful, runtime_firecracker,
}
use orch.Deploy.Errors.{
  Check, reject, ◌<|>◌, name_required, name_invalid, duplicate_workload_name, invalid_kind,
  invalid_runtime, env_name_required, replicas_negative, cpu_millis_negative, memory_bytes_negative,
  at_workload,
}
use orch.Deploy.Names.{name_re}
use orch.Deploy.Libraries.{Libraries}
use orch.Deploy.Validate.Runtime.{is_image_runtime, is_exec_runtime, validate_run_for_runtime}
use orch.Deploy.Validate.Health.{validate_health}
use orch.Deploy.Validate.Lifecycle.{validate_lifecycle, validate_rollout}

unfoldable pub validate_kind : Workload → Check
validate_kind w =
    reject
      (not (
        w.kind == kind_service
        || (w.kind == kind_worker
            || (w.kind == kind_job || (w.kind == kind_cron || w.kind == kind_stateful)))))
      (invalid_kind w.kind)

unfoldable pub validate_runtime : Workload → Check
validate_runtime w =
    reject
      (not (
        is_image_runtime w.runtime
        || (w.runtime == runtime_firecracker || is_exec_runtime w.runtime)))
      (invalid_runtime w.runtime)

unfoldable pub validate_env : Workload → Check
unfolding first_error
validate_env w =
    first_error (λ i (env : EnvVar). reject (trim_space env.name == "") (env_name_required i)) 0
      w.run.env

unfoldable pub validate_replica_count : Workload → Check
validate_replica_count w = reject (ltb_ℤ w.replicas (pos 0)) replicas_negative

resource_checks : Option Resources → Check
resource_checks none = none
resource_checks (some r) =
    reject (ltb_ℤ r.cpu_millis (pos 0)) cpu_millis_negative
    <|> reject (ltb_ℤ r.memory_bytes (pos 0)) memory_bytes_negative

unfoldable pub validate_resources : Workload → Check
unfolding resource_checks
validate_resources w = resource_checks w.resources

module _ {S G : Type 0} (lib : Libraries S G) where
  -- `seen` is changed in place: the second part is the set after the call.
  unfoldable pub validate_name : Workload → S → Check × S
  validate_name w seen =
      if trim_space w.name == ""
      then (some name_required, seen)
      else if not (name_re w.name)
      then (some (name_invalid w.name), seen)
      else if lib.contains seen w.name
      then (some (duplicate_workload_name w.name), seen)
      else (none, lib.add w.name seen)

  -- The validators after the first, none of which reads or writes `seen`.
  unfoldable pub validate_fields : Workload → Check
  validate_fields w =
      validate_kind w
      <|> validate_runtime w
      <|> validate_run_for_runtime lib w
      <|> validate_env w
      <|> validate_replica_count w
      <|> validate_resources w
      <|> validate_health lib w
      <|> validate_lifecycle lib w
      <|> validate_rollout lib w

  unfoldable pub validate : Workload → S → Check × S
  unfolding validate_name validate_fields
  validate w seen = let (e, seen') = validate_name w seen in (e <|> validate_fields w, seen')

  -- The loop of App.Validate over the workloads.
  unfoldable pub validate_from : ℕ → List Workload → S → Check × S
  validate_from i [] seen = (none, seen)
  validate_from i (w ∷ ws) seen =
      let (e, seen') = validate w seen in
      let rest = validate_from (suc i) ws seen' in
      elim e [ none ↦ rest | some x ↦ (some (at_workload i x), seen') ]
