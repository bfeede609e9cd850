-- ===== src/Deploy/Errors.antt =====
-- The errors of internal/deploy/v1alpha1 as values: a constructor for each message, with what the
-- message quotes. A check returns `none` where the source returns nil.
use orch.Prelude.{ℕ, String, Bool, true, false, Option, none, some}
use orch.Prelude.Int.{ℤ}

pub data DeployError : Type 0 where
  -- oopsx Wrapf: the error of a part, behind its position
  at_workload : ℕ → DeployError → DeployError
  at_endpoint : ℕ → ℕ → DeployError → DeployError
  -- validate.go
  metadata_name_required : DeployError
  metadata_name_invalid : String → DeployError
  metadata_namespace_invalid : String → DeployError
  name_required : DeployError
  name_invalid : String → DeployError
  duplicate_workload_name : String → DeployError
  invalid_kind : String → DeployError
  invalid_runtime : String → DeployError
  env_name_required : ℕ → DeployError
  replicas_negative : DeployError
  cpu_millis_negative : DeployError
  memory_bytes_negative : DeployError
  rollout_strategy_invalid : String → DeployError
  max_unavailable_negative : DeployError
  max_surge_negative : DeployError
  progress_deadline_invalid : DeployError
  progress_deadline_not_positive : DeployError
  condition_invalid : ℕ → ℕ → String → DeployError
  completed_requires_job : ℕ → ℕ → DeployError
  mount_volume_required : ℕ → ℕ → DeployError
  mount_target_required : ℕ → ℕ → DeployError
  ingress_name_required : ℕ → DeployError
  route_path_required : ℕ → ℕ → DeployError
  route_backend_required : ℕ → ℕ → DeployError
  route_unknown_workload : ℕ → ℕ → String → DeployError
  -- validate_runtime.go
  image_required : String → DeployError
  firecracker_required : String → DeployError
  kernel_image_path_required : DeployError
  rootfs_path_required : DeployError
  tap_device_name_required : DeployError
  guest_mac_invalid : String → DeployError
  vcpu_count_negative : DeployError
  mem_size_mib_negative : DeployError
  exec_or_path_required : String → DeployError
  -- validate_lifecycle.go
  restart_policy_invalid : DeployError
  max_restarts_negative : DeployError
  restart_delay_invalid : DeployError
  -- validate_health.go; a text names the field
  probe_retries_negative : String → DeployError
  probe_duration_invalid : String → DeployError
  probe_kind_required : String → DeployError
  probe_kind_not_unique : String → DeployError
  probe_port_out_of_range : String → ℤ → DeployError
  probe_workload_mismatch : String → String → DeployError
  probe_unknown_endpoint : String → String → DeployError
  probe_protocol_mismatch : String → String → String → DeployError
  probe_endpoint_or_port_required : String → DeployError
  -- validate_endpoint.go
  port_out_of_range : String → ℤ → DeployError
  host_ip_invalid : String → DeployError
  invalid_protocol : String → DeployError
  -- dependency.go
  workload_name_required : ℕ → DeployError
  unknown_dependency : ℕ → ℕ → String → DeployError
  edge_refused : ℕ → ℕ → DeployError
  depends_on_cycle : DeployError
  graph_failed : DeployError

abbrev pub Check : Type 0
Check = Option DeployError

-- if cond { return err }
abbrev pub reject : Bool → DeployError → Check
reject true e = some e
reject false e = none

-- if err := first; err != nil { return err }; return next
infixr 25 ◌<|>◌
abbrev pub ◌<|>◌ : Check → Check → Check
none <|> next = next
some e <|> next = some e
