-- ===== src/Deploy/Validate/Runtime.antt =====
-- internal/deploy/v1alpha1/validate_runtime.go: what each runtime needs of a workload's run section.
use orch.Prelude.{
  String, Bool, false, not, ◌&&◌, ◌||◌, Option, none, some, List, [], ◌∷◌, ◌==◌, if◌then◌else◌,
}
use orch.Prelude.Int.{pos, ltb_ℤ}
use orch.Prelude.Text.{trim_space}
use orch.Deploy.Document.{FirecrackerOptions, Workload}
use orch.Deploy.Constants.{
  runtime_docker, runtime_containerd, runtime_podman, runtime_firecracker, runtime_process,
  runtime_systemd, runtime_windows_service,
}
use orch.Deploy.Errors.{
  Check, reject, ◌<|>◌, image_required, firecracker_required, kernel_image_path_required,
  rootfs_path_required, tap_device_name_required, guest_mac_invalid, vcpu_count_negative,
  mem_size_mib_negative, exec_or_path_required,
}
use orch.Deploy.Libraries.{Libraries}

abbrev pub is_blank : String → Bool
is_blank s = trim_space s == ""

abbrev pub is_image_runtime : String → Bool
is_image_runtime r = r == runtime_docker || (r == runtime_containerd || r == runtime_podman)

abbrev pub is_exec_runtime : String → Bool
is_exec_runtime r = r == runtime_process || (r == runtime_systemd || r == runtime_windows_service)

unfoldable pub validate_image_runtime : Workload → Check
validate_image_runtime w = reject (is_blank w.run.artifact.image) (image_required w.runtime)

unfoldable pub validate_firecracker_kernel : FirecrackerOptions → Check
validate_firecracker_kernel opts =
    reject (is_blank opts.kernel_image_path) kernel_image_path_required

unfoldable pub validate_firecracker_rootfs : FirecrackerOptions → Check
validate_firecracker_rootfs opts = reject (is_blank opts.rootfs_path) rootfs_path_required

unfoldable pub validate_firecracker_capacity : FirecrackerOptions → Check
validate_firecracker_capacity opts =
    reject (ltb_ℤ opts.vcpu_count (pos 0)) vcpu_count_negative
    <|> reject (ltb_ℤ opts.mem_size_mib (pos 0)) mem_size_mib_negative

unfoldable pub has_firecracker_network_fields : FirecrackerOptions → Bool
has_firecracker_network_fields opts =
    not (is_blank opts.network_interface_id)
    || (not (is_blank opts.tap_device_name)
        || (not (is_blank opts.guest_mac) || opts.allow_mmds_requests))

abbrev no_command : List String → Bool
no_command [] = Bool.true
no_command (c ∷ cs) = false

unfoldable pub validate_exec_runtime : Workload → Check
validate_exec_runtime w =
    reject (no_command w.run.exec.command && is_blank w.run.artifact.path)
      (exec_or_path_required w.runtime)

module _ {S G : Type 0} (lib : Libraries S G) where
  unfoldable pub validate_firecracker_guest_mac : FirecrackerOptions → Check
  validate_firecracker_guest_mac opts =
      let mac = trim_space opts.guest_mac in
      if mac == "" then none else reject (not (lib.parse_mac mac)) (guest_mac_invalid mac)

  unfoldable pub validate_firecracker_network : FirecrackerOptions → Check
  unfolding has_firecracker_network_fields validate_firecracker_guest_mac
  validate_firecracker_network opts =
      if not (has_firecracker_network_fields opts)
      then none
      else (reject (is_blank opts.tap_device_name) tap_device_name_required
          <|> validate_firecracker_guest_mac opts)

  firecracker_options : Option FirecrackerOptions → String → Check
  unfolding validate_firecracker_kernel validate_firecracker_rootfs validate_firecracker_network
      validate_firecracker_capacity
  firecracker_options none runtime = some (firecracker_required runtime)
  firecracker_options (some opts) runtime =
      validate_firecracker_kernel opts
      <|> validate_firecracker_rootfs opts
      <|> validate_firecracker_network opts
      <|> validate_firecracker_capacity opts

  unfoldable pub validate_firecracker_runtime : Workload → Check
  unfolding firecracker_options
  validate_firecracker_runtime w = firecracker_options w.run.options.firecracker w.runtime

  unfoldable pub validate_run_for_runtime : Workload → Check
  unfolding validate_image_runtime validate_firecracker_runtime validate_exec_runtime
  validate_run_for_runtime w =
      if is_image_runtime w.runtime
      then validate_image_runtime w
      else if w.runtime == runtime_firecracker
      then validate_firecracker_runtime w
      else if is_exec_runtime w.runtime
      then validate_exec_runtime w
      else none
