-- ===== src/Deploy/Constants.antt =====
-- The constants of internal/deploy/v1alpha1/types.go: the texts that the validators accept.
use orch.Prelude.{String}

abbrev pub kind_service : String
kind_service = "service"

abbrev pub kind_worker : String
kind_worker = "worker"

abbrev pub kind_job : String
kind_job = "job"

abbrev pub kind_cron : String
kind_cron = "cron"

abbrev pub kind_stateful : String
kind_stateful = "stateful"

abbrev pub runtime_docker : String
runtime_docker = "docker"

abbrev pub runtime_containerd : String
runtime_containerd = "containerd"

abbrev pub runtime_podman : String
runtime_podman = "podman"

abbrev pub runtime_firecracker : String
runtime_firecracker = "firecracker"

abbrev pub runtime_process : String
runtime_process = "process"

abbrev pub runtime_systemd : String
runtime_systemd = "systemd"

abbrev pub runtime_windows_service : String
runtime_windows_service = "windows-service"

abbrev pub proto_tcp : String
proto_tcp = "tcp"

abbrev pub proto_udp : String
proto_udp = "udp"

abbrev pub proto_http : String
proto_http = "http"

abbrev pub restart_policy_always : String
restart_policy_always = "always"

abbrev pub restart_policy_on_failure : String
restart_policy_on_failure = "on-failure"

abbrev pub restart_policy_never : String
restart_policy_never = "never"

abbrev pub rollout_strategy_recreate : String
rollout_strategy_recreate = "recreate"

abbrev pub rollout_strategy_stop_before_start : String
rollout_strategy_stop_before_start = "stop-before-start"

abbrev pub rollout_strategy_rolling : String
rollout_strategy_rolling = "rolling"

abbrev pub condition_started : String
condition_started = "started"

abbrev pub condition_ready : String
condition_ready = "ready"

abbrev pub condition_completed : String
condition_completed = "completed"
