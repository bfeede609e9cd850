-- ===== src/Deploy/Document.antt =====
-- internal/deploy/v1alpha1/types.go: the canonical deploy document. A Go string type (WorkloadKind,
-- RuntimeKind, ...) stays a text, since a document can hold any; a pointer is an Option; a map is a
-- GoMap; int and int64 are integers.
use orch.Prelude.{String, Bool, Option, List}
use orch.Prelude.Int.{ℤ}
use orch.Prelude.GoMap.{GoMap}

pub record Metadata : Type 0 where
  pub name : String
  pub namespace : String
  pub labels : GoMap String
  pub annotations : GoMap String

abbrev pub WorkloadKind : Type 0
WorkloadKind = String

abbrev pub RuntimeKind : Type 0
RuntimeKind = String

pub record ArtifactSpec : Type 0 where
  pub image : String
  pub path : String
  pub url : String

pub record ExecSpec : Type 0 where
  pub command : List String
  pub args : List String

pub record EnvVar : Type 0 where
  pub name : String
  pub value : String

pub record DockerOptions : Type 0 where
  pub network_mode : String
  pub privileged : Bool
  pub labels : GoMap String

pub record ContainerdOptions : Type 0 where
  pub namespace : String

pub record FirecrackerOptions : Type 0 where
  pub kernel_image_path : String
  pub rootfs_path : String
  pub boot_args : String
  pub binary_path : String
  pub socket_path : String
  pub rootfs_read_only : Bool
  pub network_interface_id : String
  pub tap_device_name : String
  pub guest_mac : String
  pub allow_mmds_requests : Bool
  pub vcpu_count : ℤ
  pub mem_size_mib : ℤ

pub record ProcessOptions : Type 0 where
  pub graceful_stop_timeout : String
  pub stdout_path : String
  pub stderr_path : String

pub record SystemdOptions : Type 0 where
  pub unit_name : String
  pub user : String
  pub group : String
  pub restart : String
  pub restart_sec : String
  pub wanted_by : String

pub record WindowsServiceOptions : Type 0 where
  pub service_name : String
  pub display_name : String
  pub start_type : String

pub record RunOptions : Type 0 where
  pub docker : Option DockerOptions
  pub containerd : Option ContainerdOptions
  pub firecracker : Option FirecrackerOptions
  pub process : Option ProcessOptions
  pub systemd : Option SystemdOptions
  pub windows_service : Option WindowsServiceOptions

pub record RunSpec : Type 0 where
  pub artifact : ArtifactSpec
  pub exec : ExecSpec
  pub env : List EnvVar
  pub cwd : String
  pub user : String
  pub options : RunOptions

abbrev pub EndpointProto : Type 0
EndpointProto = String

pub record Endpoint : Type 0 where
  pub name : String
  pub port : ℤ
  pub protocol : EndpointProto
  pub host_port : ℤ
  pub host_ip : String

-- A reference to a workload's endpoint; the reference to a volume is its name.
pub record EndpointRef : Type 0 where
  pub workload : String
  pub endpoint : String

pub record VolumeRef : Type 0 where
  pub name : String

pub record Mount : Type 0 where
  pub volume : VolumeRef
  pub target : String
  pub read_only : Bool

pub record Resources : Type 0 where
  pub cpu_millis : ℤ
  pub memory_bytes : ℤ

pub record HttpProbe : Type 0 where
  pub path : String
  pub endpoint : EndpointRef
  pub port : ℤ

pub record TcpProbe : Type 0 where
  pub endpoint : EndpointRef
  pub port : ℤ

pub record Probe : Type 0 where
  pub http : Option HttpProbe
  pub tcp : Option TcpProbe
  pub interval : String
  pub timeout : String
  pub retries : ℤ
  pub start_period : String

pub record Health : Type 0 where
  pub readiness : Option Probe
  pub liveness : Option Probe
  pub startup : Option Probe

pub record Lifecycle : Type 0 where
  pub restart_policy : String
  pub max_restarts : ℤ
  pub restart_delay : String

pub record Scheduling : Type 0 where
  pub stateful : Bool
  pub allow_leader : Bool
  pub preferred_nodes : List String

pub record Rollout : Type 0 where
  pub strategy : String
  pub max_unavailable : ℤ
  pub max_surge : ℤ
  pub rollback_on_failure : Bool
  pub progress_deadline : String

abbrev pub DependencyCondition : Type 0
DependencyCondition = String

pub record WorkloadRef : Type 0 where
  pub name : String
  pub condition : DependencyCondition

pub record Workload : Type 0 where
  pub name : String
  pub kind : WorkloadKind
  pub run : RunSpec
  pub runtime : RuntimeKind
  pub replicas : ℤ
  pub depends_on : List WorkloadRef
  pub endpoints : List Endpoint
  pub mounts : List Mount
  pub resources : Option Resources
  pub health : Option Health
  pub lifecycle : Option Lifecycle
  pub scheduling : Option Scheduling
  pub rollout : Option Rollout

pub record Config : Type 0 where
  pub name : String
  pub entries : GoMap String

pub record Secret : Type 0 where
  pub name : String
  pub entries : GoMap String

pub record Volume : Type 0 where
  pub name : String
  pub persistent : Bool
  pub size_bytes : ℤ

pub record IngressRoute : Type 0 where
  pub path : String
  pub backend : EndpointRef

pub record Ingress : Type 0 where
  pub name : String
  pub host : String
  pub routes : List IngressRoute

pub record App : Type 0 where
  pub api_version : String
  pub kind : String
  pub metadata : Metadata
  pub workloads : List Workload
  pub configs : List Config
  pub secrets : List Secret
  pub volumes : List Volume
  pub ingresses : List Ingress
