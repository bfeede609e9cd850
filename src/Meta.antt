-- ===== src/Meta.antt =====
-- internal/workloadmeta and internal/volumemeta: the records that the scheduler replicates and the
-- keys under which they are stored. time.Time is the number of nanoseconds since the zero time.
pub mod Keys
mod Samples
use orch.Prelude.{ℕ, String, Bool, Option, none, some, ◌||◌, ◌==◌, if◌then◌else◌}
use Prim.Native.String.{◌++◌}
use orch.Prelude.Int.{ℤ}
use orch.Prelude.Text.{trim_space}
use orch.Deploy.Document.{Metadata, RuntimeKind}

pub record Assignment : Type 0 where
  pub key : String
  pub metadata : Metadata
  pub workload : String
  pub node : String
  pub address : String
  pub runtime : RuntimeKind
  pub artifact : String
  pub status : String
  pub generation : String
  pub error : String
  pub updated_at : ℕ

pub record Binding : Type 0 where
  pub key : String
  pub metadata : Metadata
  pub volume : String
  pub workload : String
  pub target : String
  pub node : String
  pub runtime : RuntimeKind
  pub source : String
  pub persistent : Bool
  pub size_bytes : ℤ
  pub status : String
  pub generation : String
  pub error : String
  pub updated_at : ℕ

-- The namespace as keys spell it; lo.CoalesceOrEmpty takes the first text that is not empty.
unfoldable pub namespace_or_default : String → String
namespace_or_default namespace = let ns = trim_space namespace in if ns == "" then "default" else ns

unfoldable pub assignment_key : Metadata → String → String
unfolding namespace_or_default
assignment_key meta workload_name =
    let app = trim_space meta.name in
    let workload = trim_space workload_name in
    if app == "" || workload == ""
    then ""
    else namespace_or_default meta.namespace ++ "/" ++ app ++ "/" ++ workload

unfoldable pub binding_key : Metadata → String → String → String
unfolding namespace_or_default
binding_key meta workload_name volume_name =
    let app = trim_space meta.name in
    let workload = trim_space workload_name in
    let volume = trim_space volume_name in
    if app == "" || (workload == "" || volume == "")
    then ""
    else namespace_or_default meta.namespace ++ "/" ++ app ++ "/" ++ workload ++ "/" ++ volume

-- raftsvc's deployAppMapKey
unfoldable pub deploy_app_map_key : Metadata → String
unfolding namespace_or_default
deploy_app_map_key m = namespace_or_default m.namespace ++ "/" ++ trim_space m.name
