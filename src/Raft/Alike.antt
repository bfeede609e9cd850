-- ===== src/Raft/Alike.antt =====
-- The replicated records up to what encoding/json keeps of them: a field of a map is omitted when the
-- map is nil or empty, and a map is written in the order of its keys, so that nested maps come back
-- with the same reads.
use orch.Prelude.{String, Option, none, some, ◌≡◌, refl, ap}
use orch.Prelude.GoMap.{GoMap, SameReads, SameReads-refl}
use orch.Prelude.Alike.{ListAlike, ListAlike-refl}
use orch.Deploy.Document.{Metadata, DockerOptions, Workload, Config, Secret, App}
use orch.Meta.{Assignment, Binding, namespace_or_default}
use orch.Raft.State.{DeployAppRevision}

pub record SameMetadata (m n : Metadata) : Type 0 where
  pub name : m.name ≡ n.name
  pub namespace : m.namespace ≡ n.namespace
  pub labels : SameReads m.labels n.labels
  pub annotations : SameReads m.annotations n.annotations

abbrev bare_metadata : Metadata → Metadata
bare_metadata m = record m { labels = GoMap.nil; annotations = GoMap.nil }

abbrev docker_labels : Option DockerOptions → GoMap String
docker_labels none = GoMap.nil
docker_labels (some d) = d.labels

abbrev bare_docker : Option DockerOptions → Option DockerOptions
bare_docker none = none
bare_docker (some d) = some (record d { labels = GoMap.nil })

-- The workload without the labels of its container.
abbrev bare_workload : Workload → Workload
bare_workload w = record w {
  run = record w.run {
    options = record w.run.options { docker = bare_docker w.run.options.docker };
  };
}

pub record SameWorkload (w v : Workload) : Type 0 where
  pub bare : bare_workload w ≡ bare_workload v
  pub labels : SameReads (docker_labels w.run.options.docker) (docker_labels v.run.options.docker)

pub record SameConfig (c d : Config) : Type 0 where
  pub name : c.name ≡ d.name
  pub entries : SameReads c.entries d.entries

pub record SameSecret (c d : Secret) : Type 0 where
  pub name : c.name ≡ d.name
  pub entries : SameReads c.entries d.entries

pub record SameApp (a b : App) : Type 0 where
  pub api_version : a.api_version ≡ b.api_version
  pub kind : a.kind ≡ b.kind
  pub metadata : SameMetadata a.metadata b.metadata
  pub workloads : ListAlike SameWorkload a.workloads b.workloads
  pub configs : ListAlike SameConfig a.configs b.configs
  pub secrets : ListAlike SameSecret a.secrets b.secrets
  pub volumes : a.volumes ≡ b.volumes
  pub ingresses : a.ingresses ≡ b.ingresses

pub record SameRevision (r s : DeployAppRevision) : Type 0 where
  pub generation : r.generation ≡ s.generation
  pub app : SameApp r.app s.app

pub record SameAssignment (a b : Assignment) : Type 0 where
  pub bare :
      record a { metadata = bare_metadata a.metadata }
      ≡ record b { metadata = bare_metadata b.metadata }
  pub metadata : SameMetadata a.metadata b.metadata

pub record SameBinding (a b : Binding) : Type 0 where
  pub bare :
      record a { metadata = bare_metadata a.metadata }
      ≡ record b { metadata = bare_metadata b.metadata }
  pub metadata : SameMetadata a.metadata b.metadata

pub SameMetadata-refl : (m : Metadata) → SameMetadata m m
SameMetadata-refl m = record {
  name = refl;
  namespace = refl;
  labels = SameReads-refl m.labels;
  annotations = SameReads-refl m.annotations;
}

pub SameApp-refl : (a : App) → SameApp a a
SameApp-refl a = record {
  api_version = refl;
  kind = refl;
  metadata = SameMetadata-refl a.metadata;
  workloads =
      ListAlike-refl SameWorkload (λ w. record { bare = refl; labels = SameReads-refl _ })
        a.workloads;
  configs =
      ListAlike-refl SameConfig (λ c. record { name = refl; entries = SameReads-refl c.entries })
        a.configs;
  secrets =
      ListAlike-refl SameSecret (λ c. record { name = refl; entries = SameReads-refl c.entries })
        a.secrets;
  volumes = refl;
  ingresses = refl;
}

pub SameRevision-refl : (r : DeployAppRevision) → SameRevision r r
SameRevision-refl r = record { generation = refl; app = SameApp-refl r.app }

pub SameAssignment-refl : (a : Assignment) → SameAssignment a a
SameAssignment-refl a = record { bare = refl; metadata = SameMetadata-refl a.metadata }

pub SameBinding-refl : (b : Binding) → SameBinding b b
SameBinding-refl b = record { bare = refl; metadata = SameMetadata-refl b.metadata }

-- The document whose generation is taken has its namespace written out.
pub placed-SameApp :
    (a b : App)
    → SameApp a b
    → SameApp
        (record a {
          metadata = record a.metadata { namespace = namespace_or_default a.metadata.namespace };
        })
        (record b {
          metadata = record b.metadata { namespace = namespace_or_default b.metadata.namespace };
        })
placed-SameApp a b h = record {
  api_version = h.api_version;
  kind = h.kind;
  metadata = record {
    name = h.metadata.name;
    namespace = ap namespace_or_default h.metadata.namespace;
    labels = h.metadata.labels;
    annotations = h.metadata.annotations;
  };
  workloads = h.workloads;
  configs = h.configs;
  secrets = h.secrets;
  volumes = h.volumes;
  ingresses = h.ingresses;
}
