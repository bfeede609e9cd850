-- ===== src/Deploy/Samples.antt =====
-- A concrete document of internal/deploy/v1alpha1, and lists for the set and the graph.
pub mod Runs
pub mod Graphs
use orch.Prelude.{
  ℕ, suc, String, Bool, true, false, not, ◌||◌, ◌&&◌, Option, none, some, List, [], ◌∷◌, ◌++◌, map,
  ◌≡◌, refl, arith, ◌==◌, eq_iff, if◌then◌else◌,
}
use orch.Prelude.Int.{ℤ, pos}
use orch.Prelude.Lists.{length}
use orch.Prelude.GoMap
use orch.Deploy.Document.{Metadata, Endpoint, Ingress, WorkloadRef, Workload, App}
use orch.Deploy.Libraries.{Libraries, SetLaws, SortResult, sorted, cycle_detected}

pub record ListGraph : Type 0 where
  pub nodes : List (String × ℕ)
  pub edges : List (String × String)

abbrev pub list_contains : List String → String → Bool
list_contains [] x = false
list_contains (y ∷ ys) x = let rest = list_contains ys x in if y == x then true else rest

abbrev pub node_index : List (String × ℕ) → String → Option ℕ
node_index [] x = none
node_index ((y, i) ∷ ys) x = let rest = node_index ys x in if y == x then some i else rest

abbrev pub has_index : Option ℕ → Bool
has_index none = false
has_index (some i) = true

-- Whether one of the edges leads to the node from one of the others.
abbrev pub has_source : List (String × String) → List String → String → Bool
has_source [] left x = false
has_source ((a, b) ∷ es) left x = (b == x && list_contains left a) || has_source es left x

abbrev pub first_free : List (String × String) → List String → List String → Option String
first_free es left [] = none
first_free es left (x ∷ xs) =
    let rest = first_free es left xs in if has_source es left x then rest else some x

abbrev pub without : String → List String → List String
without x [] = []
without x (y ∷ ys) = let rest = without x ys in if y == x then rest else y ∷ rest

-- One node that waits for no other after another, on fuel.
abbrev pub sort_from : ℕ → List (String × String) → List String → List String → SortResult
sort_from ℕ.zero es done left = elim left [ [] ↦ sorted done | x ∷ xs ↦ cycle_detected ]
sort_from (suc n) es done left = elim left [
  | [] ↦ sorted done
  | x ∷ xs ↦ elim (first_free es (x ∷ xs) (x ∷ xs)) [
    | none ↦ cycle_detected
    | some y ↦ sort_from n es (done ++ y ∷ []) (without y (x ∷ xs))
  ]
]

abbrev pub stands_before : String → String → List String → Bool
stands_before a b [] = false
stands_before a b (x ∷ xs) =
    let rest = stands_before a b xs in if x == a then list_contains xs b || rest else rest

abbrev pub keeps_edges : List (String × String) → List String → Bool
keeps_edges [] ids = true
keeps_edges ((a, b) ∷ es) ids = stands_before a b ids && keeps_edges es ids

abbrev pub all_nodes : List (String × ℕ) → List String → Bool
all_nodes nodes [] = true
all_nodes nodes (x ∷ xs) = has_index (node_index nodes x) && all_nodes nodes xs

abbrev pub checked : ListGraph → SortResult → SortResult
checked g (sorted ids) =
    if keeps_edges g.edges ids && all_nodes g.nodes ids then sorted ids else SortResult.failed
checked g cycle_detected = cycle_detected
checked g SortResult.failed = SortResult.failed

abbrev pub list_libraries : Libraries (List String) ListGraph
list_libraries = record {
  parse_duration = λ s. if s == "5s" then some (pos 5000000000) else none;
  parse_ip = λ s. s == "10.0.0.1";
  parse_mac = λ s. s == "02:00:00:00:00:01";
  new_set = [];
  add = λ x xs. x ∷ xs;
  contains = list_contains;
  new_graph = record { nodes = []; edges = [] };
  add_node = λ x i g. record g { nodes = (x, i) ∷ g.nodes };
  has_node = λ g x. has_index (node_index g.nodes x);
  get_node = λ g x. node_index g.nodes x;
  add_edge = λ a b g. some (record g { edges = (a, b) ∷ g.edges });
  topological_sort =
      λ g. checked g (sort_from (length g.nodes) g.edges [] (map (λ e. e.0) g.nodes));
}

pub list_set_laws : SetLaws list_libraries
list_set_laws = record { contains-new_set = λ a. refl; contains-add = λ a b s. refl }

abbrev pub shop : Metadata
shop = record { name = "shop"; namespace = "web"; labels = GoMap.nil; annotations = GoMap.nil }

abbrev pub http : Endpoint
http = record {
  name = "http";
  port = pos 8080;
  protocol = "http";
  host_port = pos 0;
  host_ip = " 10.0.0.1";
}

abbrev pub workload_named : String → List WorkloadRef → Workload
workload_named name depends_on = record {
  name = name;
  kind = "service";
  run = record {
    artifact = record { image = "nginx:1"; path = ""; url = "" };
    exec = record { command = []; args = [] };
    env = [];
    cwd = "";
    user = "";
    options = record {
      docker = none;
      containerd = none;
      firecracker = none;
      process = none;
      systemd = none;
      windows_service = none;
    };
  };
  runtime = "docker";
  replicas = pos 2;
  depends_on = depends_on;
  endpoints = (record http { host_port = if name == "web" then pos 80 else pos 0 }) ∷ [];
  mounts = (record { volume = record { name = "data" }; target = "/data"; read_only = false }) ∷ [];
  resources = some (record { cpu_millis = pos 250; memory_bytes = pos 1024 });
  health = some (record {
    readiness = some (record {
      http = some (record {
        path = "/";
        endpoint = record { workload = ""; endpoint = "http" };
        port = pos 0;
      });
      tcp = none;
      interval = "5s";
      timeout = "";
      retries = pos 3;
      start_period = "";
    });
    liveness = none;
    startup = none;
  });
  lifecycle =
      some (record { restart_policy = "on-failure"; max_restarts = pos 3; restart_delay = "5s" });
  scheduling = none;
  rollout = some (record {
    strategy = "rolling";
    max_unavailable = pos 1;
    max_surge = pos 1;
    rollback_on_failure = true;
    progress_deadline = "5s";
  });
}

abbrev pub web_front : Ingress
web_front = record {
  name = "front";
  host = "shop.example";
  routes = (record { path = "/"; backend = record { workload = "web"; endpoint = "http" } }) ∷ [];
}

-- `web` waits for `db`, which stands after it.
abbrev pub shop_app : App
shop_app = record {
  api_version = "orch/v1alpha1";
  kind = "App";
  metadata = shop;
  workloads =
      workload_named "web" ((record { name = "db"; condition = "" }) ∷ [])
      ∷ workload_named "db" []
      ∷ [];
  configs = [];
  secrets = [];
  volumes = (record { name = "data"; persistent = true; size_bytes = pos 5 }) ∷ [];
  ingresses = web_front ∷ [];
}
