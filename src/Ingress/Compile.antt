-- ===== src/Ingress/Compile.antt =====
-- internal/ingress/deploy_compile.go: the routes of the desired documents. Warnings are left out.
pub mod Compiled
pub mod Documents
use orch.Prelude.{
  String, Bool, true, false, not, ◌||◌, Option, none, some, List, [], ◌∷◌, ◌++◌, ◌==◌,
  if◌then◌else◌,
}
use orch.Prelude.Int.{ℤ}
use orch.Prelude.Text.{trim_space}
use orch.Prelude.Options.{◌>>=◌}
use orch.Prelude.GoMap
use orch.Prelude.GoMap.{GoMap}
use orch.Deploy.Document.{Metadata, Workload, Ingress, IngressRoute, App}
use orch.Meta.{Assignment, assignment_key}
use orch.Config.{ClusterConfig}
use orch.Config.Ingress.{IngressConfig, Route}
use orch.Task.Libraries.{NodeSet}
use orch.Task.Restart.{assignment_status_running}
use orch.Ingress.Libraries.{Urls}
use orch.Ingress.Target.{
  deploy_app_sort_key, ingress_path, local_url, endpoint_http_port, remote_ingress_base_url,
}

-- `none` for a nil interface.
pub record IngressCompileOptions : Type 0 where
  pub dns : Option (String → String → Option String)
  pub assignments : Option (String → Option Assignment)
  pub cluster : ClusterConfig
  pub ingress : IngressConfig
  pub local_node_id : String

pub record IngressRouteTarget : Type 0 where
  pub upstream : String
  pub strip_prefix : String

-- The keys, in the order of their first apps, and the last named app of each key.
add_deploy_app_sort_key : App → List String × GoMap App → List String × GoMap App
add_deploy_app_sort_key app (keys, by_key) =
    let key = deploy_app_sort_key app.metadata in
    (
      elim (GoMap.lookup key by_key) [ none ↦ keys ++ key ∷ [] | some have ↦ keys ],
      GoMap.insert key app by_key,
    )

keyed_from : List App → List String × GoMap App → List String × GoMap App
unfolding add_deploy_app_sort_key
keyed_from [] acc = acc
keyed_from (app ∷ apps) acc =
    keyed_from apps
      (if not (trim_space app.metadata.name == "") then add_deploy_app_sort_key app acc else acc)

-- A key that is not found gives the zero app in the source; every key is.
apps_of : List String → GoMap App → List App
apps_of [] by_key = []
apps_of (k ∷ keys) by_key =
    let rest = apps_of keys by_key in
    elim (GoMap.lookup k by_key) [ none ↦ rest | some app ↦ app ∷ rest ]

unfoldable pub ordered_apps : (List String → List String) → List App → List App
unfolding keyed_from apps_of
ordered_apps sort apps =
    let (keys, by_key) = keyed_from apps ([], GoMap.made []) in apps_of (sort keys) by_key

map_from : List Workload → GoMap Workload → GoMap Workload
map_from [] m = m
map_from (w ∷ ws) m = map_from ws (GoMap.insert (trim_space w.name) w m)

unfoldable pub workload_map : App → GoMap Workload
unfolding map_from
workload_map app = map_from app.workloads (GoMap.made [])

running_or_none : Option Assignment → Option Assignment
running_or_none none = none
running_or_none (some a) =
    if not (a.status == assignment_status_running) || trim_space a.node == ""
    then none
    else some (record a { node = trim_space a.node })

module _ {U S : Type 0} (urls : Urls U) (set : NodeSet S) (opts : IngressCompileOptions)
    (app : App) where
  unfoldable pub running_assignment : String → Option Assignment
  unfolding running_or_none
  running_assignment workload_name = elim opts.assignments [
    | none ↦ none
    | some get ↦ running_or_none (get (assignment_key app.metadata workload_name))
  ]

  upstream_of : Option Assignment → Option String
  upstream_of none = none
  upstream_of (some a) =
      if a.node == trim_space opts.local_node_id
      then none
      else remote_ingress_base_url urls set opts.cluster opts.ingress a.node

  unfoldable pub remote_ingress_upstream : String → Option String
  unfolding upstream_of
  remote_ingress_upstream workload_name = upstream_of (running_assignment workload_name)

  unfoldable pub local_workload_upstream : String → ℤ → Option String
  local_workload_upstream workload_name port = elim opts.dns [
    | none ↦ none
    | some find ↦ elim (find (trim_space app.metadata.namespace) workload_name) [
      | none ↦ none
      | some ip ↦ some (local_url urls set ip port)
    ]
  ]

  target_or : Option String → Option String → Option IngressRouteTarget
  target_or (some upstream) at_home = some (record { upstream = upstream; strip_prefix = "/" })
  target_or none none = none
  target_or none (some ip) = some (record { upstream = ip; strip_prefix = "" })

  unfoldable pub workload_target : String → ℤ → Option IngressRouteTarget
  unfolding target_or
  workload_target workload_name port =
      target_or (remote_ingress_upstream workload_name) (local_workload_upstream workload_name port)

  unfoldable pub compile_route : IngressRoute → Option Route
  compile_route route = do
    path ← ingress_path route.path
    w ← GoMap.lookup (trim_space route.backend.workload) (workload_map app)
    port ← endpoint_http_port w (trim_space route.backend.endpoint)
    target ← workload_target (trim_space route.backend.workload) port
    some (record {
      path_prefix = path;
      upstream = target.upstream;
      upstreams = [];
      strip_prefix = target.strip_prefix;
      lb = "";
    })

  routes_from : List IngressRoute → List Route
  routes_from [] = []
  routes_from (r ∷ rs) =
      let rest = routes_from rs in
      elim (compile_route r) [ none ↦ rest | some compiled ↦ compiled ∷ rest ]

  ingresses_from : List Ingress → List Route
  unfolding routes_from
  ingresses_from [] = []
  ingresses_from (ing ∷ ings) = routes_from ing.routes ++ ingresses_from ings

  unfoldable pub compile_app_ingress_routes : List Route
  unfolding ingresses_from
  compile_app_ingress_routes = ingresses_from app.ingresses

module _ {U S : Type 0} (urls : Urls U) (set : NodeSet S) (sort : List String → List String)
    (opts : IngressCompileOptions) where
  compile_all : List App → List Route
  compile_all [] = []
  compile_all (app ∷ apps) = compile_app_ingress_routes urls set opts app ++ compile_all apps

  unfoldable pub compile_ingress_routes_from_deploy : List App → List Route
  unfolding compile_all
  compile_ingress_routes_from_deploy apps = compile_all (ordered_apps sort apps)
