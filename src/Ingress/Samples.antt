-- ===== src/Ingress/Samples.antt =====
-- Runs of internal/ingress and of the ingress configuration on the sample document.
use orch.Prelude.{String, true, none, some, [], ◌∷◌, ◌≡◌, refl, ◌↔◌, arith, eq_iff}
use mathlib.Core.List.{Memᴰ}
use Prim.Native.String.{◌++◌}
use orch.Prelude.Text.{trim_space}
use orch.Prelude.Affix
use orch.Prelude.GoMap
use orch.Deploy.Document.{App}
use orch.Deploy.Samples.{shop_app}
use orch.Meta.{assignment_key, namespace_or_default}
use orch.Config
use orch.Config.Ingress
use orch.Config.Ingress.{
  IngressConfig, Route, plain_listen_addr_list, listen_addr_list, tls_listen_addr_list,
}
use orch.Config.Ingress.Listeners.{IsListed, plain_listen_addr_list_apart}
use orch.Raft.Samples.{shop_web}
use orch.Task.Samples.Nodes.{names_seen, names_seen_laws, three}
use orch.Ingress.Libraries.{Urls}
use orch.Ingress.Routing.{RouteMeta, matches, path_rel}
use orch.Ingress.Routing.Segments.{IsBelow, route_lem}
use orch.Ingress.Target
use orch.Ingress.Compile
use orch.Ingress.Compile.{IngressCompileOptions, compile_ingress_routes_from_deploy}
use orch.Ingress.Compile.Compiled.{IsCompiled}
use orch.Ingress.Compile.Documents.{IsNamedOf, compile_ingress_routes_from_deploy-IsCompiled}

abbrev api : RouteMeta
api = record { prefix_norm = "api"; strip_path = "/api" }

route_lem_example :
    ((p : String) → (matches api p ≡ true) ↔ IsBelow ("/" ++ "api") p)
    × (path_rel api ("/" ++ "api") ≡ some "/")
    × ((rest : String) → path_rel api ((("/" ++ "api") ++ "/") ++ rest) ≡ some ("/" ++ rest))
route_lem_example = route_lem api (λ e. ground (arith, eq_iff "api" "")) refl

abbrev with_tls : IngressConfig
with_tls = record {
  enabled = true;
  addr = "";
  listen = ":80" ∷ " :443 " ∷ [];
  tls = record {
    enabled = true;
    listen = [];
    domains = "example.org" ∷ [];
    email = "";
    cache_dir = "";
    staging = true;
  };
}

plain_is_80 : plain_listen_addr_list names_seen with_tls ≡ ":80" ∷ []
unfolding plain_listen_addr_list listen_addr_list tls_listen_addr_list Ingress.trimmed_texts
    trim_space
plain_is_80 = refl

plain_listen_addr_list_apart_example :
    IsListed (listen_addr_list with_tls) ":80" × ¬ IsListed (tls_listen_addr_list with_tls) ":80"
unfolding plain_listen_addr_list listen_addr_list tls_listen_addr_list Ingress.trimmed_texts
    trim_space
plain_listen_addr_list_apart_example =
    plain_listen_addr_list_apart names_seen names_seen_laws with_tls ":80" refl (Memᴰ.head refl)

abbrev text_urls : Urls String
text_urls = record {
  clean = λ p. p;
  split_port = λ a. none;
  join_host_port = λ h p. h ++ ":" ++ p;
  parse = λ u. some "node";
  hostname = λ u. u;
  rebased = λ s h u. s ++ "://" ++ h ++ "/";
  decimal = λ n. "8080";
}

-- The workload is assigned to the node b and runs there.
abbrev at_b : IngressCompileOptions
at_b = record {
  dns = some (λ ns w. some "10.0.0.2");
  assignments = some (λ k. some (record shop_web { node = " b"; status = "running" }));
  cluster = three;
  ingress = with_tls;
  local_node_id = "a";
}

abbrev to_b : Route
to_b = record {
  path_prefix = "/";
  upstream = "http://node:80";
  upstreams = [];
  strip_prefix = "/";
  lb = "";
}

compile_ingress_routes_from_deploy-IsCompiled_example :
    (app : App) × IsNamedOf (shop_app ∷ []) app × IsCompiled text_urls names_seen at_b app to_b
unfolding compile_ingress_routes_from_deploy Compile.ordered_apps Compile.compile_app_ingress_routes
    Compile.compile_route Compile.workload_target Compile.remote_ingress_upstream
    Compile.running_assignment Compile.workload_map Target.deploy_app_sort_key Target.ingress_path
    Target.endpoint_http_port Target.remote_ingress_base_url Target.ingress_forward_endpoint
    Target.first_listen_port Target.listen_port Target.ingress_url_from_node_api
    plain_listen_addr_list listen_addr_list tls_listen_addr_list Ingress.trimmed_texts
    Config.node_url assignment_key namespace_or_default GoMap.lookup GoMap.insert Affix.has_prefix
    Affix.cut_prefix Affix.contains_text Affix.trim_right_slashes trim_space
compile_ingress_routes_from_deploy-IsCompiled_example =
    compile_ingress_routes_from_deploy-IsCompiled text_urls names_seen at_b (λ xs. xs)
      (shop_app ∷ []) to_b (Memᴰ.head refl)
