-- ===== src/Ingress/Target.antt =====
-- internal/ingress/deploy_compile_target.go: the address that a route forwards to, and the texts that
-- deploy_compile.go builds.
use orch.Prelude.{String, not, ◌&&◌, Option, none, some, List, [], ◌∷◌, ◌==◌, if◌then◌else◌}
use Prim.Native.String.{◌++◌}
use orch.Prelude.Int.{ℤ, pos, leb_ℤ}
use orch.Prelude.Text.{trim_space}
use orch.Prelude.Affix.{has_prefix, cut_prefix, trim_right_slashes, contains_text}
use orch.Deploy.Document.{Metadata, Endpoint, Workload}
use orch.Deploy.Constants.{proto_http}
use orch.Config.{ClusterConfig, node_url}
use orch.Config.Ingress.{IngressConfig, tls_listen_addr_list, plain_listen_addr_list}
use orch.Task.Libraries.{NodeSet}
use orch.Ingress.Libraries.{Urls}

unfoldable pub endpoint_port_from : String → List Endpoint → Option ℤ
endpoint_port_from name [] = none
endpoint_port_from name (ep ∷ eps) =
    let rest = endpoint_port_from name eps in
    if not (trim_space ep.name == name)
    then rest
    else if not (ep.protocol == "") && not (ep.protocol == proto_http)
    then none
    else if leb_ℤ ep.port (pos 0)
    then none
    else some ep.port

-- `none` is the result false here and below.
unfoldable pub endpoint_http_port : Workload → String → Option ℤ
unfolding endpoint_port_from
endpoint_http_port w endpoint_name = endpoint_port_from endpoint_name w.endpoints

unfoldable pub deploy_app_sort_key : Metadata → String
deploy_app_sort_key m = trim_space m.namespace ++ "/" ++ trim_space m.name

unfoldable pub ingress_path : String → Option String
ingress_path raw =
    let path = trim_space raw in
    if path == "" then none else some (if not (has_prefix "/" path) then "/" ++ path else path)

if_set : Option String → Option String
if_set none = none
if_set (some port) = if port == "" then none else some port

module _ {U S : Type 0} (urls : Urls U) (set : NodeSet S) where
  -- fmt.Sprintf("http://%s:%d", ip, port)
  unfoldable pub local_url : String → ℤ → String
  local_url ip port = "http://" ++ ip ++ ":" ++ urls.decimal port

  -- The port behind a colon, when SplitHostPort has none.
  port_or_rest : Option String → String → Option String
  unfolding if_set
  port_or_rest none addr = if_set (cut_prefix ":" addr)
  port_or_rest (some port) addr =
      if not (port == "") then some port else if_set (cut_prefix ":" addr)

  unfoldable pub listen_port : String → Option String
  unfolding port_or_rest
  listen_port raw =
      let addr = trim_space raw in
      if addr == "" then none else port_or_rest (urls.split_port addr) addr

  unfoldable pub first_listen_port : List String → Option String
  first_listen_port [] = none
  first_listen_port (addr ∷ addrs) =
      let rest = first_listen_port addrs in
      elim (listen_port addr) [ none ↦ rest | some port ↦ some port ]

  -- The scheme and the port.
  unfoldable pub ingress_forward_endpoint : IngressConfig → Option (String × String)
  ingress_forward_endpoint c = elim (first_listen_port (plain_listen_addr_list set c)) [
    | some port ↦ some ("http", port)
    | none ↦ elim (first_listen_port (tls_listen_addr_list c)) [
      | some port ↦ some ("https", port)
      | none ↦ none
    ]
  ]

  parsed : Option U → String → String → Option String
  parsed none scheme port = none
  parsed (some u) scheme port =
      if trim_space (urls.hostname u) == ""
      then none
      else some
          (trim_right_slashes (urls.rebased scheme (urls.join_host_port (urls.hostname u) port) u))

  unfoldable pub ingress_url_from_node_api : String → String → String → Option String
  unfolding parsed
  ingress_url_from_node_api api_url scheme port =
      let raw = trim_space api_url in
      if raw == ""
      then none
      else parsed (urls.parse (if not (contains_text "://" raw) then "http://" ++ raw else raw))
          scheme port

  remote_base : Option (String × String) → Option String → Option String
  remote_base none api_url = none
  remote_base (some (scheme, port)) none = none
  remote_base (some (scheme, port)) (some api_url) = ingress_url_from_node_api api_url scheme port

  unfoldable pub remote_ingress_base_url : ClusterConfig → IngressConfig → String → Option String
  unfolding remote_base
  remote_ingress_base_url cluster c node_id =
      remote_base (ingress_forward_endpoint c) (node_url cluster node_id)
