-- ===== src/Config/Ingress.antt =====
-- internal/config/ingress.go: the routes and the addresses of the ingress. `S` is collectionx's set.
pub mod Listeners
use orch.Prelude.{String, Bool, not, List, [], ◌∷◌, ◌==◌, if◌then◌else◌, Option, none, some}
use orch.Prelude.Text.{trim_space}
use orch.Task.Libraries.{NodeSet}

pub record IngressTlsAuto : Type 0 where
  pub enabled : Bool
  pub listen : List String
  pub domains : List String
  pub email : String
  pub cache_dir : String
  pub staging : Bool

pub record IngressConfig : Type 0 where
  pub enabled : Bool
  pub addr : String
  pub listen : List String
  pub tls : IngressTlsAuto

pub record Route : Type 0 where
  pub path_prefix : String
  pub upstream : String
  pub upstreams : List String
  pub strip_prefix : String
  pub lb : String

-- The texts of the list, trimmed, without the empty ones.
unfoldable pub trimmed_texts : List String → List String
trimmed_texts [] = []
trimmed_texts (raw ∷ raws) =
    let rest = trimmed_texts raws in let u = trim_space raw in if u == "" then rest else u ∷ rest

-- The list, or the other one if it is empty.
abbrev pub or_else : List String → List String → List String
or_else [] other = other
or_else (x ∷ xs) other = x ∷ xs

unfoldable pub upstream_endpoints : Route → List String
unfolding trimmed_texts
upstream_endpoints r =
    let u = trim_space r.upstream in
    or_else (trimmed_texts r.upstreams) (if not (u == "") then u ∷ [] else [])

unfoldable pub listen_addr_list : IngressConfig → List String
listen_addr_list c =
    or_else c.listen (if not (trim_space c.addr == "") then c.addr ∷ [] else ":80" ∷ ":443" ∷ [])

unfoldable pub tls_listen_addr_list : IngressConfig → List String
unfolding trimmed_texts
tls_listen_addr_list c =
    if not c.tls.enabled then [] else or_else (trimmed_texts c.tls.listen) (":443" ∷ [])

unfoldable pub tls_autocert_domain_list : IngressConfig → List String
unfolding trimmed_texts
tls_autocert_domain_list c = trimmed_texts c.tls.domains

module _ {S : Type 0} (set : NodeSet S) where
  skip_from : List String → S → S
  skip_from [] skip = skip
  skip_from (raw ∷ addrs) skip =
      let a = trim_space raw in skip_from addrs (if not (a == "") then set.add a skip else skip)

  not_skipped : S → List String → List String
  not_skipped skip [] = []
  not_skipped skip (raw ∷ addrs) =
      let rest = not_skipped skip addrs in
      let a = trim_space raw in
      if a == "" then rest else if set.contains skip a then rest else a ∷ rest

  unfoldable pub plain_listen_addr_list : IngressConfig → List String
  unfolding skip_from not_skipped
  plain_listen_addr_list c =
      if not c.tls.enabled
      then listen_addr_list c
      else not_skipped (skip_from (tls_listen_addr_list c) set.new_set) (listen_addr_list c)
