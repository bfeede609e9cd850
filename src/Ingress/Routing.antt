-- ===== src/Ingress/Routing.antt =====
-- internal/ingress/routing.go: which requests a route takes, and the path that it sends on.
pub mod Segments
use orch.Prelude.{
  String, Bool, true, not, ◌&&◌, ◌||◌, Option, none, some, List, [], ◌∷◌, ◌==◌, if◌then◌else◌,
}
use Prim.Native.String.{◌++◌}
use orch.Prelude.Text.{trim_space}
use orch.Prelude.Affix.{
  has_prefix, cut_prefix, trim_prefix, trim_left_slashes, trim_right_slashes, trim_slash_suffix,
}
use orch.Config.Ingress.{Route, upstream_endpoints}
use orch.Ingress.Libraries.{Urls}

pub record RouteMeta : Type 0 where
  pub prefix_norm : String  -- "" matches all
  pub strip_path : String

unfoldable pub normalize_path_prefix : String → String
normalize_path_prefix raw =
    let p = trim_space raw in
    let rooted = if not (has_prefix "/" p) then "/" ++ p else p in
    if p == "" || p == "/"
    then "/"
    else if not (rooted == "/")
    then trim_slash_suffix rooted
    else rooted

unfoldable pub matches : RouteMeta → String → Bool
matches m req_path =
    let base = "/" ++ m.prefix_norm in
    if m.prefix_norm == ""
    then true
    else if req_path == base
    then true
    else has_prefix (base ++ "/") req_path

-- The rest of a path that has the prefix.
rel_of : Option String → Option String
rel_of none = none
rel_of (some rel) =
    if rel == "" then some "/" else if not (has_prefix "/" rel) then some ("/" ++ rel) else some rel

-- `none` is the result false.
unfoldable pub path_rel : RouteMeta → String → Option String
unfolding rel_of
path_rel m req_path =
    if m.prefix_norm == "" then some req_path else rel_of (cut_prefix m.strip_path req_path)

module _ {U : Type 0} (urls : Urls U) where
  strip_of : String → Route → String
  strip_of pp raw =
      let given = trim_space raw.strip_prefix in
      let strip_path = urls.clean (if given == "" then pp else given) in
      if not (strip_path == "/") && not (has_prefix "/" strip_path)
      then "/" ++ strip_path
      else strip_path

  meta_of : List String → Route → Option RouteMeta
  unfolding strip_of
  meta_of [] raw = none
  meta_of (e ∷ es) raw =
      let pp = normalize_path_prefix raw.path_prefix in
      if pp == "/"
      then some (record { prefix_norm = ""; strip_path = "/" })
      else some (record {
        prefix_norm = trim_right_slashes (trim_left_slashes (trim_prefix "/" pp));
        strip_path = strip_of pp raw;
      })

  -- `none` is the error that there are no upstream endpoints.
  unfoldable pub new_route_meta : Route → Option RouteMeta
  unfolding meta_of
  new_route_meta raw = meta_of (upstream_endpoints raw) raw

  unfoldable pub normalized_path : String → String
  normalized_path raw = let p = urls.clean raw in if not (has_prefix "/" p) then "/" ++ p else p

  -- The path that valeRewriteHandler sends on for a request; `none` is the answer not found.
  unfoldable pub rewritten_path : RouteMeta → String → Option String
  unfolding normalized_path
  rewritten_path m raw =
      let p = normalized_path raw in if not (matches m p) then none else path_rel m p
