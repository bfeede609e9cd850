-- ===== src/Config.antt =====
-- internal/config/runtime.go: the worker URLs of the cluster.
pub mod Ingress
use orch.Prelude.{String, not, ◌||◌, Option, none, some, List, [], ◌∷◌, ◌==◌, if◌then◌else◌, eqb}
use orch.Prelude.Text.{trim_space}
use orch.Prelude.Affix.{trim_right_slashes}
use orch.Prelude.GoMap
use orch.Prelude.GoMap.{GoMap}

pub record ClusterConfig : Type 0 where
  pub nodes : GoMap String
  pub worker_token : String

-- The first key that fits, in the order in which the map is ranged over.
url_from : String → List (String × String) → Option String
url_from id [] = none
url_from id ((k, v) ∷ l) =
    let rest = url_from id l in
    let url = trim_right_slashes (trim_space v) in
    if not (trim_space k == id) then rest else if url == "" then none else some url

unfoldable pub node_url : ClusterConfig → String → Option String
unfolding url_from
node_url c node_id =
    let id = trim_space node_id in
    if id == "" || eqb (GoMap.len c.nodes) 0 then none else url_from id (GoMap.entries c.nodes)
