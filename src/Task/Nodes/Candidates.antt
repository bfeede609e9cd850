-- ===== src/Task/Nodes/Candidates.antt =====
-- alternativeNodeCandidates of internal/services/task/operations_nodes.go: which nodes it lists.
use orch.Prelude.{String, List, [], ◌∷◌, ◌++◌, ◌⊎◌, inl, inr, ◌↔◌}
use mathlib.Core.List.{Memᴰ}
use orch.Prelude.Text.{trim_space}
use orch.Prelude.Members.{Distinct}
use orch.Prelude.GoMap
use orch.Config.{ClusterConfig}
use orch.Task.Libraries.{NodeSet, NodeSetLaws, SortLaws}
use orch.Task.Nodes.Collected.{
  IsOffered, relisted, IsOffered-append, Collected, Collected-map, add_node_candidate-Collected,
  empty-Collected,
}
use orch.Task.Nodes.{add_node_candidate, sorted_configured_node_ids, alternative_node_candidates}

-- Every name that the catalog, the configuration or the node itself gives.
abbrev pub known_names : ClusterConfig → List String → String → List String
known_names cluster catalog_ids local = catalog_ids ++ (GoMap.keys cluster.nodes ++ local ∷ [])

module _ {S : Type 0} (set : NodeSet S) (laws : NodeSetLaws set) (sort : List String → List String)
    (sort_laws : SortLaws sort) (cluster : ClusterConfig) (catalog_ids : List String)
    (local current : String) where
  collect_all :
      (acc : List String × S)
      → Collected set laws (λ x. ⊥) acc
      → Collected set laws
          (IsOffered (trim_space current) (known_names cluster catalog_ids local))
          (add_node_candidate set (trim_space current) (local ∷ []) (
            add_node_candidate set
              (trim_space current)
              (sorted_configured_node_ids set sort cluster)
              (add_node_candidate set (trim_space current) catalog_ids acc)))
  unfolding sorted_configured_node_ids
  collect_all acc c =
      let here = trim_space current in
      let keys = sorted_configured_node_ids set sort cluster in
      let first = add_node_candidate-Collected set laws here catalog_ids (λ x. ⊥) acc c in
      let second = add_node_candidate-Collected set laws here keys _ _ first in
      let third = add_node_candidate-Collected set laws here (local ∷ []) _ _ second in
      Collected-map set laws (λ x. (gather here x, spread here x)) third
    where
      sorted_keys :
          (x : String)
          → Memᴰ x (sort (GoMap.keys cluster.nodes)) ↔ Memᴰ x (GoMap.keys cluster.nodes)
      sorted_keys x = sort_laws.members x (GoMap.keys cluster.nodes)

      gather :
          (here x : String)
          → ((⊥ ⊎ IsOffered here catalog_ids x)
              ⊎ IsOffered here (sorted_configured_node_ids set sort cluster) x)
            ⊎ IsOffered here (local ∷ []) x
          → IsOffered here (known_names cluster catalog_ids local) x
      gather here x (inl (inl (inl k))) = absurd k
      gather here x (inl (inl (inr o))) = (IsOffered-append here catalog_ids _ x).0 (inl o)
      gather here x (inl (inr o)) = (IsOffered-append here catalog_ids _ x).0 (
          inr (
            (IsOffered-append here (GoMap.keys cluster.nodes) (local ∷ []) x).0
              (inl (relisted o ((sorted_keys o.raw).0 o.listed)))))
      gather here x (inr o) =
          (IsOffered-append here catalog_ids _ x).0
            (inr ((IsOffered-append here (GoMap.keys cluster.nodes) (local ∷ []) x).0 (inr o)))

      spread :
          (here x : String)
          → IsOffered here (known_names cluster catalog_ids local) x
          → ((⊥ ⊎ IsOffered here catalog_ids x)
              ⊎ IsOffered here (sorted_configured_node_ids set sort cluster) x)
            ⊎ IsOffered here (local ∷ []) x
      spread here x o = elim ((IsOffered-append here catalog_ids _ x).1 o) [
        | inl p ↦ inl (inl (inr p))
        | inr p ↦ elim ((IsOffered-append here (GoMap.keys cluster.nodes) (local ∷ []) x).1 p) [
          | inl q ↦ inl (inr (relisted q ((sorted_keys q.raw).1 q.listed)))
          | inr q ↦ inr q
        ]
      ]

  -- Under the laws of the set and of sorting: the nodes to fail over to are the trimmed names, not
  -- empty and not the current node's, that the catalog, the configuration or the node itself
  -- gives, all of them, each once.
  pub alternative_node_candidates_lem :
      ((x : String)
        → Memᴰ x (alternative_node_candidates set sort cluster catalog_ids local current)
          ↔ IsOffered (trim_space current) (known_names cluster catalog_ids local) x)
      × Distinct (alternative_node_candidates set sort cluster catalog_ids local current)
  unfolding alternative_node_candidates
  alternative_node_candidates_lem =
      let c = collect_all ([], set.new_set) (empty-Collected set laws) in
      (λ x. (c.sound x, c.complete x), c.distinct)
