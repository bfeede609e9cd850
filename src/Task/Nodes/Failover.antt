-- ===== src/Task/Nodes/Failover.antt =====
-- chooseFailoverNode of internal/services/task/operations_nodes.go: where a failed workload goes.
use orch.Prelude.{
  String, false, Option, none, some, List, [], ◌∷◌, ◌≡◌, refl, sym, subst, ap, ◌∙◌, inl, inr, ◌==◌,
  Bool-cases, Option-cases, eqb, ◌||◌,
}
use mathlib.Core.List.{Memᴰ}
use orch.Prelude.Text.{trim_space, trim_space_idem}
use orch.Deploy.Document.{Workload}
use orch.Config.{ClusterConfig, node_url}
use orch.Placement.Libraries.{
  Float64, Float64Laws, OrderedSet, OrderedSetLaws, OrderedSetAdds, SnapshotStore,
}
use orch.Placement.Choose
use orch.Placement.Choose.{preferred_names, names_of, choose_v1_alpha1}
use orch.Placement.Preferred.{add_names_new}
use orch.Placement.Decision.{choose_v1_alpha1_found}
use orch.Task.Libraries.{NodeSet, NodeSetLaws, SortLaws}
use orch.Task.Errors.{ok}
use orch.Task.Nodes.{
  first_configured, preferred_configured_node, failover_candidate, placed, or_configured,
  choose_workload_node, choose_among, choose_failover_node, alternative_node_candidates,
}
use orch.Task.Nodes.Collected.{IsOffered}
use orch.Task.Nodes.Candidates.{known_names, alternative_node_candidates_lem}

first_configured_listed :
    (cluster : ClusterConfig) (self : String) (names : List String) (n : String)
    → first_configured cluster self names ≡ some n
    → (raw : String) × Memᴰ raw names × (trim_space raw ≡ n)
unfolding first_configured
first_configured_listed cluster self [] n e = absurd (cc e)
first_configured_listed cluster self (raw ∷ names) n e =
    elim (Bool-cases (trim_space raw == "" || trim_space raw == trim_space self)) [
      | inl barred ↦
          let (r, m, t) =
            first_configured_listed cluster self names n (rw (first_configured, barred) at e) in
          (r, Memᴰ.tail m, t)
      | inr free ↦ elim (Option-cases (node_url cluster (trim_space raw))) [
        | inl gone ↦
            let (r, m, t) =
              first_configured_listed cluster self names n
                (rw (first_configured, free, gone) at e) in
            (r, Memᴰ.tail m, t)
        | inr (url, found) ↦
            (raw, Memᴰ.head refl, (let q = (rw (first_configured, free, found) at e) in cc q))
      ]
    ]

-- The result is a name of the list, up to the space around it.
abbrev IsAmong : List String → String → Type 0
IsAmong names n = (raw : String) × Memᴰ raw names × (trim_space raw ≡ trim_space n)

or_configured-ok :
    (o : Option String) (e : Choose.PlacementError) (n : String)
    → or_configured o e ≡ ok n
    → o ≡ some n
unfolding or_configured
or_configured-ok none e n h = absurd (cc h)
or_configured-ok (some m) e n h = let q : m ≡ n = cc h in cc q

module _ {F O : Type 0} (fl : Float64 F) (fl_laws : Float64Laws fl) (ordered : OrderedSet O)
    (ordered_laws : OrderedSetLaws ordered) (adds : OrderedSetAdds ordered)
    (cluster : ClusterConfig) (catalog : SnapshotStore F) (local : String) (w : Workload) where
  fallback-IsAmong :
      (name : String) (names : List String) (n : String)
      → preferred_configured_node cluster (failover_candidate w (name ∷ names)) local ≡ some n
      → IsAmong (name ∷ names) n
  unfolding preferred_configured_node failover_candidate
  fallback-IsAmong name names n h =
      let (raw, m, t) = first_configured_listed cluster local (name ∷ names) n h in
      (raw, m, rw (← t) (sym (trim_space_idem raw)))

  chosen-IsAmong :
      (name : String) (names : List String) (n : String)
      → eqb catalog.len 0 ≡ false
      → choose_v1_alpha1 fl ordered (failover_candidate w (name ∷ names)) (some catalog) local
        ≡ Choose.Result.ok n
      → IsAmong (name ∷ names) n
  unfolding preferred_names failover_candidate
  chosen-IsAmong name names n full h =
      let (node, same, best) =
        choose_v1_alpha1_found fl ordered (failover_candidate w (name ∷ names)) catalog fl_laws
          ordered_laws local n full h in
      let m =
        add_names_new fl ordered adds (name ∷ names) (trim_space node.id)
          (best.eligible.preferred _ refl) in
      (m.name, m.listed, m.trimmed ∙ ap trim_space same)

  placed-IsAmong :
      (name : String) (names : List String) (n : String)
      → eqb catalog.len 0 ≡ false
      → choose_workload_node fl ordered cluster catalog (failover_candidate w (name ∷ names)) local
        ≡ ok n
      → IsAmong (name ∷ names) n
  unfolding choose_workload_node
  placed-IsAmong name names n full h = by_result _ refl h
    where
      by_result :
          (r : Choose.Result String)
          → choose_v1_alpha1 fl ordered (failover_candidate w (name ∷ names)) (some catalog) local
            ≡ r
          → placed fl ordered cluster catalog (failover_candidate w (name ∷ names)) local r ≡ ok n
          → IsAmong (name ∷ names) n
      by_result (Choose.Result.ok m) e h =
          chosen-IsAmong name names n full (let q : m ≡ n = cc h in cc (e, q))
      by_result (Choose.Result.err x) e h = fallback-IsAmong name names n (or_configured-ok _ x n h)

  choose_among-ok :
      (names : List String) (n : String)
      → eqb catalog.len 0 ≡ false
      → choose_among fl ordered cluster catalog local w names ≡ ok n
      → IsAmong names n
  unfolding choose_among
  choose_among-ok [] n full h = absurd (cc h)
  choose_among-ok (name ∷ names) n full h = placed-IsAmong name names n full h

  module _ {S : Type 0} (set : NodeSet S) (set_laws : NodeSetLaws set)
      (sort : List String → List String) (sort_laws : SortLaws sort) where
    -- Under the laws of the sets, of sorting and of the float64 comparisons, with a catalog that is not
    -- empty: the node to which a workload fails over is, up to the space around it, a name that the
    -- catalog, the configuration or the node itself gives, and never the workload's current node.
    pub choose_failover_node_other :
        (current n : String)
        → eqb catalog.len 0 ≡ false
        → choose_failover_node fl ordered cluster catalog set sort local w current ≡ ok n
        → IsOffered (trim_space current) (known_names cluster catalog.node_ids local) (trim_space n)
    unfolding choose_failover_node
    choose_failover_node_other current n full h =
        let (raw, m, t) =
          choose_among-ok
            (alternative_node_candidates set sort cluster catalog.node_ids local current) n full
            h in
        let (listed, once) =
          alternative_node_candidates_lem set set_laws sort sort_laws cluster catalog.node_ids local
            current in
        let o = (listed raw).0 m in
        let trimmed : trim_space raw ≡ raw =
          subst (λ x. trim_space x ≡ x) o.trimmed (trim_space_idem o.raw) in
        subst (IsOffered (trim_space current) _) (sym trimmed ∙ t) o
