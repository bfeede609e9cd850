-- ===== src/Placement/Choose.antt =====
-- internal/placement/v1alpha1.go and internal/nodecapacity/catalog.go. A nil pointer is `none`; the
-- context is not read.
use orch.Prelude.{
  ℕ, suc, ◌+◌, ◌-◌, ◌*◌, ◌%◌, ◌^◌, String, Bool, true, false, not, ◌&&◌, Option, none, some, List,
  [], ◌∷◌, ◌==◌, if◌then◌else◌, eqb, ltb,
}
use orch.Prelude.Int.{ℤ, pos, negsuc, pos_part, ltb_ℤ, leb_ℤ}
use orch.Prelude.Text.{trim_space}
use orch.Prelude.Lists.{length}
use orch.Deploy.Document.{Resources, Scheduling, Workload}
use orch.Raft.State.{Snapshot}
use orch.Placement.Libraries.{Float64, OrderedSet, SnapshotStore}

pub record ScoredNode (F : Type 0) : Type 0 where
  pub id : String
  pub snap : Snapshot F

pub record WorkloadResourceRequest : Type 0 where
  pub cpu_millis : ℤ
  pub memory_byte : ℤ

pub data PlacementError : Type 0 where
  no_valid_preferred_names : PlacementError
  no_catalog_nodes_match : PlacementError
  no_feasible_node : String → PlacementError

pub data Result {ℓ} (A : Type ℓ) : Type ℓ where
  ok : A → Result A
  err : PlacementError → Result A

infixl 5 ◌>>=◌
abbrev pub ◌>>=◌ {ℓ κ} : {A : Type ℓ} {B : Type κ} → Result A → (A → Result B) → Result B
ok a >>= f = f a
err e >>= f = err e

unfoldable pub fallback_node_id : String → String
fallback_node_id local_node_id =
    let id = trim_space local_node_id in if id == "" then "local" else id

request_of : Option Resources → WorkloadResourceRequest
request_of none = record { cpu_millis = pos 0; memory_byte = pos 0 }
request_of (some r) = record { cpu_millis = r.cpu_millis; memory_byte = r.memory_bytes }

unfoldable pub workload_request : Workload → WorkloadResourceRequest
unfolding request_of
workload_request w = request_of w.resources

-- Catalog.Get; the catalog's other reads pass the store's on.
unfoldable pub catalog_get : {F : Type 0} → SnapshotStore F → String → Option (Snapshot F)
catalog_get store node_id = store.get (trim_space node_id)

-- int64(n) for n below 2^64
abbrev wrap_int64 : ℕ → ℤ
wrap_int64 n = let m = n % 2 ^ 64 in if ltb m (2 ^ 63) then pos m else negsuc (2 ^ 64 - 1 - m)

module _ {F O : Type 0} (fl : Float64 F) (set : OrderedSet O) where
  unfoldable pub estimated_cpu_millis_remaining : Snapshot F → ℤ
  estimated_cpu_millis_remaining s =
      if leb_ℤ s.logical_cpu_cores (pos 0)
      then pos 0
      else (let total = wrap_int64 (pos_part s.logical_cpu_cores * 1000) in
          if fl.le s.cpu_usage_percent fl.zero_f
          then total
          else (let p =
                if fl.lt fl.hundred s.cpu_usage_percent then fl.hundred else s.cpu_usage_percent in
              let avail_frac = fl.div (fl.sub fl.hundred p) fl.hundred in
              fl.to_int64 (fl.mul (fl.of_int64 total) avail_frac)))

  unfoldable pub feasible : ℤ → ℤ → Snapshot F → Bool
  unfolding estimated_cpu_millis_remaining
  feasible req_cpu_millis req_mem_bytes s =
      if ltb_ℤ (pos 0) req_mem_bytes && ltb s.memory_avail_bytes (pos_part req_mem_bytes)
      then false
      else if leb_ℤ req_cpu_millis (pos 0)
      then true
      else leb_ℤ req_cpu_millis (estimated_cpu_millis_remaining s)

  unfoldable pub better : Snapshot F → Snapshot F → Bool
  better a b =
      if not (fl.eq a.cpu_usage_percent b.cpu_usage_percent)
      then fl.lt a.cpu_usage_percent b.cpu_usage_percent
      else ltb b.memory_avail_bytes a.memory_avail_bytes

  unfoldable pub snap_equal : Snapshot F → Snapshot F → Bool
  snap_equal a b =
      fl.eq a.cpu_usage_percent b.cpu_usage_percent && eqb a.memory_avail_bytes b.memory_avail_bytes

  -- The index of the first value that is the node's; `missing` if there is none.
  rank_from : ℕ → ℕ → String → List String → ℕ
  rank_from missing index node_id [] = missing
  rank_from missing index node_id (id ∷ ids) =
      let rest = rank_from missing (suc index) node_id ids in if id == node_id then index else rest

  unfoldable pub preferred_rank : Option O → String → ℕ
  unfolding rank_from
  preferred_rank none node_id = 0
  preferred_rank (some want) node_id =
      rank_from (length (set.values want) + 1) 0 node_id (set.values want)

  unfoldable pub should_replace_candidate : ScoredNode F → ScoredNode F → Option O → Bool → Bool
  unfolding better snap_equal
  should_replace_candidate cur prev preferences restricted =
      if better cur.snap prev.snap
      then true
      else restricted
        && (snap_equal cur.snap prev.snap
            && ltb (preferred_rank preferences cur.id) (preferred_rank preferences prev.id))

  unfoldable pub consider :
      ScoredNode F → Option (ScoredNode F) → Option O → Bool → Option (ScoredNode F)
  consider cur none preferences restricted = some cur
  consider cur (some prev) preferences restricted =
      if should_replace_candidate cur prev preferences restricted then some cur else some prev

  unfoldable pub if_feasible :
      String
      → Option (Snapshot F)
      → Option (ScoredNode F)
      → WorkloadResourceRequest
      → Option O
      → Bool
      → Option (ScoredNode F)
  if_feasible id none best request preferences restricted = best
  if_feasible id (some snap) best request preferences restricted =
      if not (feasible request.cpu_millis request.memory_byte snap)
      then best
      else consider (record { id = id; snap = snap }) best preferences restricted

  unfoldable pub choose_better_candidate :
      Option (ScoredNode F)
      → SnapshotStore F
      → WorkloadResourceRequest
      → Option O
      → Bool
      → String
      → Option (ScoredNode F)
  unfolding if_feasible consider
  choose_better_candidate best catalog request preferences restricted id =
      if_feasible id (catalog_get catalog id) best request preferences restricted

  unfoldable pub best_from :
      Option (ScoredNode F)
      → SnapshotStore F
      → WorkloadResourceRequest
      → Option O
      → Bool
      → List String
      → Option (ScoredNode F)
  best_from best catalog request preferences restricted [] = best
  best_from best catalog request preferences restricted (id ∷ ids) =
      best_from (choose_better_candidate best catalog request preferences restricted id) catalog
        request preferences restricted ids

  unfoldable pub best_placement_candidate :
      List String
      → SnapshotStore F
      → WorkloadResourceRequest
      → Option O
      → Bool
      → Option (ScoredNode F)
  unfolding best_from
  best_placement_candidate candidates catalog request preferences restricted =
      best_from none catalog request preferences restricted candidates

  unfoldable pub add_names : List String → O → O
  add_names [] s = s
  add_names (raw ∷ names) s =
      let n = trim_space raw in add_names names (if not (n == "") then set.add n s else s)

  -- `none` is the result false: scheduling does not restrict placement.
  unfoldable pub names_of : Option Scheduling → Option O
  names_of none = none
  names_of (some sch) = elim sch.preferred_nodes [
    | [] ↦ none
    | n ∷ ns ↦ some (add_names (n ∷ ns) set.new_set)
  ]

  unfoldable pub preferred_names : Workload → Option O
  unfolding names_of add_names
  preferred_names w = names_of w.scheduling

  unfoldable pub filter_wanted : O → List String → List String
  filter_wanted want [] = []
  filter_wanted want (id ∷ ids) =
      let rest = filter_wanted want ids in
      if set.contains want (trim_space id) then id ∷ rest else rest

  unfoldable pub matching : List String → O → Result (List String × Option O × Bool)
  matching [] want = err no_catalog_nodes_match
  matching (id ∷ ids) want = ok (id ∷ ids, some want, true)

  unfoldable pub candidates_of : Option O → List String → Result (List String × Option O × Bool)
  unfolding filter_wanted matching
  candidates_of none ids = ok (ids, none, false)
  candidates_of (some want) ids =
      if set.is_empty want
      then err no_valid_preferred_names
      else matching (filter_wanted want ids) want

  -- The candidates, the preferences, and whether they restrict placement.
  unfoldable pub placement_candidates :
      Workload → SnapshotStore F → Result (List String × Option O × Bool)
  unfolding candidates_of
  placement_candidates w catalog = candidates_of (preferred_names w) catalog.node_ids

  unfoldable pub best_id : Workload → Option (ScoredNode F) → Result String
  best_id w none = err (no_feasible_node w.name)
  best_id w (some node) = ok node.id

  unfoldable pub choose_from : Workload → SnapshotStore F → Result String
  unfolding best_id
  choose_from w catalog = do
    c ← placement_candidates w catalog
    best_id w (best_placement_candidate c.0 catalog (workload_request w) c.1 c.2)

  unfoldable pub choose_v1_alpha1 : Workload → Option (SnapshotStore F) → String → Result String
  unfolding choose_from
  choose_v1_alpha1 w none local_node_id = ok (fallback_node_id local_node_id)
  choose_v1_alpha1 w (some catalog) local_node_id =
      if eqb catalog.len 0 then ok (fallback_node_id local_node_id) else choose_from w catalog
