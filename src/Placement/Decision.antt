-- ===== src/Placement/Decision.antt =====
-- ChooseV1Alpha1 of internal/placement/v1alpha1.go: which node it returns, and when it returns none.
use orch.Prelude.{String, Bool, false, Option, none, some, List, ◌≡◌, refl, ◌↔◌, eqb}
use mathlib.Core.List.{Memᴰ}
use orch.Deploy.Document.{Workload}
use orch.Placement.Libraries.{Float64, Float64Laws, OrderedSet, OrderedSetLaws, SnapshotStore}
use orch.Placement.Choose.{
  ScoredNode, PlacementError, Result, ok, err, ◌>>=◌, preferred_names, placement_candidates,
  workload_request, best_placement_candidate, best_id, choose_from, should_replace_candidate,
  choose_v1_alpha1,
}
use orch.Placement.Best.{IsCandidate, best_placement_candidate_found, best_placement_candidate-none}
use orch.Placement.Listed.{is_some, IsPreferred, IsListed, listed, candidates_of-IsListed}

module _ {F O : Type 0} (fl : Float64 F) (set : OrderedSet O) (w : Workload)
    (catalog : SnapshotStore F) where
  -- A node of the catalog that is preferred, has a snapshot, and has room for the workload.
  pub record IsEligible (n : ScoredNode F) : Type 0 where
    pub preferred : IsPreferred fl set catalog (preferred_names fl set w) n.id
    pub candidate : IsCandidate fl set catalog (workload_request w) catalog.node_ids n

  -- n is eligible, and no eligible node replaces it.
  pub record IsBest (n : ScoredNode F) : Type 0 where
    pub eligible : IsEligible n
    pub unbeaten :
        (m : ScoredNode F)
        → IsEligible m
        → should_replace_candidate fl set m n
            (preferred_names fl set w)
            (is_some (preferred_names fl set w))
          ≡ false

  module _ (fl_laws : Float64Laws fl) (set_laws : OrderedSetLaws set) where
    ok_same : {a b : String} → ok a ≡ ok b → a ≡ b
    ok_same e = cc

    -- What choose_v1_alpha1 returns with a catalog that is not empty.
    data Decision : Result String → Type 0 where
      chosen : (n : ScoredNode F) → IsBest n → Decision (ok n.id)
      refused : (e : PlacementError) → ((n : ScoredNode F) → ¬ IsEligible n) → Decision (err e)

    found-Decision :
        (ids : List String)
        → ((id : String)
            → Memᴰ id ids
            → Memᴰ id catalog.node_ids × IsPreferred fl set catalog (preferred_names fl set w) id)
        → ((id : String)
            → Memᴰ id catalog.node_ids
            → IsPreferred fl set catalog (preferred_names fl set w) id
            → Memᴰ id ids)
        → (o : Option (ScoredNode F))
        → best_placement_candidate fl set ids catalog
            (workload_request w)
            (preferred_names fl set w)
            (is_some (preferred_names fl set w))
          ≡ o
        → Decision (best_id fl set w o)
    unfolding best_id
    found-Decision ids sound complete none e = Decision.refused _ (λ n l.
        best_placement_candidate-none fl set catalog (workload_request w) fl_laws
          (preferred_names fl set w) (is_some (preferred_names fl set w)) ids e n (narrow n l))
      where
        narrow :
            (n : ScoredNode F)
            → IsEligible n
            → IsCandidate fl set catalog (workload_request w) ids n
        narrow n l = record {
          listed = complete n.id l.candidate.listed l.preferred;
          found = l.candidate.found;
          fits = l.candidate.fits;
        }
    found-Decision ids sound complete (some n) e =
        let r =
          best_placement_candidate_found fl set catalog (workload_request w) fl_laws
            (preferred_names fl set w) (is_some (preferred_names fl set w)) ids n e in
        let known = sound n.id r.0.listed in
        chosen n (record {
          eligible = record {
            preferred = known.1;
            candidate = record { listed = known.0; found = r.0.found; fits = r.0.fits };
          };
          unbeaten = λ m l. r.1 m (record {
            listed = complete m.id l.candidate.listed l.preferred;
            found = l.candidate.found;
            fits = l.candidate.fits;
          });
        })

    listed-Decision :
        {r : Result (List String × Option O × Bool)}
        → IsListed fl set catalog (preferred_names fl set w) r
        → Decision (do
          c ← r
          best_id fl set w
              (best_placement_candidate fl set c.0 catalog (workload_request w) c.1 c.2))
    listed-Decision (IsListed.refused e h) =
        Decision.refused e (λ n l. h n.id l.candidate.listed l.preferred)
    listed-Decision (listed ids sound complete) = found-Decision ids sound complete _ refl

    choose-Decision :
        (local_node_id : String)
        → eqb catalog.len 0 ≡ false
        → Decision (choose_v1_alpha1 fl set w (some catalog) local_node_id)
    unfolding choose_v1_alpha1 choose_from placement_candidates
    choose-Decision local_node_id h = rw h (
        listed-Decision (candidates_of-IsListed fl set catalog set_laws (preferred_names fl set w)))

    -- With a catalog that is not empty, and under the laws of the float64 comparisons and of the set,
    -- the node whose name choose_v1_alpha1 returns is one of the eligible nodes, and no eligible node
    -- replaces it.
    pub choose_v1_alpha1_found :
        (local_node_id id : String)
        → eqb catalog.len 0 ≡ false
        → choose_v1_alpha1 fl set w (some catalog) local_node_id ≡ ok id
        → (n : ScoredNode F) × (n.id ≡ id) × IsBest n
    choose_v1_alpha1_found local_node_id id h e = decided (choose-Decision local_node_id h) e
      where
        decided :
            {r : Result String}
            → Decision r
            → r ≡ ok id
            → (n : ScoredNode F) × (n.id ≡ id) × IsBest n
        decided (chosen n b) e = (n, ok_same e, b)
        decided (Decision.refused x h) e = absurd cc

    -- With a catalog that is not empty, and under the laws of the float64 comparisons and of the set,
    -- choose_v1_alpha1 returns an error exactly when no node is eligible.
    pub choose_v1_alpha1_refused :
        (local_node_id : String)
        → eqb catalog.len 0 ≡ false
        → ((e : PlacementError) × (choose_v1_alpha1 fl set w (some catalog) local_node_id ≡ err e))
          ↔ ((n : ScoredNode F) → ¬ IsEligible n)
    choose_v1_alpha1_refused local_node_id h = (
      λ r. refusal (choose-Decision local_node_id h) r,
      λ none. forced (choose-Decision local_node_id h) none,
    )
      where
        refusal :
            {r : Result String}
            → Decision r
            → ((e : PlacementError) × (r ≡ err e))
            → (n : ScoredNode F) → ¬ IsEligible n
        refusal (chosen n b) (e, q) = absurd cc
        refusal (Decision.refused x h) q = h

        forced :
            {r : Result String}
            → Decision r
            → ((n : ScoredNode F) → ¬ IsEligible n)
            → (e : PlacementError) × (r ≡ err e)
        forced (chosen n b) out = absurd (out n b.eligible)
        forced (Decision.refused x h) out = (x, refl)
