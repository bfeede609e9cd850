-- ===== src/Placement/Best.antt =====
-- The loop of internal/placement/v1alpha1.go over the candidates finds a best one, if there is any.
use orch.Prelude.{
  String, Bool, true, false, Option, none, some, List, [], ◌∷◌, ◌≡◌, refl, sym, ◌∙◌, ◌⊎◌, inl, inr,
  Bool-cases, Option-cases,
}
use mathlib.Core.List.{Memᴰ}
use orch.Raft.State.{Snapshot}
use orch.Placement.Libraries.{Float64, Float64Laws, OrderedSet, SnapshotStore}
use orch.Placement.Choose.{
  ScoredNode, WorkloadResourceRequest, catalog_get, feasible, should_replace_candidate,
  choose_better_candidate, best_placement_candidate, if_feasible, consider, best_from,
}
use orch.Placement.Order.{should_replace_irrefl, should_replace_trans}

module _ {F O : Type 0} (fl : Float64 F) (set : OrderedSet O) (catalog : SnapshotStore F)
    (request : WorkloadResourceRequest) where
  -- A node of the list whose snapshot is known and has room for the request.
  pub record IsCandidate (ids : List String) (n : ScoredNode F) : Type 0 where
    pub listed : Memᴰ n.id ids
    pub found : catalog_get catalog n.id ≡ some n.snap
    pub fits : feasible fl set request.cpu_millis request.memory_byte n.snap ≡ true

  module _ (laws : Float64Laws fl) (pref : Option O) (restricted : Bool) where
    abbrev replaces : ScoredNode F → ScoredNode F → Bool
    replaces a b = should_replace_candidate fl set a b pref restricted

    -- n is b, or replaces it.
    abbrev IsAtLeast : ScoredNode F → ScoredNode F → Type 0
    IsAtLeast n b = (n ≡ b) ⊎ (replaces n b ≡ true)

    IsAtLeast-trans : (a b c : ScoredNode F) → IsAtLeast a b → replaces b c ≡ true → IsAtLeast a c
    IsAtLeast-trans a b c (inl e) q = inr (rw e q)
    IsAtLeast-trans a b c (inr p) q =
        inr (should_replace_trans fl laws set a b c pref restricted p q)

    not_replaced :
        (x n b : ScoredNode F) → IsAtLeast n b → replaces x b ≡ false → replaces x n ≡ false
    not_replaced x n b (inl e) q = rw e q
    not_replaced x n b (inr p) q = elim (Bool-cases (replaces x n)) [
      | inl r ↦
          absurd (let t = should_replace_trans fl laws set x n b pref restricted r p in cc (t, q))
      | inr r ↦ r
    ]

    not_replaced_self : (x n : ScoredNode F) → IsAtLeast n x → replaces x n ≡ false
    not_replaced_self x n h =
        not_replaced x n x h (should_replace_irrefl fl laws set x pref restricted)

    -- The best so far after one more id: the id's node has been weighed against it.
    data Weighed (best : Option (ScoredNode F)) (id : String) : Option (ScoredNode F) → Type 0 where
      unusable :
          ((s : Snapshot F)
            → catalog_get catalog id ≡ some s
            → feasible fl set request.cpu_millis request.memory_byte s ≡ false)
          → Weighed best id best
      kept :
          (b x : ScoredNode F)
          → best ≡ some b
          → x.id ≡ id
          → catalog_get catalog id ≡ some x.snap
          → replaces x b ≡ false
          → Weighed best id best
      taken :
          (x : ScoredNode F)
          → x.id ≡ id
          → catalog_get catalog id ≡ some x.snap
          → feasible fl set request.cpu_millis request.memory_byte x.snap ≡ true
          → ((b : ScoredNode F) → best ≡ some b → replaces x b ≡ true)
          → Weighed best id (some x)

    some_same : (a b : Snapshot F) → some a ≡ some b → a ≡ b
    some_same a b e = cc

    some_node : (a b : ScoredNode F) → some a ≡ some b → a ≡ b
    some_node a b e = cc

    same_node : (a b : ScoredNode F) → a.id ≡ b.id → a.snap ≡ b.snap → a ≡ b
    same_node a b p q = λ i. record { id = p i; snap = q i }

    weigh_fitting :
        (best : Option (ScoredNode F)) (x : ScoredNode F)
        → catalog_get catalog x.id ≡ some x.snap
        → feasible fl set request.cpu_millis request.memory_byte x.snap ≡ true
        → Weighed best x.id (consider fl set x best pref restricted)
    unfolding consider
    weigh_fitting none x found fits = taken x refl found fits (λ b e. absurd cc)
    weigh_fitting (some b) x found fits = elim (Bool-cases (replaces x b)) [
      | inl r ↦ rw r (taken x refl found fits (λ b2 e. rw (sym (some_node b b2 e)) r))
      | inr r ↦ rw r (kept b x refl refl found r)
    ]

    weigh_found :
        (best : Option (ScoredNode F)) (id : String) (s : Snapshot F)
        → catalog_get catalog id ≡ some s
        → Weighed best id (if_feasible fl set id (some s) best request pref restricted)
    unfolding if_feasible
    weigh_found best id s e =
        elim (Bool-cases (feasible fl set request.cpu_millis request.memory_byte s)) [
          | inl fits ↦ rw fits (weigh_fitting best (record { id = id; snap = s }) e fits)
          | inr out ↦ rw out (unusable (λ s2 found. rw (some_same s2 s (sym found ∙ e)) out))
        ]

    weigh :
        (best : Option (ScoredNode F)) (id : String)
        → Weighed best id (choose_better_candidate fl set best catalog request pref restricted id)
    unfolding choose_better_candidate
    weigh best id = elim (Option-cases (catalog_get catalog id)) [
      | inl e ↦ rw e (unusable (λ s found. absurd cc))
      | inr (s, e) ↦ rw e (weigh_found best id s e)
    ]

    -- What the loop returns, n, for the ids of the list: a candidate or what it started with, at
    -- least what it started with, replaced by no candidate.
    record IsOutcome (ids : List String) (best : Option (ScoredNode F)) (n : ScoredNode F)
        : Type 0 where
      origin : (best ≡ some n) ⊎ IsCandidate ids n
      at_least : (b : ScoredNode F) → best ≡ some b → IsAtLeast n b
      unbeaten : (m : ScoredNode F) → IsCandidate ids m → replaces m n ≡ false

    IsCandidate-later :
        (id : String) (ids : List String) (n : ScoredNode F)
        → IsCandidate ids n
        → IsCandidate (id ∷ ids) n
    IsCandidate-later id ids n c = record {
      listed = Memᴰ.tail c.listed;
      found = c.found;
      fits = c.fits;
    }

    outcome_origin :
        (id : String) (ids : List String) (best : Option (ScoredNode F))
        {best2 : Option (ScoredNode F)} (n : ScoredNode F)
        → Weighed best id best2
        → (best2 ≡ some n) ⊎ IsCandidate ids n
        → (best ≡ some n) ⊎ IsCandidate (id ∷ ids) n
    outcome_origin id ids best n w (inr c) = inr (IsCandidate-later id ids n c)
    outcome_origin id ids best n (unusable h) (inl e) = inl e
    outcome_origin id ids best n (kept b x h p q r) (inl e) = inl e
    outcome_origin id ids best n (taken x p q r h) (inl e) =
        rw (sym (some_node x n e)) (inr (record { listed = Memᴰ.head p; found = rw p q; fits = r }))

    outcome-IsAtLeast :
        (id : String) (best : Option (ScoredNode F)) {best2 : Option (ScoredNode F)}
        (n : ScoredNode F)
        → Weighed best id best2
        → ((b : ScoredNode F) → best2 ≡ some b → IsAtLeast n b)
        → (b : ScoredNode F) → best ≡ some b
        → IsAtLeast n b
    outcome-IsAtLeast id best n (unusable u) h b e = h b e
    outcome-IsAtLeast id best n (kept c x u p q r) h b e = h b e
    outcome-IsAtLeast id best n (taken x p q r u) h b e = IsAtLeast-trans n x b (h x refl) (u b e)

    outcome_unbeaten :
        (id : String) (best : Option (ScoredNode F)) {best2 : Option (ScoredNode F)}
        (n : ScoredNode F)
        → Weighed best id best2
        → ((b : ScoredNode F) → best2 ≡ some b → IsAtLeast n b)
        → (m : ScoredNode F) → m.id ≡ id
        → catalog_get catalog id ≡ some m.snap
        → feasible fl set request.cpu_millis request.memory_byte m.snap ≡ true
        → replaces m n ≡ false
    outcome_unbeaten id best n (unusable u) h m e found fits =
        absurd (let f = u m.snap found in cc (f, fits))
    outcome_unbeaten id best n (kept b x u p q r) h m e found fits =
        let same = same_node m x (e ∙ sym p) (some_same m.snap x.snap (sym found ∙ q)) in
        rw same (not_replaced x n b (h b u) r)
    outcome_unbeaten id best n (taken x p q r u) h m e found fits =
        let same = same_node m x (e ∙ sym p) (some_same m.snap x.snap (sym found ∙ q)) in
        rw same (not_replaced_self x n (h x refl))

    IsOutcome-step :
        (id : String) (ids : List String) (best : Option (ScoredNode F))
        {best2 : Option (ScoredNode F)} (n : ScoredNode F)
        → Weighed best id best2
        → IsOutcome ids best2 n
        → IsOutcome (id ∷ ids) best n
    IsOutcome-step id ids best n w o = record {
      origin = outcome_origin id ids best n w o.origin;
      at_least = outcome-IsAtLeast id best n w o.at_least;
      unbeaten = λ m c. elim (split_listed m c.listed) [
        | inl e ↦ outcome_unbeaten id best n w o.at_least m e (rw (sym e) c.found) c.fits
        | inr l ↦ o.unbeaten m (record { listed = l; found = c.found; fits = c.fits })
      ];
    }
      where
        split_listed : (m : ScoredNode F) → Memᴰ m.id (id ∷ ids) → (m.id ≡ id) ⊎ Memᴰ m.id ids
        split_listed m (Memᴰ.head e) = inl e
        split_listed m (Memᴰ.tail l) = inr l

    best_from-IsOutcome :
        (ids : List String) (best : Option (ScoredNode F)) (n : ScoredNode F)
        → best_from fl set best catalog request pref restricted ids ≡ some n
        → IsOutcome ids best n
    unfolding best_from
    best_from-IsOutcome [] best n e = record {
      origin = inl e;
      at_least = λ b f. inl (some_node n b (sym e ∙ f));
      unbeaten = λ m c. absurd ((elim c.listed [ ]));
    }
    best_from-IsOutcome (id ∷ ids) best n e = IsOutcome-step id ids best n (weigh best id) (
        best_from-IsOutcome ids
          (choose_better_candidate fl set best catalog request pref restricted id) n e)

    Weighed-none :
        (id : String) (best : Option (ScoredNode F)) {best2 : Option (ScoredNode F)}
        → Weighed best id best2
        → best2 ≡ none
        → (best ≡ none)
          × ((m : ScoredNode F)
              → m.id ≡ id
              → catalog_get catalog id ≡ some m.snap
              → feasible fl set request.cpu_millis request.memory_byte m.snap ≡ false)
    Weighed-none id best (unusable u) e = (e, λ m p f. u m.snap f)
    Weighed-none id best (kept b x u p q r) e = absurd cc
    Weighed-none id best (taken x p q r u) e = absurd cc

    best_from-none :
        (ids : List String) (best : Option (ScoredNode F))
        → best_from fl set best catalog request pref restricted ids ≡ none
        → (best ≡ none) × ((m : ScoredNode F) → ¬ IsCandidate ids m)
    unfolding best_from
    best_from-none [] best e = (e, λ m c. (elim c.listed [ ]))
    best_from-none (id ∷ ids) best e =
        let rest =
          best_from-none ids
            (choose_better_candidate fl set best catalog request pref restricted id) e in
        let w = Weighed-none id best (weigh best id) rest.0 in
        (w.0, λ m c. no_candidate m c.found c.fits c.listed w.1 (rest.1 m))
      where
        no_candidate :
            (m : ScoredNode F)
            → catalog_get catalog m.id ≡ some m.snap
            → feasible fl set request.cpu_millis request.memory_byte m.snap ≡ true
            → Memᴰ m.id (id ∷ ids)
            → ((m : ScoredNode F)
                → m.id ≡ id
                → catalog_get catalog id ≡ some m.snap
                → feasible fl set request.cpu_millis request.memory_byte m.snap ≡ false)
            → ¬ IsCandidate ids m
            → ⊥
        no_candidate m found fits (Memᴰ.head p) out later =
            absurd (let f = out m p (rw (sym p) found) in cc (f, fits))
        no_candidate m found fits (Memᴰ.tail l) out later =
            later (record { listed = l; found = found; fits = fits })

    -- When the loop picks a node, the node is one of the candidates: it is listed, the catalog has its
    -- snapshot, and that has room for the request; and no candidate of the list replaces it.
    pub best_placement_candidate_found :
        (ids : List String) (n : ScoredNode F)
        → best_placement_candidate fl set ids catalog request pref restricted ≡ some n
        → IsCandidate ids n
          × ((m : ScoredNode F)
              → IsCandidate ids m
              → should_replace_candidate fl set m n pref restricted ≡ false)
    unfolding best_placement_candidate
    best_placement_candidate_found ids n e =
        let o = best_from-IsOutcome ids none n e in
        (elim o.origin [ inl bad ↦ absurd cc | inr c ↦ c ], o.unbeaten)

    -- When the loop picks no node, none of the list is a candidate.
    pub best_placement_candidate-none :
        (ids : List String)
        → best_placement_candidate fl set ids catalog request pref restricted ≡ none
        → (m : ScoredNode F) → ¬ IsCandidate ids m
    unfolding best_placement_candidate
    best_placement_candidate-none ids e = (best_from-none ids none e).1
