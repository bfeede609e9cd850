-- ===== src/Placement/Listed.antt =====
-- placementCandidates of internal/placement/v1alpha1.go: which known nodes it hands to the loop.
use orch.Prelude.{
  String, Bool, true, false, Option, none, some, List, [], ◌∷◌, ◌≡◌, refl, sym, subst, inl, inr,
  Bool-cases, if◌then◌else◌,
}
use orch.Prelude.Text.{trim_space}
use mathlib.Core.List.{Memᴰ}
use orch.Placement.Libraries.{Float64, OrderedSet, OrderedSetLaws, SnapshotStore}
use orch.Placement.Choose.{PlacementError, Result, ok, err, filter_wanted, matching, candidates_of}

abbrev pub is_some {ℓ} : {A : Type ℓ} → Option A → Bool
is_some none = false
is_some (some want) = true

module _ {F O : Type 0} (fl : Float64 F) (set : OrderedSet O) (catalog : SnapshotStore F) where
  -- The workload's preferred nodes, if it has any, contain the node.
  abbrev pub IsPreferred : Option O → String → Type 0
  IsPreferred want id = (s : O) → want ≡ some s → set.contains s (trim_space id) ≡ true

  -- What the two steps before the loop hand on: an error only if no known node is preferred, else
  -- the preferred ones of the known nodes.
  pub data IsListed (want : Option O) : Result (List String × Option O × Bool) → Type 0 where
    refused :
        (e : PlacementError)
        → ((id : String) → Memᴰ id catalog.node_ids → IsPreferred want id → ⊥)
        → IsListed want (err e)
    listed :
        (ids : List String)
        → ((id : String) → Memᴰ id ids → Memᴰ id catalog.node_ids × IsPreferred want id)
        → ((id : String) → Memᴰ id catalog.node_ids → IsPreferred want id → Memᴰ id ids)
        → IsListed want (ok (ids, want, is_some want))

  filter_wanted_sound :
      (s : O) (ids : List String) (id : String)
      → Memᴰ id (filter_wanted fl set s ids)
      → Memᴰ id ids × (set.contains s (trim_space id) ≡ true)
  unfolding filter_wanted
  filter_wanted_sound s [] id m = elim m [ ]
  filter_wanted_sound s (x ∷ ids) id m =
      let rest = filter_wanted_sound s ids id in
      let at = λ (b : Bool).
        Memᴰ id (if b then x ∷ filter_wanted fl set s ids else filter_wanted fl set s ids) in
      elim (Bool-cases (set.contains s (trim_space x))) [
        | inl h ↦ kept_member (subst at h m) h rest
        | inr h ↦ (Memᴰ.tail (rest (subst at h m)).0, (rest (subst at h m)).1)
      ]
    where
      kept_member :
          Memᴰ id (x ∷ filter_wanted fl set s ids)
          → set.contains s (trim_space x) ≡ true
          → (Memᴰ id (filter_wanted fl set s ids)
              → Memᴰ id ids × (set.contains s (trim_space id) ≡ true))
          → Memᴰ id (x ∷ ids) × (set.contains s (trim_space id) ≡ true)
      kept_member (Memᴰ.head e) h rest = (Memᴰ.head e, rw e h)
      kept_member (Memᴰ.tail t) h rest = (Memᴰ.tail (rest t).0, (rest t).1)

  filter_wanted_complete :
      (s : O) (ids : List String) (id : String)
      → Memᴰ id ids
      → set.contains s (trim_space id) ≡ true
      → Memᴰ id (filter_wanted fl set s ids)
  unfolding filter_wanted
  filter_wanted_complete s [] id m c = elim m [ ]
  filter_wanted_complete s (x ∷ ids) id (Memᴰ.head e) c = rw (sym e) (rw c (Memᴰ.head refl))
  filter_wanted_complete s (x ∷ ids) id (Memᴰ.tail m) c =
      elim (Bool-cases (set.contains s (trim_space x))) [
        | inl h ↦ rw h (Memᴰ.tail (filter_wanted_complete s ids id m c))
        | inr out ↦ rw out (filter_wanted_complete s ids id m c)
      ]

  same_set : (a b : O) → some a ≡ some b → a ≡ b
  same_set a b e = cc

  matching-IsListed :
      (s : O) (ids : List String)
      → ((id : String)
          → Memᴰ id ids
          → Memᴰ id catalog.node_ids × (set.contains s (trim_space id) ≡ true))
      → ((id : String)
          → Memᴰ id catalog.node_ids
          → set.contains s (trim_space id) ≡ true
          → Memᴰ id ids)
      → IsListed (some s) (matching fl set ids s)
  unfolding matching
  matching-IsListed s [] sound complete = refused _ (λ id m p. elim (complete id m (p s refl)) [ ])
  matching-IsListed s (x ∷ ids) sound complete =
      listed (x ∷ ids) (λ id m. (let r = sound id m in (r.0, λ t e. rw (sym (same_set s t e)) r.1)))
        (λ id m p. complete id m (p s refl))

  pub candidates_of-IsListed :
      OrderedSetLaws set
      → (want : Option O) → IsListed want (candidates_of fl set want catalog.node_ids)
  unfolding candidates_of
  candidates_of-IsListed laws none =
      listed catalog.node_ids (λ id m. (m, λ s e. absurd cc)) (λ id m p. m)
  candidates_of-IsListed laws (some s) = elim (Bool-cases (set.is_empty s)) [
    | inl h ↦ rw h (
        refused _ (λ id m p.
          absurd
            (let q = p s refl in let f = laws.empty_contains s (trim_space id) h in cc (q, f))))
    | inr out ↦ rw out (
        matching-IsListed s (filter_wanted fl set s catalog.node_ids)
          (filter_wanted_sound s catalog.node_ids) (filter_wanted_complete s catalog.node_ids))
  ]
