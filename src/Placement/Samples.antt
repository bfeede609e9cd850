-- ===== src/Placement/Samples.antt =====
-- Runs of internal/placement/v1alpha1.go on two nodes, with whole numbers for float64 and a list for
-- the ordered set.
use orch.Prelude.{
  ℕ, ◌-◌, ◌*◌, String, Bool, true, false, none, some, List, [], ◌∷◌, ◌++◌, ◌≡◌, refl, arith, ◌↔◌,
  ◌==◌, eq_iff, subst, inl, inr, Bool-cases, if◌then◌else◌, eqb, ltb, leb,
}
use orch.Prelude.Int.{pos, pos_part}
use orch.Deploy.Document.{Workload}
use orch.Raft.State.{Snapshot}
use orch.Placement.Libraries.{
  Float64, Float64Laws, OrderedSet, OrderedSetLaws, OrderedSetAdds, SnapshotStore,
}
use orch.Placement.Choose.{
  ScoredNode, PlacementError, err, should_replace_candidate, choose_v1_alpha1, choose_from,
  placement_candidates, preferred_names, workload_request, best_placement_candidate,
  choose_better_candidate, catalog_get, feasible, best_id, preferred_rank,
}
use orch.Prelude.Text.{trim_space}
use orch.Placement.Order.{should_replace_trans}
use orch.Placement.Decision.{IsEligible, IsBest, choose_v1_alpha1_found, choose_v1_alpha1_refused}

abbrev pub whole : Float64 ℕ
whole = record {
  zero_f = 0;
  hundred = 100;
  lt = ltb;
  le = leb;
  eq = eqb;
  sub = λ a b. a - b;
  div = λ a b. if ltb a b then 0 else 1;
  mul = λ a b. a * b;
  of_int64 = pos_part;
  to_int64 = pos;
}

pub whole_laws : Float64Laws whole
whole_laws = record {
  lt_irrefl = λ a. ground arith;
  lt_trans = λ a b c h k. ground arith;
  lt_not_eq = λ a b h. ground arith;
  lt_eq = λ a b c h k. ground arith;
  eq_lt = λ a b c h k. ground arith;
  eq_trans = λ a b c h k. ground arith;
}

abbrev list_contains : List String → String → Bool
list_contains [] x = false
list_contains (y ∷ ys) x = if y == x then true else list_contains ys x

abbrev is_empty_list : List String → Bool
is_empty_list [] = true
is_empty_list (y ∷ ys) = false

abbrev pub list_set : OrderedSet (List String)
list_set = record {
  new_set = [];
  add = λ x xs. if list_contains xs x then xs else xs ++ x ∷ [];
  contains = list_contains;
  is_empty = is_empty_list;
  values = λ xs. xs;
}

pub list_set_laws : OrderedSetLaws list_set
list_set_laws = record { empty_contains = empty_list_contains }
  where
    empty_list_contains :
        (s : List String) (x : String) → is_empty_list s ≡ true → list_contains s x ≡ false
    empty_list_contains [] x h = refl
    empty_list_contains (y ∷ ys) x h = absurd cc

pub list_set_adds : OrderedSetAdds list_set
list_set_adds = record { contains-new_set = λ x. refl; contains-add = λ a x s. adding a x s }
  where
    snoc :
        (a x : String) (s : List String)
        → list_contains (s ++ a ∷ []) x ≡ (if a == x then true else list_contains s x)
    snoc a x [] = refl
    snoc a x (y ∷ s) = ground (arith, snoc a x s)

    held :
        (a x : String) (s : List String)
        → list_contains s a ≡ true
        → list_contains s x ≡ (if a == x then true else list_contains s x)
    held a x s h = elim (Bool-cases (a == x)) [
      | inl same ↦
          (let e : a ≡ x = (eq_iff a x).0 same in
            rw same (subst (λ y. list_contains s y ≡ true) e h))
      | inr other ↦ rw other refl
    ]

    adding :
        (a x : String) (s : List String)
        → list_contains (if list_contains s a then s else s ++ a ∷ []) x
          ≡ (if a == x then true else list_contains s x)
    adding a x s = elim (Bool-cases (list_contains s a)) [
      | inl h ↦ rw h (held a x s h)
      | inr h ↦ rw h (snoc a x s)
    ]

abbrev node_of : String → ℕ → ℕ → Snapshot ℕ
node_of name usage avail = record {
  node_id = name;
  updated_at = 1;
  logical_cpu_cores = pos 2;
  cpu_usage_percent = usage;
  memory_total_bytes = 1000;
  memory_avail_bytes = avail;
  memory_used_pct = 0;
}

abbrev pub two_nodes : SnapshotStore ℕ
two_nodes = record {
  get = λ id.
      if id == "a"
      then some (node_of "a" 30 500)
      else if id == "b"
      then some (node_of "b" 20 500)
      else none;
  node_ids = "a" ∷ "b" ∷ [];
  len = 2;
}

abbrev pub workload_of : ℕ → List String → Workload
workload_of memory preferred = record {
  name = "web";
  kind = "service";
  run = record {
    artifact = record { image = "nginx:1"; path = ""; url = "" };
    exec = record { command = []; args = [] };
    env = [];
    cwd = "";
    user = "";
    options = record {
      docker = none;
      containerd = none;
      firecracker = none;
      process = none;
      systemd = none;
      windows_service = none;
    };
  };
  runtime = "docker";
  replicas = pos 1;
  depends_on = [];
  endpoints = [];
  mounts = [];
  resources = some (record { cpu_millis = pos 0; memory_bytes = pos memory });
  health = none;
  lifecycle = none;
  scheduling =
      some (record { stateful = false; allow_leader = false; preferred_nodes = preferred });
  rollout = none;
}

abbrev scored : String → ℕ → ℕ → ScoredNode ℕ
scored name usage avail = record { id = name; snap = node_of name usage avail }

should_replace_trans_example :
    should_replace_candidate whole list_set
      (scored "a" 10 500)
      (scored "c" 20 500)
      (some ("b" ∷ "c" ∷ []))
      true
    ≡ true
unfolding should_replace_candidate preferred_rank
should_replace_trans_example =
    should_replace_trans whole whole_laws list_set (scored "a" 10 500) (scored "b" 20 500)
      (scored "c" 20 500) (some ("b" ∷ "c" ∷ [])) true refl refl

choose_v1_alpha1_found_example :
    (n : ScoredNode ℕ) × (n.id ≡ "b") × IsBest whole list_set (workload_of 400 []) two_nodes n
unfolding choose_v1_alpha1 choose_from placement_candidates preferred_names workload_request
    best_placement_candidate choose_better_candidate catalog_get feasible should_replace_candidate
    best_id trim_space
choose_v1_alpha1_found_example =
    choose_v1_alpha1_found whole list_set (workload_of 400 []) two_nodes whole_laws list_set_laws
      "here" "b" refl refl

choose_v1_alpha1_refused_example :
    ((e : PlacementError) × (choose_v1_alpha1 whole list_set
          (workload_of 600 (" a " ∷ []))
          (some two_nodes)
          "here"
        ≡ err e))
    ↔ ((n : ScoredNode ℕ) → ¬ IsEligible whole list_set (workload_of 600 (" a " ∷ [])) two_nodes n)
choose_v1_alpha1_refused_example =
    choose_v1_alpha1_refused whole list_set (workload_of 600 (" a " ∷ [])) two_nodes whole_laws
      list_set_laws "here" refl
