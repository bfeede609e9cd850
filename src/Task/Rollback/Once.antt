-- ===== src/Task/Rollback/Once.antt =====
-- internal/services/task/auto_rollback.go rolls a generation of an app back at most once.
use orch.Prelude.{
  ℕ, suc, ◌≤◌, String, Bool, true, false, Option, none, some, List, [], ◌∷◌, ◌≡◌, refl, sym, inl,
  inr, arith, ◌==◌, eq_iff, if◌then◌else◌, Bool-cases,
}
use orch.Prelude.Text.{trim_space}
use orch.Prelude.GoMap
use orch.Prelude.GoMap.{lookup-insert}
use orch.Deploy.Document.{Metadata, Workload, App}
use orch.Raft.State.{DeployAppRevision, Fsm}
use orch.Raft.Json.{Json}
use orch.Task.Rollback.{
  Guards, struct, is_found, auto_rollback_guard_key, auto_rollback_configured,
  previous_auto_rollback_revision, auto_rollback_desired_generation_current, auto_rollback_revision,
  maybe_auto_rollback_deploy_failure, mark_auto_rollback_attempt, suppress_auto_rollback,
  marked_revision, current_revision, submitted,
}

mark_false :
    (m : Metadata) (generation : String) (g : Guards)
    → (mark_auto_rollback_attempt m generation g).0 ≡ false
    → (mark_auto_rollback_attempt m generation g).1 ≡ g
unfolding mark_auto_rollback_attempt
mark_false m generation g h = ground arith

mark_true :
    (m : Metadata) (generation : String) (g : Guards)
    → (mark_auto_rollback_attempt m generation g).0 ≡ true
    → (is_found (GoMap.lookup (auto_rollback_guard_key m generation) g.attempts) ≡ false)
      × ((mark_auto_rollback_attempt m generation g).1 ≡ record g {
        attempts = GoMap.insert (auto_rollback_guard_key m generation) struct g.attempts;
      })
unfolding mark_auto_rollback_attempt
mark_true m generation g h = (ground arith, ground arith)

suppress-attempts :
    (m : Metadata) (generation : String) (g : Guards)
    → (suppress_auto_rollback m generation g).attempts ≡ g.attempts
unfolding suppress_auto_rollback
suppress-attempts m generation g = ground arith

-- What a report of a failure does: nothing, or an attempt is marked and a document may be submitted.
data Reported (app : Option App) (generation : String) (g : Guards)
    : Option App × Guards → Type 0 where
  passed_over : Reported app generation g (none, g)
  attempted :
      (a : App) (o : Option App) (g2 : Guards)
      → app ≡ some a
      → (mark_auto_rollback_attempt a.metadata generation g).0 ≡ true
      → g2.attempts ≡ (mark_auto_rollback_attempt a.metadata generation g).1.attempts
      → Reported app generation g (o, g2)

module _ (preflight : App → Bool) (a : App) (generation : String) (g : Guards) where
  submitted-Reported :
      (r : DeployAppRevision) (g2 : Guards)
      → (mark_auto_rollback_attempt a.metadata generation g).0 ≡ true
      → g2 ≡ (mark_auto_rollback_attempt a.metadata generation g).1
      → Reported (some a) generation g (submitted preflight (some a) (some r, g2))
  unfolding submitted
  submitted-Reported r g2 marked e = elim (Bool-cases (preflight r.app)) [
    | inl passed ↦ rw passed (
        attempted a _ _ refl marked (rw (suppress-attempts a.metadata r.generation g2) (rw e refl)))
    | inr refused ↦ rw refused (attempted a _ _ refl marked (rw e refl))
  ]

  marked-Reported :
      (o : Option DeployAppRevision)
      → Reported
          (some a)
          generation
          g
          (submitted preflight (some a) (marked_revision o a.metadata generation g))
  unfolding submitted marked_revision
  marked-Reported none = passed_over
  marked-Reported (some r) =
      elim (Bool-cases (mark_auto_rollback_attempt a.metadata generation g).0) [
        | inl marked ↦ rw marked (
            submitted-Reported r (mark_auto_rollback_attempt a.metadata generation g).1 marked refl)
        | inr full ↦ rw full (rw (mark_false a.metadata generation g full) passed_over)
      ]

unfoldable pub guard_key_of : Option App → String → String
guard_key_of none generation = ""
guard_key_of (some a) generation = auto_rollback_guard_key a.metadata generation

unfoldable pub count_some : Option App → ℕ → ℕ
count_some none n = n
count_some (some a) n = suc n

-- How many rollbacks a key has left: none once it is marked.
abbrev left : Bool → ℕ
left true = 0
left false = 1

left_le : (b : Bool) → left b ≤ 1
left_le true = omega arith
left_le false = omega arith

count_le : (o : Option App) (n : ℕ) → count_some o n ≤ suc n
unfolding count_some
count_le none n = omega arith
count_le (some a) n = omega arith

same_key :
    (key : String) (a : App) (generation : String) (g : Guards) (o : Option App) (rest : ℕ)
    → auto_rollback_guard_key a.metadata generation ≡ key
    → is_found (GoMap.lookup (auto_rollback_guard_key a.metadata generation) g.attempts) ≡ false
    → rest ≤ 0
    → count_some o rest ≤ left (is_found (GoMap.lookup key g.attempts))
same_key key a generation g o rest e fresh h =
    rw (sym e) (rw fresh (let c = count_le o rest in omega (arith, c)))

Reported-le :
    (key : String) (app : Option App) (generation : String) (g : Guards) {x : Option App × Guards}
    → Reported app generation g x
    → (rest : ℕ) → rest ≤ left (is_found (GoMap.lookup key x.1.attempts))
    → (if guard_key_of app generation == key then count_some x.0 rest else rest)
      ≤ left (is_found (GoMap.lookup key g.attempts))
unfolding guard_key_of count_some
Reported-le key app generation g passed_over rest h =
    elim (Bool-cases (guard_key_of app generation == key)) [
      | inl same ↦ rw same h
      | inr other ↦ rw other h
    ]
Reported-le key app generation g (attempted a o g2 e marked att) rest h =
    let (fresh, written) = mark_true a.metadata generation g marked in
    let found : GoMap.lookup key g2.attempts ≡ (
        if auto_rollback_guard_key a.metadata generation == key
        then some struct
        else GoMap.lookup key g.attempts) =
      rw att (
        rw written
          (lookup-insert (auto_rollback_guard_key a.metadata generation) key struct g.attempts)) in
    rw e (elim (Bool-cases (auto_rollback_guard_key a.metadata generation == key)) [
      | inl same ↦ rw same (
          same_key key a generation g o rest
            ((eq_iff (auto_rollback_guard_key a.metadata generation) key).0 same) fresh
            (rw (found, same) at h))
      | inr other ↦ rw other (rw (found, other) at h)
    ])

module _ {F : Type 0} (json : Json F) where
  current-Reported :
      (preflight : App → Bool) (raft : Option (Fsm F)) (app : Option App) (generation : String)
      (g : Guards)
      → Reported app generation g
          (submitted preflight app (current_revision json raft app generation g))
  unfolding current_revision submitted
  current-Reported preflight none app generation g = passed_over
  current-Reported preflight (some raft) none generation g = passed_over
  current-Reported preflight (some raft) (some a) generation g =
      elim (Bool-cases (auto_rollback_desired_generation_current json raft a.metadata generation)) [
        | inl is ↦ rw is (
            marked-Reported preflight a generation g
              (previous_auto_rollback_revision raft a.metadata generation))
        | inr gone ↦ rw gone passed_over
      ]

  maybe-Reported :
      (preflight : App → Bool) (raft : Option (Fsm F)) (app : Option App) (w : Workload)
      (generation : String) (g : Guards)
      → Reported app
          (trim_space generation)
          g
          (maybe_auto_rollback_deploy_failure json preflight raft app w generation g)
  unfolding maybe_auto_rollback_deploy_failure auto_rollback_revision submitted
  maybe-Reported preflight raft app w generation g =
      elim (Bool-cases (auto_rollback_configured raft app w (trim_space generation) g)) [
        | inl on ↦ rw on (current-Reported preflight raft app (trim_space generation) g)
        | inr off ↦ rw off passed_over
      ]

  -- A failure that is reported: of which workload and generation, in which replicated state.
  pub record Report : Type 0 where
    pub preflight : App → Bool
    pub raft : Option (Fsm F)
    pub app : Option App
    pub workload : Workload
    pub generation : String

  -- The documents that a sequence of reports submits under the key of an app and a generation.
  unfoldable pub rollbacks : String → List Report → Guards → ℕ
  unfolding guard_key_of count_some
  rollbacks key [] g = 0
  rollbacks key (p ∷ ps) g =
      let (o, g') =
        maybe_auto_rollback_deploy_failure json p.preflight p.raft p.app p.workload p.generation
          g in
      let rest = rollbacks key ps g' in
      if guard_key_of p.app (trim_space p.generation) == key then count_some o rest else rest

  rollbacks_le :
      (key : String) (ps : List Report) (g : Guards)
      → rollbacks key ps g ≤ left (is_found (GoMap.lookup key g.attempts))
  unfolding rollbacks
  rollbacks_le key [] g = omega arith
  rollbacks_le key (p ∷ ps) g =
      let g' =
        (maybe_auto_rollback_deploy_failure json p.preflight p.raft p.app p.workload p.generation
          g).1 in
      Reported-le key p.app (trim_space p.generation) g
        (maybe-Reported p.preflight p.raft p.app p.workload p.generation g) (rollbacks key ps g')
        (rollbacks_le key ps g')

  -- Whatever failures are reported, in whatever order and in whatever replicated states, at most one
  -- automatic rollback is submitted under the key of an app and a generation.
  pub rollbacks_le_one : (key : String) (ps : List Report) (g : Guards) → rollbacks key ps g ≤ 1
  rollbacks_le_one key ps g =
      let bound = rollbacks_le key ps g in
      let most = left_le (is_found (GoMap.lookup key g.attempts)) in omega (arith, bound, most)
