-- ===== src/Task/Restart/Limit.antt =====
-- The restarts that internal/services/task/recovery_restart.go grants are bounded by the document's limit.
use orch.Prelude.{
  ℕ, suc, ◌+◌, ◌^◌, ◌≤◌, ◌<◌, String, true, false, none, List, [], ◌∷◌, ◌≡◌, refl, arith, ◌⊎◌, inl,
  inr, ◌&&◌, ◌==◌, eq_iff, if◌then◌else◌, Bool-cases,
}
use orch.Prelude.Int.{ℤ, pos, ltb_ℤ, leb_ℤ}
use orch.Prelude.Lists.{All}
use orch.Prelude.GoMap
use orch.Prelude.GoMap.{GoMap, lookup-insert}
use orch.Deploy.Document.{Workload}
use orch.Task.Restart.{
  restart_policy_for_workload, is_never, workload_max_restarts, restart_attempt_key, next_attempt,
  attempts_or_zero, allow_workload_restart,
}

-- A failure of a workload, under the key of its assignment and the generation of its document.
pub record Failure : Type 0 where
  pub workload : Workload
  pub assignment_key : String
  pub generation : String

abbrev pub key_of : Failure → String
key_of x = restart_attempt_key x.assignment_key x.generation

-- The restarts granted under the key to a sequence of failures, those of other keys in between.
unfoldable pub granted : String → List Failure → GoMap ℤ → ℕ
granted key [] m = 0
granted key (x ∷ xs) m =
    let (allowed, m') = allow_workload_restart x.workload x.assignment_key x.generation m in
    let rest = granted key xs m' in
    if key_of x == key then (if allowed then suc rest else rest) else rest

-- The failures under the key are those of workloads with the limit.
abbrev pub AreLimited : String → ℕ → List Failure → Type 0
AreLimited key limit xs =
    All (λ x. key_of x ≡ key → workload_max_restarts x.workload ≡ pos limit) xs

record IsGranted (x : Failure) (m : GoMap ℤ) : Type 0 where
  allowed : (allow_workload_restart x.workload x.assignment_key x.generation m).0 ≡ true
  counted :
      (allow_workload_restart x.workload x.assignment_key x.generation m).1
      ≡ GoMap.insert (key_of x) (next_attempt (attempts_or_zero (GoMap.lookup (key_of x) m))) m
  below :
      (ltb_ℤ (pos 0) (workload_max_restarts x.workload)
        && leb_ℤ (workload_max_restarts x.workload) (attempts_or_zero (GoMap.lookup (key_of x) m)))
      ≡ false

grant_cases :
    (x : Failure) (m : GoMap ℤ)
    → (allow_workload_restart x.workload x.assignment_key x.generation m ≡ (false, m))
      ⊎ IsGranted x m
unfolding allow_workload_restart
grant_cases x m = elim (Bool-cases (is_never (restart_policy_for_workload x.workload))) [
  | inl never ↦ inl (rw never refl)
  | inr may ↦
      elim (Bool-cases (
        ltb_ℤ (pos 0) (workload_max_restarts x.workload)
        && leb_ℤ (workload_max_restarts x.workload)
            (attempts_or_zero (GoMap.lookup (key_of x) m)))) [
              | inl full ↦ inl (rw may (rw full refl))
              | inr free ↦ inr (record {
                allowed = rw may (rw free refl);
                counted = rw may (rw free refl);
                below = free;
              })
            ]
]

below_limit :
    (limit n : ℕ) (most attempts : ℤ)
    → most ≡ pos limit
    → attempts ≡ pos n
    → 0 < limit
    → (ltb_ℤ (pos 0) most && leb_ℤ most attempts) ≡ false
    → suc n ≤ limit
below_limit limit n most attempts p q low h = (let r = (rw (p, q) at h) in ground arith)

next_of : (n limit : ℕ) → suc n ≤ limit → limit < 2 ^ 63 → next_attempt (pos n) ≡ pos (suc n)
unfolding next_attempt
next_of n limit room high = ground arith

granted_from :
    (key : String) (limit : ℕ) (xs : List Failure) (m : GoMap ℤ) (n : ℕ)
    → 0 < limit
    → limit < 2 ^ 63
    → AreLimited key limit xs
    → attempts_or_zero (GoMap.lookup key m) ≡ pos n
    → n ≤ limit
    → n + granted key xs m ≤ limit
unfolding granted attempts_or_zero
granted_from key limit [] m n low high h e le = omega arith
granted_from key limit (x ∷ xs) m n low high h e le =
    let rest = λ (m2 : GoMap ℤ) (k : ℕ). granted_from key limit xs m2 k low high h.1 in
    elim (grant_cases x m) [
      | inl refused ↦ rw refused (ground (arith, rest m n e le))
      | inr g ↦ elim (Bool-cases (key_of x == key)) [
        | inl same ↦
            (let q = (eq_iff (key_of x) key).0 same in
              let at : attempts_or_zero (GoMap.lookup (key_of x) m) ≡ pos n = rw q e in
              let room =
                below_limit limit n (workload_max_restarts x.workload) _ (h.0 q) at low g.below in
              let later =
                rest
                  (GoMap.insert (key_of x)
                    (next_attempt (attempts_or_zero (GoMap.lookup (key_of x) m))) m)
                  (suc n) (rw (lookup-insert, same) (rw at (next_of n limit room high))) room in
              rw same (rw g.allowed (rw g.counted (omega (arith, later)))))
        | inr other ↦ rw other (
            rw g.counted (
              rest
                (GoMap.insert (key_of x)
                  (next_attempt (attempts_or_zero (GoMap.lookup (key_of x) m))) m)
                n (rw (lookup-insert, other) e) le))
      ]
    ]

-- Whatever fails and in whatever order, the restarts granted under one key, from a map without an
-- entry for it, are at most the limit that the workloads of all failures under the key have, where
-- that limit is positive and fits an int.
pub granted_le_limit :
    (key : String) (limit : ℕ) (xs : List Failure) (m : GoMap ℤ)
    → 0 < limit
    → limit < 2 ^ 63
    → AreLimited key limit xs
    → GoMap.lookup key m ≡ none
    → granted key xs m ≤ limit
unfolding attempts_or_zero
granted_le_limit key limit xs m low high h e =
    let bound = granted_from key limit xs m 0 low high h (rw e refl) (omega arith) in
    omega (arith, bound)
