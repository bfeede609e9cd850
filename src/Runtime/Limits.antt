-- ===== src/Runtime/Limits.antt =====
-- The bounds of the processor limits.
mod Samples
use orch.Prelude.{
  ℕ, zero, false, suc, ◌+◌, ◌-◌, ◌≤◌, ◌≡◌, refl, ap, ◌⊎◌, inl, inr, arith, Bool-cases,
  if◌then◌else◌, ltb, leb,
}
use Prim.Native.Nat.{◌*◌, ◌/◌, ◌%◌}
use orch.Prelude.Int.{ℤ, pos, negsuc, leb_ℤ}
use orch.Runtime.{
  max_int64, nano_cpus_per_milli, cfs_period_micros, nano_cpus, wrapped, negated, per_mille,
  at_least_one, cfs_quota,
}

-- The processors of a container are a million times the millicores asked for, or the greatest int64
-- where that is less.
pub nano_cpus_lem :
    (m : ℕ)
    → ((nano_cpus (pos m) ≡ pos (m * nano_cpus_per_milli)) × (m * nano_cpus_per_milli ≤ max_int64))
      ⊎ ((nano_cpus (pos m) ≡ pos max_int64) × (max_int64 + 1 ≤ m * nano_cpus_per_milli))
unfolding nano_cpus
nano_cpus_lem m = elim (Bool-cases (leb m 0)) [
  | inl least ↦ inl (ground (arith, least), ground (arith, least))
  | inr more ↦ elim (Bool-cases (ltb (max_int64 / nano_cpus_per_milli) m)) [
    | inl great ↦ inr (ground (arith, more, great), ground (arith, great))
    | inr small ↦ inl (ground (arith, more, small), ground (arith, small))
  ]
]

-- The quota is at least one and at most a hundred times the millicores asked for, and less only
-- where the product with the period is no int64.
abbrev pub IsQuota : ℕ → ℤ → Type 0
IsQuota m quota =
    (q : ℕ) × (quota ≡ pos q)
    × (1 ≤ q)
    × (q ≤ m * 100)
    × ((q ≡ m * 100) ⊎ (max_int64 + 1 ≤ m * cfs_period_micros))

at_least_one-negated : (n : ℕ) → at_least_one (negated n) ≡ pos 1
unfolding at_least_one negated
at_least_one-negated zero = refl
at_least_one-negated (suc n) = ground arith

at_least_one-pos :
    (n : ℕ) → (at_least_one (pos n) ≡ pos 1) × (n ≡ 0) ⊎ (at_least_one (pos n) ≡ pos n) × (1 ≤ n)
unfolding at_least_one
at_least_one-pos zero = inl (refl, refl)
at_least_one-pos (suc n) = inr (ground arith, omega arith)

exact_or_great :
    (m p : ℕ)
    → p ≡ (cfs_period_micros * m) % 18446744073709551616
    → (p / 1000 ≡ m * 100) ⊎ (max_int64 + 1 ≤ m * cfs_period_micros)
exact_or_great m p e = elim (Bool-cases (leb (m * cfs_period_micros) max_int64)) [
  | inl fits ↦ inl (ground (arith, e, fits))
  | inr great ↦ inr (ground (arith, great))
]

pos-IsQuota :
    (m p : ℕ)
    → 1 ≤ m
    → p ≡ (cfs_period_micros * m) % 18446744073709551616
    → p ≤ max_int64
    → IsQuota m (at_least_one (pos (p / 1000)))
pos-IsQuota m p h e small = elim (at_least_one-pos (p / 1000)) [
  | inl (one, least) ↦ (1, one, omega arith, omega (arith, h), inr (omega (arith, h, e, least)))
  | inr (same, more) ↦ (p / 1000, same, more, omega (arith, e), exact_or_great m p e)
]

at_least_one-IsQuota :
    (m : ℕ) → 1 ≤ m → IsQuota m (at_least_one (per_mille (wrapped (cfs_period_micros * m))))
unfolding at_least_one per_mille wrapped
at_least_one-IsQuota m h =
    elim (Bool-cases (ltb max_int64 ((cfs_period_micros * m) % 18446744073709551616))) [
      | inl negative ↦
          rw
            (
              negative,
              at_least_one-negated (
                  suc (18446744073709551615 - (cfs_period_micros * m) % 18446744073709551616)
                  / 1000),
            )
            (1, refl, omega arith, omega (arith, h), inr (ground (arith, negative)))
      | inr kept ↦ rw kept (pos-IsQuota m _ h refl (ground (arith, kept)))
    ]

-- The period of a quota is a tenth of a second. The quota is at least one and at most a hundred
-- microseconds for each millicore, and less than that only where the product of the millicores with
-- the period is too large for an int64.
pub cfs_quota_lem :
    (m : ℕ) → 1 ≤ m → IsQuota m (cfs_quota (pos m)).0 × ((cfs_quota (pos m)).1 ≡ cfs_period_micros)
unfolding cfs_quota
cfs_quota_lem m h =
    let more : leb (m + 0) 0 ≡ false = ground (arith, h) in rw more (at_least_one-IsQuota m h, refl)
