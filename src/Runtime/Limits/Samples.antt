-- ===== src/Runtime/Limits/Samples.antt =====
-- Runs of internal/runtime/runconfig/runconfig.go.
use orch.Prelude.{◌+◌, ◌*◌, ◌≤◌, ◌≡◌, ◌⊎◌, refl, arith}
use orch.Prelude.Int.{pos}
use orch.Runtime.{max_int64, nano_cpus_per_milli, cfs_period_micros, nano_cpus, cfs_quota}
use orch.Runtime.Limits.{IsQuota, nano_cpus_lem, cfs_quota_lem}

nano_cpus_lem_example :
    ((nano_cpus (pos 1500) ≡ pos (1500 * nano_cpus_per_milli))
      × (1500 * nano_cpus_per_milli ≤ max_int64))
    ⊎ ((nano_cpus (pos 1500) ≡ pos max_int64) × (max_int64 + 1 ≤ 1500 * nano_cpus_per_milli))
nano_cpus_lem_example = nano_cpus_lem 1500

cfs_quota_lem_example :
    IsQuota 250 (cfs_quota (pos 250)).0 × ((cfs_quota (pos 250)).1 ≡ cfs_period_micros)
cfs_quota_lem_example = cfs_quota_lem 250 (omega arith)

quarter : cfs_quota (pos 250) ≡ (pos 25000, 100000)
unfolding cfs_quota
quarter = refl

-- The product wraps around, and the quota is the least one.
too_great : cfs_quota (pos 92233720368548) ≡ (pos 1, 100000)
unfolding cfs_quota
too_great = refl
