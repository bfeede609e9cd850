-- ===== src/Runtime.antt =====
-- internal/runtime/runconfig/runconfig.go: the processor limits that a runtime is given.
pub mod Limits
use orch.Prelude.{ℕ, zero, suc, ◌+◌, ◌-◌, ◌*◌, ◌%◌, Bool, if◌then◌else◌, ltb}
use Prim.Native.Nat.{◌/◌}
use orch.Prelude.Int.{ℤ, pos, negsuc, pos_part, leb_ℤ}

abbrev pub max_int64 : ℕ
max_int64 = 9223372036854775807

abbrev pub nano_cpus_per_milli : ℕ
nano_cpus_per_milli = 1000000

abbrev pub cfs_period_micros : ℕ
cfs_period_micros = 100000

-- An argument of type int64 is at most max_int64.
unfoldable pub nano_cpus : ℤ → ℤ
nano_cpus cpu_millis =
    if leb_ℤ cpu_millis (pos 0)
    then pos 0
    else if ltb (max_int64 / nano_cpus_per_milli) (pos_part cpu_millis)
    then pos max_int64
    else pos (pos_part cpu_millis * nano_cpus_per_milli)

-- The int64 with the 64 bits of n.
unfoldable pub wrapped : ℕ → ℤ
wrapped n =
    let bits = n % 18446744073709551616 in
    if ltb max_int64 bits then negsuc (18446744073709551615 - bits) else pos bits

negated : ℕ → ℤ
negated zero = pos 0
negated (suc n) = negsuc n

-- Go's x / 1000, which rounds toward zero.
unfoldable pub per_mille : ℤ → ℤ
unfolding negated
per_mille (pos n) = pos (n / 1000)
per_mille (negsuc n) = negated (suc n / 1000)

unfoldable pub at_least_one : ℤ → ℤ
at_least_one quota = if leb_ℤ quota (pos 0) then pos 1 else quota

unfoldable pub cfs_quota : ℤ → ℤ × ℕ
unfolding wrapped per_mille at_least_one
cfs_quota cpu_millis = if leb_ℤ cpu_millis (pos 0) then (pos 0, cfs_period_micros) else (
  at_least_one (per_mille (wrapped (cfs_period_micros * pos_part cpu_millis))),
  cfs_period_micros,
)
