-- ===== src/Task/Restart.antt =====
-- internal/services/task/recovery.go and recovery_restart.go: whether a failed workload of this node is
-- restarted. The map is read and written under its lock, so a call is one step.
pub mod Limit
use orch.Prelude.{
  ℕ, suc, ◌^◌, ◌-◌, String, Bool, true, false, not, ◌&&◌, ◌||◌, Option, none, some, ◌==◌,
  if◌then◌else◌, eqb,
}
use Prim.Native.String.{◌++◌}
use orch.Prelude.Int.{ℤ, pos, negsuc, ltb_ℤ, leb_ℤ}
use orch.Prelude.Text.{trim_space}
use orch.Prelude.GoMap
use orch.Prelude.GoMap.{GoMap}
use orch.Deploy.Document.{Metadata, Lifecycle, Workload}
use orch.Deploy.Constants.{
  kind_job, kind_cron, restart_policy_always, restart_policy_on_failure, restart_policy_never,
}
use orch.Meta.{Assignment, assignment_key}
use orch.Raft.State.{Fsm}
use orch.Raft.Lookup.{get_assignment}

abbrev pub assignment_status_running : String
assignment_status_running = "running"

-- restartPolicy, whose constants have the texts of the document's
pub data RestartPolicy : Type 0 where
  always on_failure never : RestartPolicy

policy_of_kind : String → RestartPolicy
policy_of_kind kind = if kind == kind_job || kind == kind_cron then never else always

policy_of_lifecycle : Option Lifecycle → String → RestartPolicy
unfolding policy_of_kind
policy_of_lifecycle none kind = policy_of_kind kind
policy_of_lifecycle (some l) kind =
    let policy = trim_space l.restart_policy in
    if policy == restart_policy_always
    then always
    else if policy == restart_policy_on_failure
    then on_failure
    else if policy == restart_policy_never
    then never
    else policy_of_kind kind

unfoldable pub restart_policy_for_workload : Workload → RestartPolicy
unfolding policy_of_lifecycle
restart_policy_for_workload w = policy_of_lifecycle w.lifecycle w.kind

unfoldable pub is_never : RestartPolicy → Bool
is_never never = true
is_never always = false
is_never on_failure = false

max_of_lifecycle : Option Lifecycle → ℤ
max_of_lifecycle none = pos 0
max_of_lifecycle (some l) = if leb_ℤ l.max_restarts (pos 0) then pos 0 else l.max_restarts

unfoldable pub workload_max_restarts : Workload → ℤ
unfolding max_of_lifecycle
workload_max_restarts w = max_of_lifecycle w.lifecycle

unfoldable pub restart_attempt_key : String → String → String
restart_attempt_key assignment_key generation =
    trim_space assignment_key ++ "@" ++ trim_space generation

-- attempts + 1, as an int of 64 bits
unfoldable pub next_attempt : ℤ → ℤ
next_attempt (pos n) = if eqb n (2 ^ 63 - 1) then negsuc (2 ^ 63 - 1) else pos (suc n)
next_attempt (negsuc ℕ.zero) = pos 0
next_attempt (negsuc (suc n)) = negsuc n

-- A missing key reads as 0.
unfoldable pub attempts_or_zero : Option ℤ → ℤ
attempts_or_zero none = pos 0
attempts_or_zero (some n) = n

unfoldable pub allow_workload_restart : Workload → String → String → GoMap ℤ → Bool × GoMap ℤ
allow_workload_restart w assignment_key generation attempts_map =
    let max_restarts = workload_max_restarts w in
    let key = restart_attempt_key assignment_key generation in
    let attempts = attempts_or_zero (GoMap.lookup key attempts_map) in
    if is_never (restart_policy_for_workload w)
    then (false, attempts_map)
    else if ltb_ℤ (pos 0) max_restarts && leb_ℤ max_restarts attempts
    then (false, attempts_map)
    else (true, GoMap.insert key (next_attempt attempts) attempts_map)

local_assignment : Option Assignment → String → String → Option Assignment
local_assignment none self generation = none
local_assignment (some a) self generation =
    if not (trim_space a.node == self) || not (trim_space a.status == assignment_status_running)
    then none
    else if not (trim_space a.generation == "")
        && not (trim_space a.generation == trim_space generation)
    then none
    else some a

module _ {F : Type 0} where
  unfoldable pub local_running_assignment :
      Fsm F → Metadata → Workload → String → String → Option Assignment
  unfolding local_assignment
  local_running_assignment raft meta w self generation =
      local_assignment (get_assignment (assignment_key meta w.name) raft) self generation
