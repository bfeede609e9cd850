-- ===== src/Deploy/Validate/Lifecycle.antt =====
-- internal/deploy/v1alpha1/validate_lifecycle.go and rollout.go, and the rollout check of validate.go.
use orch.Prelude.{String, Bool, false, not, ◌||◌, Option, none, some, ◌==◌, if◌then◌else◌}
use orch.Prelude.Int.{ℤ, pos, ltb_ℤ, leb_ℤ}
use orch.Prelude.Text.{trim_space}
use orch.Deploy.Document.{Lifecycle, Rollout, Workload}
use orch.Deploy.Constants.{
  restart_policy_always, restart_policy_on_failure, restart_policy_never, rollout_strategy_recreate,
  rollout_strategy_stop_before_start, rollout_strategy_rolling,
}
use orch.Deploy.Errors.{
  Check, reject, ◌<|>◌, restart_policy_invalid, max_restarts_negative, restart_delay_invalid,
  rollout_strategy_invalid, max_unavailable_negative, max_surge_negative, progress_deadline_invalid,
  progress_deadline_not_positive,
}
use orch.Deploy.Libraries.{Libraries}
use orch.Deploy.Validate.Health.{is_some}

unfoldable pub validate_restart_policy : String → Check
validate_restart_policy policy =
    let p = trim_space policy in
    reject
      (not (
        p == ""
        || (p == restart_policy_always
            || (p == restart_policy_on_failure || p == restart_policy_never))))
      restart_policy_invalid

unfoldable pub effective_strategy : Option Rollout → String
effective_strategy none = rollout_strategy_stop_before_start
effective_strategy (some r) =
    if trim_space r.strategy == ""
    then rollout_strategy_stop_before_start
    else trim_space r.strategy

unfoldable pub rollback_on_failure_enabled : Option Rollout → Bool
rollback_on_failure_enabled none = false
rollback_on_failure_enabled (some r) = r.rollback_on_failure

unfoldable pub is_rollout_strategy : String → Bool
is_rollout_strategy strategy =
    let s = trim_space strategy in
    s == ""
    || (s == rollout_strategy_recreate
        || (s == rollout_strategy_stop_before_start || s == rollout_strategy_rolling))

module _ {S G : Type 0} (lib : Libraries S G) where
  lifecycle_checks : Option Lifecycle → Check
  unfolding validate_restart_policy
  lifecycle_checks none = none
  lifecycle_checks (some l) =
      validate_restart_policy l.restart_policy
      <|> reject (ltb_ℤ l.max_restarts (pos 0)) max_restarts_negative
      <|> (if trim_space l.restart_delay == ""
          then none
          else reject (not (is_some (lib.parse_duration l.restart_delay))) restart_delay_invalid)

  unfoldable pub validate_lifecycle : Workload → Check
  unfolding lifecycle_checks
  validate_lifecycle w = lifecycle_checks w.lifecycle

  -- The duration in nanoseconds; `none` is the error of the parser.
  unfoldable pub progress_deadline_duration : Option Rollout → Option ℤ
  progress_deadline_duration none = some (pos 0)
  progress_deadline_duration (some r) =
      if trim_space r.progress_deadline == ""
      then some (pos 0)
      else lib.parse_duration r.progress_deadline

  deadline_check : Option ℤ → Check
  deadline_check none = some progress_deadline_invalid
  deadline_check (some deadline) = reject (leb_ℤ deadline (pos 0)) progress_deadline_not_positive

  rollout_checks : Option Rollout → Check
  unfolding is_rollout_strategy progress_deadline_duration deadline_check
  rollout_checks none = none
  rollout_checks (some r) =
      reject (not (is_rollout_strategy r.strategy))
        (rollout_strategy_invalid (trim_space r.strategy))
      <|> reject (ltb_ℤ r.max_unavailable (pos 0)) max_unavailable_negative
      <|> reject (ltb_ℤ r.max_surge (pos 0)) max_surge_negative
      <|> (if trim_space r.progress_deadline == ""
          then none
          else deadline_check (progress_deadline_duration (some r)))

  unfoldable pub validate_rollout : Workload → Check
  unfolding rollout_checks
  validate_rollout w = rollout_checks w.rollout
