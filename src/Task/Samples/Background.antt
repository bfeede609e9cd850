-- ===== src/Task/Samples/Background.antt =====
-- A run of the loops in the background: a loop is started and stopped, and a second one is started
-- before the first has returned.
use orch.Prelude.{◌≤◌, true, false, [], ◌≡◌, refl, arith}
use mathlib.Core.List.{Memᴰ}
use orch.Prelude.Lists.{length}
use orch.Task.Loops.{
  Run, Loops, no_loops, begin_loop, take_cancel, call_cancel, Reach, start, later, begins, takes,
  calls,
}
use orch.Task.Loops.Stop.{count_active, one_loop, begin_loop_refused, stop_reaches_all}

abbrev started : Loops
started = (begin_loop no_loops).1

abbrev restarted : Loops
restarted = (begin_loop (take_cancel started)).1

abbrev stopped : Loops
stopped = call_cancel 0 [] restarted

abbrev stopped_again : Loops
stopped_again = call_cancel 1 [] (take_cancel stopped)

restarted-Reach : Reach restarted
restarted-Reach = later (later (later start begins) takes) begins

stopped-Reach : Reach stopped
unfolding begin_loop take_cancel
stopped-Reach = later restarted-Reach (calls 0 [] [] refl)

stopped_again-Reach : Reach stopped_again
unfolding begin_loop take_cancel call_cancel
stopped_again-Reach = later (later stopped-Reach takes) (calls 1 [] [] refl)

one_loop_example : count_active stopped.live ≤ 1
unfolding begin_loop take_cancel call_cancel
one_loop_example = one_loop stopped stopped-Reach (omega arith) refl

begin_loop_refused_example : (r : Run) × Memᴰ r stopped.live × (r.is_cancelled ≡ false)
unfolding begin_loop take_cancel call_cancel
begin_loop_refused_example = begin_loop_refused stopped stopped-Reach (omega arith) refl

stop_reaches_all_example :
    ((r : Run) → Memᴰ r stopped_again.live → r.is_cancelled ≡ true)
    × (stopped_again.waiting ≡ length stopped_again.live)
unfolding begin_loop take_cancel call_cancel
stop_reaches_all_example =
    stop_reaches_all stopped_again stopped_again-Reach (omega arith) refl refl
