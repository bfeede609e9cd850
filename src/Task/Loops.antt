-- ===== src/Task/Loops.antt =====
-- internal/services/task/recovery.go and reconcile.go: the life of a loop in the background. The two
-- files hold the same operations on fields of their own: the cancel function and the number of the
-- last run under a mutex, and a wait group. A cancel function is named by the context that it
-- cancels, and contexts are numbered in the order in which they are made.
pub mod Invariant
pub mod Ends
pub mod Stop
use orch.Prelude.{
  ℕ, suc, ◌+◌, ◌-◌, ◌%◌, Bool, true, Option, none, some, List, [], ◌∷◌, ◌++◌, ◌≡◌, if◌then◌else◌,
  eqb,
}
use mathlib.Core.List.{Memᴰ}
use orch.Raft.State.{uint64_mod}

-- A goroutine from `go` to the end of finish: its context and run number, and whether its own
-- cancel function was called.
pub record Run : Type 0 where
  pub context : ℕ
  pub run_id : ℕ  -- uint64
  pub is_cancelled : Bool

-- `taken` has the cancel functions that a stop has taken and not called yet; `contexts` counts the
-- contexts that were made.
pub record Loops : Type 0 where
  pub cancel : Option ℕ
  pub run : ℕ  -- uint64
  pub waiting : ℕ  -- the counter of the wait group
  pub live : List Run
  pub taken : List ℕ
  pub contexts : ℕ

abbrev pub no_loops : Loops
no_loops = record { cancel = none; run = 0; waiting = 0; live = []; taken = []; contexts = 0 }

-- beginFailureRecovery, and the goroutine that its caller starts; the flag is the result `ok`.
pub begin_from : Option ℕ → Loops → Bool × Loops
begin_from (some c) s = (Bool.false, s)
begin_from none s =
    let run_id = (s.run + 1) % uint64_mod in
    (
      true,
      record s {
        cancel = some s.contexts;
        run = run_id;
        waiting = suc s.waiting;
        live = record { context = s.contexts; run_id = run_id; is_cancelled = Bool.false } ∷ s.live;
        contexts = suc s.contexts;
      },
    )

unfoldable pub begin_loop : Loops → Bool × Loops
unfolding begin_from
begin_loop s = begin_from s.cancel s

-- finishFailureRecovery; its locked section and the Done of the wait group after it are one step.
unfoldable pub finish_loop : ℕ → Loops → Loops
finish_loop run_id s = record s {
  cancel = if eqb s.run run_id then none else s.cancel;
  waiting = s.waiting - 1;
}

unfoldable pub push_taken : Option ℕ → List ℕ → List ℕ
push_taken none cs = cs
push_taken (some c) cs = c ∷ cs

-- takeFailureRecoveryCancel
unfoldable pub take_cancel : Loops → Loops
unfolding push_taken
take_cancel s = record s { cancel = none; taken = push_taken s.cancel s.taken }

unfoldable pub cancel_runs : ℕ → List Run → List Run
cancel_runs c [] = []
cancel_runs c (r ∷ rs) =
    let rest = cancel_runs c rs in
    if eqb r.context c then record r { is_cancelled = true } ∷ rest else r ∷ rest

-- The call of the cancel function that a stop has taken.
unfoldable pub call_cancel : ℕ → List ℕ → Loops → Loops
unfolding cancel_runs
call_cancel c others s = record s { live = cancel_runs c s.live; taken = others }

-- One step of any goroutine. A loop may return at any time: its context can end by the context that
-- it was made from, and a loop that never leads returns too.
pub data Step (s : Loops) : Loops → Type 0 where
  begins : Step s (begin_loop s).1
  takes : Step s (take_cancel s)
  calls :
      (c : ℕ) (before after : List ℕ)
      → s.taken ≡ before ++ c ∷ after
      → Step s (call_cancel c (before ++ after) s)
  returns :
      (r : Run) (before after : List Run)
      → s.live ≡ before ++ r ∷ after
      → Step s (finish_loop r.run_id (record s { live = before ++ after }))

pub data Reach : Loops → Type 0 where
  start : Reach no_loops
  later : {s t : Loops} → Reach s → Step s t → Reach t
