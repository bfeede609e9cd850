-- ===== src/Task/Loops/Ends.antt =====
-- The steps that end a loop in the background keep the invariant, and so does every run of steps.
use orch.Prelude.{
  ℕ, suc, ◌≤◌, ◌<◌, ◌^◌, Bool, true, false, Option, none, some, List, [], ◌∷◌, ◌++◌, ◌≡◌, ◌≢◌, refl,
  sym, subst, ◌⊎◌, inl, inr, arith, Bool-cases, eqb, if◌then◌else◌,
}
use mathlib.Core.List.{Memᴰ}
use orch.Prelude.Lists.{length, length-append}
use orch.Prelude.Members.{Memᴰ_with, Memᴰ_without, Memᴰ_split}
use orch.Task.Loops.{
  Run, Loops, begin_from, begin_loop, finish_loop, take_cancel, cancel_runs, call_cancel, Step,
  begins, takes, calls, returns, Reach, start, later,
}
use orch.Task.Loops.Invariant.{
  Inv, Below, IsHeld, Below-without, Below-apart, Inv-no_loops, begin_from-Inv, take_cancel-Inv,
}

-- A run after the call of a cancel function, and the run that it was.
record IsAfter (c : ℕ) (r x : Run) : Type 0 where
  same_context : x.context ≡ r.context
  same_number : x.run_id ≡ r.run_id
  cancelled : (r.context ≡ c) × (x.is_cancelled ≡ true) ⊎ (r.context ≢ c) × (x ≡ r)

-- The call of c on a list whose first run has the context c, or another.
hit :
    (c : ℕ) (r x : Run) (rs done : List Run)
    → r.context ≡ c
    → Memᴰ x (record r { is_cancelled = true } ∷ done)
    → (Memᴰ x done → (y : Run) × Memᴰ y rs × IsAfter c y x)
    → (y : Run) × Memᴰ y (r ∷ rs) × IsAfter c y x
hit c r x rs done e (Memᴰ.head p) ih = (
  r,
  Memᴰ.head refl,
  record { same_context = rw p refl; same_number = rw p refl; cancelled = inl (e, rw p refl) },
)
hit c r x rs done e (Memᴰ.tail k) ih = let (y, n, h) = ih k in (y, Memᴰ.tail n, h)

missed :
    (c : ℕ) (r x : Run) (rs done : List Run)
    → r.context ≢ c
    → Memᴰ x (r ∷ done)
    → (Memᴰ x done → (y : Run) × Memᴰ y rs × IsAfter c y x)
    → (y : Run) × Memᴰ y (r ∷ rs) × IsAfter c y x
missed c r x rs done ne (Memᴰ.head p) ih = (
  r,
  Memᴰ.head refl,
  record { same_context = rw p refl; same_number = rw p refl; cancelled = inr (ne, p) },
)
missed c r x rs done ne (Memᴰ.tail k) ih = let (y, n, h) = ih k in (y, Memᴰ.tail n, h)

cancel_runs-IsAfter :
    (c : ℕ) (rs : List Run) (x : Run)
    → Memᴰ x (cancel_runs c rs)
    → (r : Run) × Memᴰ r rs × IsAfter c r x
unfolding cancel_runs
cancel_runs-IsAfter c [] x m = elim m [ ]
cancel_runs-IsAfter c (r ∷ rs) x m =
    let rest = cancel_runs c rs in
    let at =
      λ (b : Bool). Memᴰ x (if b then record r { is_cancelled = true } ∷ rest else r ∷ rest) in
    let ih = cancel_runs-IsAfter c rs x in
    elim (Bool-cases (eqb r.context c)) [
      | inl h ↦ hit c r x rs rest (ground arith) (subst at h m) ih
      | inr h ↦ missed c r x rs rest (ground arith) (subst at h m) ih
    ]

cancel_runs_other :
    (c : ℕ) (rs : List Run) (r : Run) → Memᴰ r rs → r.context ≢ c → Memᴰ r (cancel_runs c rs)
unfolding cancel_runs
cancel_runs_other c [] r m ne = elim m [ ]
cancel_runs_other c (x ∷ rs) r (Memᴰ.head p) ne =
    let other : eqb x.context c ≡ false =
      let q : r.context ≡ x.context = rw p refl in ground arith in
    rw other (Memᴰ.head p)
cancel_runs_other c (x ∷ rs) r (Memᴰ.tail m) ne = elim (Bool-cases (eqb x.context c)) [
  | inl h ↦ rw h (Memᴰ.tail (cancel_runs_other c rs r m ne))
  | inr h ↦ rw h (Memᴰ.tail (cancel_runs_other c rs r m ne))
]

length-cancel_runs : (c : ℕ) (rs : List Run) → length (cancel_runs c rs) ≡ length rs
unfolding cancel_runs
length-cancel_runs c [] = refl
length-cancel_runs c (r ∷ rs) = ground (arith, length-cancel_runs c rs)

Below-cancel_runs : (n c : ℕ) (rs : List Run) → Below n rs → Below n (cancel_runs c rs)
unfolding cancel_runs
Below-cancel_runs n c [] b = tt
Below-cancel_runs n c (r ∷ rs) b = elim (Bool-cases (eqb r.context c)) [
  | inl h ↦ rw h (b.0, Below-cancel_runs r.context c rs b.1)
  | inr h ↦ rw h (b.0, Below-cancel_runs r.context c rs b.1)
]

call_cancel-Inv :
    (c : ℕ) (before after : List ℕ) (s : Loops)
    → s.taken ≡ before ++ c ∷ after
    → Inv s
    → Inv (call_cancel c (before ++ after) s)
unfolding call_cancel
call_cancel-Inv c before after s e inv = record {
  numbered = inv.numbered;
  counted = rw length-cancel_runs inv.counted;
  ordered = Below-cancel_runs s.contexts c s.live inv.ordered;
  latest = inv.latest;
  served = λ d q. still d q (inv.served d q);
  each = λ x m. let (r, n, h) = cancel_runs-IsAfter c s.live x m in after_call r x n h;
  apart = λ d m. inv.apart d (subst (Memᴰ d) (sym e) (Memᴰ_with d c before after m));
}
  where
    still :
        (d : ℕ)
        → s.cancel ≡ some d
        → (r : Run) × Memᴰ r s.live × (r.context ≡ d) × (r.is_cancelled ≡ false)
        → (r : Run) × Memᴰ r (cancel_runs c s.live) × (r.context ≡ d) × (r.is_cancelled ≡ false)
    still d q (r, m, f, g) =
        let apart = (inv.apart c (subst (Memᴰ c) (sym e) (Memᴰ_split c before after))).1 in
        (r, cancel_runs_other c s.live r m (λ p. apart (cc (p, f, q))), f, g)

    held :
        (r : Run) → r.context ≢ c → IsHeld s.cancel s.taken r → IsHeld s.cancel (before ++ after) r
    held r ne (inl done) = inl done
    held r ne (inr (inl own)) = inr (inl own)
    held r ne (inr (inr m)) =
        elim (Memᴰ_without r.context c before after (subst (Memᴰ r.context) e m)) [
          | inl p ↦ absurd (ne p)
          | inr k ↦ inr (inr k)
        ]

    after_call :
        (r x : Run)
        → Memᴰ r s.live
        → IsAfter c r x
        → (x.run_id ≡ suc x.context) × IsHeld s.cancel (before ++ after) x
    after_call r x m h = (
      let n = (inv.each r m).0 in cc (n, h.same_number, h.same_context),
      elim h.cancelled [
        | inl (here, done) ↦ inl done
        | inr (ne, same) ↦
            subst (IsHeld s.cancel (before ++ after)) (sym same) (held r ne (inv.each r m).1)
      ],
    )

-- A loop that returns: whether the service still holds the cancel function of that run.
returned_cancel-cases :
    (s : Loops) (run_id : ℕ)
    → ((s.run ≡ run_id) × ((finish_loop run_id s).cancel ≡ none))
      ⊎ ((s.run ≢ run_id) × ((finish_loop run_id s).cancel ≡ s.cancel))
unfolding finish_loop
returned_cancel-cases s run_id = elim (Bool-cases (eqb s.run run_id)) [
  | inl h ↦ inl (ground arith, rw h refl)
  | inr h ↦ inr (ground arith, rw h refl)
]

module _ (r : Run) (before after : List Run) (s : Loops) (e : s.live ≡ before ++ r ∷ after)
    (inv : Inv s) where
  r_numbered : r.run_id ≡ suc r.context
  r_numbered = (inv.each r (subst (Memᴰ r) (sym e) (Memᴰ_split r before after))).0

  member : (x : Run) → Memᴰ x (before ++ after) → Memᴰ x s.live
  member x m = subst (Memᴰ x) (sym e) (Memᴰ_with x r before after m)

  distinct : (x : Run) → Memᴰ x (before ++ after) → x.context ≢ r.context
  distinct x m = Below-apart s.contexts before after r x (subst (Below s.contexts) e inv.ordered) m

  -- The cancel function of the run that returns is not needed by another run.
  still-IsHeld :
      (o : Option ℕ)
      → ((s.run ≡ r.run_id) × (o ≡ none)) ⊎ ((s.run ≢ r.run_id) × (o ≡ s.cancel))
      → (x : Run) → Memᴰ x (before ++ after)
      → IsHeld s.cancel s.taken x
      → IsHeld o s.taken x
  still-IsHeld o cases x m (inl done) = inl done
  still-IsHeld o cases x m (inr (inr k)) = inr (inr k)
  still-IsHeld o (inr (ne, same)) x m (inr (inl own)) = inr (inl (cc (same, own)))
  still-IsHeld o (inl (own_run, gone)) x m (inr (inl own)) =
      let a = inv.latest x.context own in
      let b = r_numbered in let c = inv.numbered in absurd (distinct x m (omega arith))

  still_served :
      (o : Option ℕ)
      → ((s.run ≡ r.run_id) × (o ≡ none)) ⊎ ((s.run ≢ r.run_id) × (o ≡ s.cancel))
      → (c : ℕ) → o ≡ some c
      → (x : Run) × Memᴰ x (before ++ after) × (x.context ≡ c) × (x.is_cancelled ≡ false)
  still_served o (inl (own_run, gone)) c q = absurd (cc (gone, q))
  still_served o (inr (ne, same)) c q =
      let held : s.cancel ≡ some c = cc (same, q) in
      let (x, m, f, g) = inv.served c held in
      elim (Memᴰ_without x r before after (subst (Memᴰ x) e m)) [
        | inl p ↦ absurd (
            ne (
              let a = inv.latest c held in
              let b = r_numbered in
              let d = inv.numbered in let i : x.context ≡ r.context = rw p refl in omega arith))
        | inr k ↦ (x, k, f, g)
      ]

  finish_loop-Inv : Inv (finish_loop r.run_id (record s { live = before ++ after }))
  unfolding finish_loop
  finish_loop-Inv =
      let cases = returned_cancel-cases s r.run_id in
      record {
        numbered = inv.numbered;
        counted =
            let a = length-append before (r ∷ after) in
            let b = length-append before after in
            let c : s.waiting ≡ length (before ++ r ∷ after) = rw (← e) inv.counted in omega arith;
        ordered = Below-without s.contexts before after r (subst (Below s.contexts) e inv.ordered);
        latest = λ c q. elim cases [
          | inl (own_run, gone) ↦ absurd (cc (gone, q))
          | inr (ne, same) ↦ inv.latest c (cc (same, q))
        ];
        served = still_served _ cases;
        each = λ x m.
            ((inv.each x (member x m)).0, still-IsHeld _ cases x m (inv.each x (member x m)).1);
        apart = λ c m. (
          (inv.apart c m).0,
          λ q. elim cases [
            | inl (own_run, gone) ↦ cc (gone, q)
            | inr (ne, same) ↦ (inv.apart c m).1 (cc (same, q))
          ],
        );
      }

contexts-begin : (o : Option ℕ) (s : Loops) → s.contexts ≤ (begin_from o s).1.contexts
unfolding begin_from
contexts-begin none s = omega arith
contexts-begin (some c) s = omega arith

Step-contexts : {s t : Loops} → Step s t → s.contexts ≤ t.contexts
unfolding begin_loop take_cancel call_cancel finish_loop
Step-contexts {s} begins = contexts-begin s.cancel s
Step-contexts takes = omega arith
Step-contexts (calls c before after e) = omega arith
Step-contexts (returns r before after e) = omega arith

Step-Inv : {s t : Loops} → Step s t → t.contexts < 2 ^ 64 → Inv s → Inv t
unfolding begin_loop
Step-Inv {s} begins small inv = begin_from-Inv s.cancel s refl small inv
Step-Inv {s} takes small inv = take_cancel-Inv s inv
Step-Inv {s} (calls c before after e) small inv = call_cancel-Inv c before after s e inv
Step-Inv {s} (returns r before after e) small inv = finish_loop-Inv r before after s e inv

-- While fewer than 2^64 loops were started the invariant holds, whatever the steps were.
pub Reach-Inv : {s : Loops} → Reach s → s.contexts < 2 ^ 64 → Inv s
Reach-Inv start small = Inv-no_loops
Reach-Inv (later r st) small =
    Step-Inv st small (Reach-Inv r (let n = Step-contexts st in omega arith))
