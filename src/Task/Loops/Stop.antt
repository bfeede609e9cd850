-- ===== src/Task/Loops/Stop.antt =====
-- What the loops in the background promise to those who start and stop them.
use orch.Prelude.{
  ℕ, suc, ◌≤◌, ◌<◌, ◌^◌, true, false, Option, none, some, List, [], ◌∷◌, ◌≡◌, refl, ◌⊎◌, inl, inr,
  arith, Option-cases,
}
use mathlib.Core.List.{Memᴰ}
use orch.Prelude.Lists.{length}
use orch.Task.Loops.{Run, Loops, begin_from, begin_loop, Reach}
use orch.Task.Loops.Invariant.{Below, IsHeld}
use orch.Task.Loops.Ends.{Reach-Inv}

-- The live loops whose cancel function was not called.
abbrev pub count_active : List Run → ℕ
count_active [] = 0
count_active (r ∷ rs) = elim r.is_cancelled [
  | true ↦ count_active rs
  | false ↦ suc (count_active rs)
]

-- Runs of which each is cancelled or of the context c: no more than one is not cancelled.
module _ (c : ℕ) where
  abbrev IsDoneOr : Run → Type 0
  IsDoneOr r = (r.is_cancelled ≡ true) ⊎ (r.context ≡ c)

  none_active :
      (n : ℕ) (rs : List Run)
      → n ≤ c
      → Below n rs
      → ((r : Run) → Memᴰ r rs → IsDoneOr r)
      → count_active rs ≡ 0
  none_active n [] h b all = refl
  none_active n (r ∷ rs) h b all = elim (all r (Memᴰ.head refl)) [
    | inl done ↦
        rw done
          (none_active r.context rs (let d = b.0 in omega arith) b.1 (λ x m. all x (Memᴰ.tail m)))
    | inr here ↦ absurd (let d = b.0 in omega arith)
  ]

  active_le_one :
      (n : ℕ) (rs : List Run)
      → Below n rs
      → ((r : Run) → Memᴰ r rs → IsDoneOr r)
      → count_active rs ≤ 1
  active_le_one n [] b all = omega arith
  active_le_one n (r ∷ rs) b all = elim (all r (Memᴰ.head refl)) [
    | inl done ↦ rw done (active_le_one r.context rs b.1 (λ x m. all x (Memᴰ.tail m)))
    | inr here ↦
        ground (arith, none_active r.context rs (omega arith) b.1 (λ x m. all x (Memᴰ.tail m)))
  ]

-- With no stop on its way: each live loop is cancelled or the one that the service holds.
done_or_held :
    (o : Option ℕ) (taken : List ℕ) (r : Run)
    → taken ≡ []
    → IsHeld o taken r
    → (r.is_cancelled ≡ true) ⊎ (o ≡ some r.context)
done_or_held o [] r e (inl done) = inl done
done_or_held o [] r e (inr (inl own)) = inr own
done_or_held o [] r e (inr (inr m)) = elim m [ ]
done_or_held o (c ∷ cs) r e h = absurd (cc e)

-- Of any reachable state, in which fewer than 2^64 loops were started and no stop has a cancel
-- function that it took and did not call yet, at most one live loop is not cancelled.
pub one_loop : (s : Loops) → Reach s → s.contexts < 2 ^ 64 → s.taken ≡ [] → count_active s.live ≤ 1
one_loop s r small e =
    let inv = Reach-Inv r small in
    let each =
      λ (x : Run) (m : Memᴰ x s.live). done_or_held s.cancel s.taken x e (inv.each x m).1 in
    elim (Option-cases s.cancel) [
      | inl nothing ↦
          active_le_one 0 s.contexts s.live inv.ordered
            (λ x m. elim (each x m) [ inl done ↦ inl done | inr own ↦ absurd (cc (nothing, own)) ])
      | inr (c, held) ↦
          active_le_one c s.contexts s.live inv.ordered
            (λ x m. elim (each x m) [ inl done ↦ inl done | inr own ↦ inr (cc (held, own)) ])
    ]

begin-refused : (o : Option ℕ) (s : Loops) → (begin_from o s).0 ≡ false → (c : ℕ) × (o ≡ some c)
unfolding begin_from
begin-refused none s e = absurd (cc e)
begin-refused (some c) s e = (c, refl)

-- Of any reachable state, in which fewer than 2^64 loops were started: a start is refused only
-- while a loop that is not cancelled is live.
pub begin_loop_refused :
    (s : Loops)
    → Reach s
    → s.contexts < 2 ^ 64
    → (begin_loop s).0 ≡ false
    → (r : Run) × Memᴰ r s.live × (r.is_cancelled ≡ false)
unfolding begin_loop
begin_loop_refused s r small e =
    let (c, held) = begin-refused s.cancel s e in
    let (x, m, at, active) = (Reach-Inv r small).served c held in (x, m, active)

-- Of any reachable state, in which fewer than 2^64 loops were started: once every stop has called
-- the cancel function that it took, and no start came after, each live loop is cancelled, and the
-- wait group counts the live loops, so the stops wait for those and for no more.
pub stop_reaches_all :
    (s : Loops)
    → Reach s
    → s.contexts < 2 ^ 64
    → s.cancel ≡ none
    → s.taken ≡ []
    → ((r : Run) → Memᴰ r s.live → r.is_cancelled ≡ true) × (s.waiting ≡ length s.live)
stop_reaches_all s r small nothing e =
    let inv = Reach-Inv r small in
    (
      λ x m. elim (done_or_held s.cancel s.taken x e (inv.each x m).1) [
        | inl done ↦ done
        | inr own ↦ absurd (cc (nothing, own))
      ],
      inv.counted,
    )
