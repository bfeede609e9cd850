-- ===== src/Task/Loops/Invariant.antt =====
-- What holds of the loops in the background between any two steps.
use orch.Prelude.{
  ℕ, suc, ◌≤◌, ◌<◌, ◌^◌, true, false, Option, none, some, List, [], ◌∷◌, ◌++◌, ◌≡◌, ◌≢◌, refl, ◌⊎◌,
  inl, inr, arith,
}
use mathlib.Core.List.{Memᴰ}
use orch.Prelude.Lists.{length}
use orch.Prelude.Members.{Memᴰ_split}
use orch.Task.Loops.{Run, Loops, no_loops, begin_from, take_cancel, push_taken}

-- Contexts in descending order, all below a bound.
abbrev pub Below : ℕ → List Run → Type 0
Below n [] = Unit
Below n (r ∷ rs) = (r.context < n) × Below r.context rs

-- A run that is not cancelled has its cancel function with the service or with a stop.
abbrev pub IsHeld : Option ℕ → List ℕ → Run → Type 0
IsHeld cancel taken r = (r.is_cancelled ≡ true) ⊎ (cancel ≡ some r.context) ⊎ Memᴰ r.context taken

pub record Inv (s : Loops) : Type 0 where
  pub numbered : s.run ≡ s.contexts
  pub counted : s.waiting ≡ length s.live
  pub ordered : Below s.contexts s.live
  pub latest : (c : ℕ) → s.cancel ≡ some c → suc c ≡ s.contexts
  pub served :
      (c : ℕ)
      → s.cancel ≡ some c
      → (r : Run) × Memᴰ r s.live × (r.context ≡ c) × (r.is_cancelled ≡ false)
  pub each : (r : Run) → Memᴰ r s.live → (r.run_id ≡ suc r.context) × IsHeld s.cancel s.taken r
  pub apart : (c : ℕ) → Memᴰ c s.taken → (c < s.contexts) × (s.cancel ≢ some c)

Below-le : (m n : ℕ) (rs : List Run) → m ≤ n → Below m rs → Below n rs
Below-le m n [] h b = tt
Below-le m n (r ∷ rs) h b = (let c = b.0 in omega arith, b.1)

Below-all : (n : ℕ) (rs : List Run) (x : Run) → Below n rs → Memᴰ x rs → x.context < n
Below-all n [] x b m = elim m [ ]
Below-all n (r ∷ rs) x b (Memᴰ.head e) = rw e b.0
Below-all n (r ∷ rs) x b (Memᴰ.tail m) =
    let c = Below-all r.context rs x b.1 m in let d = b.0 in omega arith

pub Below-without :
    (n : ℕ) (before after : List Run) (r : Run)
    → Below n (before ++ r ∷ after)
    → Below n (before ++ after)
Below-without n [] after r b = let c = b.0 in Below-le r.context n after (omega arith) b.1
Below-without n (x ∷ before) after r b = (b.0, Below-without x.context before after r b.1)

-- The contexts of different runs differ.
pub Below-apart :
    (n : ℕ) (before after : List Run) (r x : Run)
    → Below n (before ++ r ∷ after)
    → Memᴰ x (before ++ after)
    → x.context ≢ r.context
Below-apart n [] after r x b m e = let c = Below-all r.context after x b.1 m in omega arith
Below-apart n (y ∷ before) after r x b (Memᴰ.head e) q =
    let c = Below-all y.context (before ++ r ∷ after) r b.1 (Memᴰ_split r before after) in
    let d : x.context ≡ y.context = rw e refl in omega arith
Below-apart n (y ∷ before) after r x b (Memᴰ.tail m) q =
    Below-apart y.context before after r x b.1 m q

pub Inv-no_loops : Inv no_loops
Inv-no_loops = record {
  numbered = refl;
  counted = refl;
  ordered = tt;
  latest = λ c e. cc;
  served = λ c e. cc;
  each = λ r m. elim m [ ];
  apart = λ c m. elim m [ ];
}

-- The runs from before a start; the service held none of their cancel functions.
IsHeld-kept :
    (o p : Option ℕ) (taken : List ℕ) (r : Run) → o ≡ none → IsHeld o taken r → IsHeld p taken r
IsHeld-kept o p taken r e (inl done) = inl done
IsHeld-kept o p taken r e (inr (inl own)) = absurd (cc (e, own))
IsHeld-kept o p taken r e (inr (inr m)) = inr (inr m)

begun_each :
    (s : Loops) (run_id : ℕ) (r : Run)
    → s.cancel ≡ none
    → run_id ≡ suc s.contexts
    → Inv s
    → Memᴰ r (record { context = s.contexts; run_id = run_id; is_cancelled = false } ∷ s.live)
    → (r.run_id ≡ suc r.context) × IsHeld (some s.contexts) s.taken r
begun_each s run_id r none_held e inv (Memᴰ.head p) = rw p (e, inr (inl refl))
begun_each s run_id r none_held e inv (Memᴰ.tail m) =
    let (numbered, held) = inv.each r m in
    (numbered, IsHeld-kept s.cancel (some s.contexts) s.taken r none_held held)

pub begin_from-Inv :
    (o : Option ℕ) (s : Loops)
    → s.cancel ≡ o
    → (begin_from o s).1.contexts < 2 ^ 64
    → Inv s
    → Inv (begin_from o s).1
unfolding begin_from
begin_from-Inv (some c) s e small inv = inv
begin_from-Inv none s e small inv = record {
  numbered = let n = inv.numbered in omega arith;
  counted = let n = inv.counted in omega arith;
  ordered = (omega arith, inv.ordered);
  latest = λ c q. cc;
  served = λ c q. (_, Memᴰ.head refl, cc q, refl);
  each = λ r m. begun_each s _ r e (let n = inv.numbered in omega arith) inv m;
  apart = λ c m. (
    let n = (inv.apart c m).0 in omega arith,
    λ q. let n = (inv.apart c m).0 in let same : s.contexts ≡ c = cc q in omega arith,
  );
}

take_from :
    (o : Option ℕ) (s : Loops)
    → s.cancel ≡ o
    → Inv s
    → Inv (record s { cancel = none; taken = push_taken o s.taken })
unfolding push_taken
take_from none s e inv = record {
  numbered = inv.numbered;
  counted = inv.counted;
  ordered = inv.ordered;
  latest = λ c q. cc;
  served = λ c q. cc;
  each = λ r m. ((inv.each r m).0, IsHeld-kept s.cancel none s.taken r e (inv.each r m).1);
  apart = λ c m. ((inv.apart c m).0, λ q. cc);
}
take_from (some d) s e inv = record {
  numbered = inv.numbered;
  counted = inv.counted;
  ordered = inv.ordered;
  latest = λ c q. cc;
  served = λ c q. cc;
  each = λ r m. ((inv.each r m).0, taken_over r (inv.each r m).1);
  apart = λ c m. (below c m, λ q. cc);
}
  where
    taken_over : (r : Run) → IsHeld s.cancel s.taken r → IsHeld none (d ∷ s.taken) r
    taken_over r (inl done) = inl done
    taken_over r (inr (inl own)) = inr (inr (Memᴰ.head (cc (e, own))))
    taken_over r (inr (inr m)) = inr (inr (Memᴰ.tail m))

    below : (c : ℕ) → Memᴰ c (d ∷ s.taken) → c < s.contexts
    below c (Memᴰ.head p) = let n = inv.latest d e in omega arith
    below c (Memᴰ.tail m) = (inv.apart c m).0

pub take_cancel-Inv : (s : Loops) → Inv s → Inv (take_cancel s)
unfolding take_cancel
take_cancel-Inv s inv = take_from s.cancel s refl inv
