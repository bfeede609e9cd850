-- ===== src/Prelude/Trim.antt =====
-- Texts with no space around them, and joining such texts.
use Prim.Native.Char.{Char, code}
use Prim.Native.String.{String, [], ◌∷◌, ◌++◌, count}
use Prim.Native.Nat.{ℕ, ◌≤◌}
use mathlib.Core.Path.{◌≡◌, refl, ap}
use mathlib.Core.Logic.{◌≢◌, inl, inr}
use mathlib.Core.Bool.{Bool, false, true}
use native.Mathlib.Omega.{arith}
use text.Mathlib.TextLemmas.{
  nil-append, cons-append, length-cons, tail-eq_of_cons-eq, head-eq_of_cons-eq,
}
use orch.Prelude.Tests.{Bool-cases}
use orch.Prelude.Text.{
  is_space, is_empty, trim_left, trim_right, trim_space, trim_left-of_head, trim_left-trim_right,
  trim_right_idem, all_chars,
}

pub record IsTrimmed (s : String) : Type 0 where
  pub left : trim_left s ≡ s
  pub right : trim_right s ≡ s

pub trim_space-IsTrimmed : (s : String) → IsTrimmed (trim_space s)
unfolding trim_space
trim_space-IsTrimmed s = record {
  left = trim_left-trim_right s;
  right = trim_right_idem (trim_left s);
}

pub trim_space-of_IsTrimmed : (s : String) → IsTrimmed s → trim_space s ≡ s
unfolding trim_space
trim_space-of_IsTrimmed s h = rw (h.left, h.right) refl

count-trim_left-le : (s : String) → count (trim_left s) ≤ count s
unfolding trim_left
count-trim_left-le [] = omega arith
count-trim_left-le (c ∷ s) = ground (arith, count-trim_left-le s, length-cons c s)

head-not-space : (c : Char) (s : String) → trim_left (c ∷ s) ≡ c ∷ s → is_space (code c) ≡ false
unfolding trim_left
head-not-space c s h = elim (Bool-cases (is_space (code c))) [
  | inl e ↦ absurd (
      let p : trim_left s ≡ c ∷ s = rw e at h in
      omega (arith, ap count p, count-trim_left-le s, length-cons c s))
  | inr e ↦ e
]

trim_left-append : (s t : String) → s ≢ "" → trim_left s ≡ s → trim_left (s ++ t) ≡ s ++ t
trim_left-append [] t ne h = absurd (ne refl)
trim_left-append (c ∷ s) t ne h =
    rw (cons-append c s t) (trim_left-of_head c (s ++ t) (head-not-space c s h))

is_empty-append : (s t : String) → t ≢ "" → is_empty (s ++ t) ≡ false
is_empty-append [] [] ne = absurd (ne refl)
is_empty-append [] (c ∷ t) ne = rw (nil-append (c ∷ t)) refl
is_empty-append (c ∷ s) t ne = rw (cons-append c s t) refl

trim_right-append : (s t : String) → t ≢ "" → trim_right t ≡ t → trim_right (s ++ t) ≡ s ++ t
unfolding trim_right
trim_right-append [] t ne h = rw (nil-append t) h
trim_right-append (c ∷ s) t ne h =
    rw (cons-append c s t) (ground (arith, trim_right-append s t ne h, is_empty-append s t ne))

-- Joining trimmed texts that are not empty leaves no space around the whole.
pub append-IsTrimmed :
    (s t : String) → s ≢ "" → t ≢ "" → IsTrimmed s → IsTrimmed t → IsTrimmed (s ++ t)
append-IsTrimmed s t hs ht ls lt = record {
  left = trim_left-append s t hs ls.left;
  right = trim_right-append s t ht lt.right;
}

pub append-ne-nil : (s t : String) → t ≢ "" → s ++ t ≢ ""
append-ne-nil s t ne p =
    let q : is_empty (s ++ t) ≡ is_empty "" = ap is_empty p in cc (q, is_empty-append s t ne)

-- A character that the first parts lack marks where they end.
pub split_at_mark :
    (p : ℕ → Bool) (m : Char) (s s' t t' : String)
    → p (code m) ≡ false
    → all_chars p s ≡ true
    → all_chars p s' ≡ true
    → s ++ (m ∷ t) ≡ s' ++ (m ∷ t')
    → (s ≡ s') × (t ≡ t')
split_at_mark p m [] [] t t' hm hs hs' e =
    let q : m ∷ t ≡ m ∷ t' = rw (nil-append (m ∷ t), nil-append (m ∷ t')) at e in
    (refl, tail-eq_of_cons-eq q)
split_at_mark p m [] (c ∷ s') t t' hm hs hs' e =
    let q : m ∷ t ≡ c ∷ (s' ++ (m ∷ t')) =
      rw (nil-append (m ∷ t), cons-append c s' (m ∷ t')) at e in
    let r : m ≡ c = head-eq_of_cons-eq q in ground arith
split_at_mark p m (c ∷ s) [] t t' hm hs hs' e =
    let q : c ∷ (s ++ (m ∷ t)) ≡ m ∷ t' = rw (nil-append (m ∷ t'), cons-append c s (m ∷ t)) at e in
    let r : c ≡ m = head-eq_of_cons-eq q in ground arith
split_at_mark p m (c ∷ s) (d ∷ s') t t' hm hs hs' e =
    let q : c ∷ (s ++ (m ∷ t)) ≡ d ∷ (s' ++ (m ∷ t')) =
      rw (cons-append c s (m ∷ t), cons-append d s' (m ∷ t')) at e in
    let r : c ≡ d = head-eq_of_cons-eq q in
    let ih = split_at_mark p m s s' t t' hm (ground arith) (ground arith) (tail-eq_of_cons-eq q) in
    (cc (r, ih.0), ih.1)
