-- ===== src/Prelude/Affix.antt =====
-- Go's package strings on the ends of a text: HasPrefix, CutPrefix, TrimPrefix, and the trimming of
-- slashes.
use Prim.Native.Char.{code}
use Prim.Native.String.{String, [], ◌∷◌, ◌++◌}
use mathlib.Core.Path.{◌≡◌, refl}
use mathlib.Core.Logic.{inl, inr}
use mathlib.Core.Bool.{Bool, true, false, ◌&&◌, ◌||◌}
use mathlib.Core.Option.{Option, none, some}
use native.Mathlib.Omega.{arith}
use text.Mathlib.TextLemmas.{nil-append, cons-append}
use text.Mathlib.TextEquality.{Char-path}
use orch.Prelude.Tests.{eqb, if◌then◌else◌, Bool-cases}
use orch.Prelude.Text.{is_empty}

-- strings.CutPrefix(s, p), with the prefix first; `none` is the result false.
unfoldable pub cut_prefix : String → String → Option String
cut_prefix [] s = some s
cut_prefix (c ∷ p) [] = none
cut_prefix (c ∷ p) (d ∷ s) =
    let rest = cut_prefix p s in if eqb (code c) (code d) then rest else none

-- strings.HasPrefix(s, p), with the prefix first
unfoldable pub has_prefix : String → String → Bool
unfolding cut_prefix
has_prefix p s = elim (cut_prefix p s) [ none ↦ false | some rest ↦ true ]

-- strings.TrimPrefix(s, p), with the prefix first
unfoldable pub trim_prefix : String → String → String
unfolding cut_prefix
trim_prefix p s = elim (cut_prefix p s) [ none ↦ s | some rest ↦ rest ]

-- strings.TrimRight(s, "/")
unfoldable pub trim_right_slashes : String → String
trim_right_slashes [] = []
trim_right_slashes (c ∷ s) =
    let rest = trim_right_slashes s in if eqb (code c) 47 && is_empty rest then [] else c ∷ rest

-- strings.TrimLeft(s, "/")
unfoldable pub trim_left_slashes : String → String
trim_left_slashes [] = []
trim_left_slashes (c ∷ s) = if eqb (code c) 47 then trim_left_slashes s else c ∷ s

-- strings.TrimSuffix(s, "/")
unfoldable pub trim_slash_suffix : String → String
trim_slash_suffix [] = []
trim_slash_suffix (c ∷ s) = if eqb (code c) 47 && is_empty s then [] else c ∷ trim_slash_suffix s

-- strings.Contains(s, p), with the part first
unfoldable pub contains_text : String → String → Bool
unfolding has_prefix
contains_text p [] = is_empty p
contains_text p (c ∷ s) = has_prefix p (c ∷ s) || contains_text p s

pub cut_prefix_sound : (p s r : String) → cut_prefix p s ≡ some r → s ≡ p ++ r
unfolding cut_prefix
cut_prefix_sound [] s r e = rw (nil-append r) (cc e)
cut_prefix_sound (c ∷ p) [] r e = absurd (cc e)
cut_prefix_sound (c ∷ p) (d ∷ s) r e = elim (Bool-cases (eqb (code c) (code d))) [
  | inl h ↦
      (let q : d ≡ c = Char-path d c (ground arith) in
        let rest = cut_prefix_sound p s r (rw h at e) in rw (cons-append c p r) (cc (q, rest)))
  | inr h ↦ absurd (let q = (rw h at e) in cc q)
]

pub cut_prefix-append : (p r : String) → cut_prefix p (p ++ r) ≡ some r
unfolding cut_prefix
cut_prefix-append [] r = rw (nil-append r) refl
cut_prefix-append (c ∷ p) r = rw (cons-append c p r) (ground (arith, cut_prefix-append p r))
