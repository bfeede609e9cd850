-- ===== src/Prelude/Text.antt =====
-- Go's package strings, as far as the program uses it: TrimSpace over the characters of a text, and
-- the tests on characters. A text is a sequence of Unicode characters (valid UTF-8).
use Prim.Native.Nat.{ℕ}
use Prim.Native.Char.{Char, code}
use Prim.Native.String.{String, [], ◌∷◌}
use mathlib.Core.Path.{◌≡◌, refl}
use mathlib.Core.Bool.{Bool, true, false, ◌&&◌, ◌||◌}
use orch.Prelude.Tests.{leb, eqb, if◌then◌else◌, Bool-cases, &&_true}
use mathlib.Core.Logic.{inl, inr}

-- unicode.IsSpace: the characters with the property White_Space.
unfoldable pub is_space : ℕ → Bool
is_space c =
    (leb 9 c && leb c 13)
    || eqb c 32
    || eqb c 0x85
    || eqb c 0xa0
    || eqb c 0x1680
    || (leb 0x2000 c && leb c 0x200a)
    || eqb c 0x2028
    || eqb c 0x2029
    || eqb c 0x202f
    || eqb c 0x205f
    || eqb c 0x3000

abbrev pub is_empty : String → Bool
is_empty [] = true
is_empty (c ∷ s) = false

unfoldable pub trim_left : String → String
unfolding is_space
trim_left [] = []
trim_left (c ∷ s) = if is_space (code c) then trim_left s else c ∷ s

unfoldable pub trim_right : String → String
unfolding is_space
trim_right [] = []
trim_right (c ∷ s) =
    let rest = trim_right s in if is_space (code c) && is_empty rest then [] else c ∷ rest

-- strings.TrimSpace
unfoldable pub trim_space : String → String
unfolding trim_left trim_right
trim_space s = trim_right (trim_left s)

-- Every character of the text passes the test.
abbrev pub all_chars : (ℕ → Bool) → String → Bool
all_chars p [] = true
all_chars p (c ∷ s) = p (code c) && all_chars p s

-- A text that is all accepted by a test which refuses spaces is left as it is.
pub trim_left-of_head :
    (c : Char) (s : String) → is_space (code c) ≡ false → trim_left (c ∷ s) ≡ c ∷ s
unfolding trim_left
trim_left-of_head c s h = rw h

-- Trimming on the right keeps a first character that is no space.
pub trim_left-trim_right :
    (s : String) → trim_left (trim_right (trim_left s)) ≡ trim_right (trim_left s)
unfolding trim_left trim_right
trim_left-trim_right [] = refl
trim_left-trim_right (c ∷ s) = elim (Bool-cases (is_space (code c))) [
  | inl e ↦ rw e (trim_left-trim_right s)
  | inr e ↦ rw e (rw e (rw e refl))
]

pub trim_right_idem : (s : String) → trim_right (trim_right s) ≡ trim_right s
unfolding trim_right
trim_right_idem [] = refl
trim_right_idem (c ∷ s) = elim (Bool-cases (is_space (code c) && is_empty (trim_right s))) [
  | inl e ↦ rw e refl
  | inr e ↦ rw e (rw (trim_right_idem s) (rw e refl))
]

-- Trimming a trimmed text changes nothing.
pub trim_space_idem : (s : String) → trim_space (trim_space s) ≡ trim_space s
unfolding trim_space
trim_space_idem s = rw trim_left-trim_right (trim_right_idem (trim_left s))

module _ (p : ℕ → Bool) (not_space : (c : ℕ) → p c ≡ true → is_space c ≡ false) where
  trim_right-of_all_chars : (s : String) → all_chars p s ≡ true → trim_right s ≡ s
  unfolding trim_right
  trim_right-of_all_chars [] all = refl
  trim_right-of_all_chars (c ∷ s) all =
      let (first, rest) = &&_true (p (code c)) (all_chars p s) all in
      rw (not_space (code c) first, trim_right-of_all_chars s rest) refl

  -- A text whose characters pass a test that no space passes is left as it is.
  pub trim_space-of_all_chars : (s : String) → all_chars p s ≡ true → trim_space s ≡ s
  unfolding trim_space
  trim_space-of_all_chars [] all = unfold trim_left trim_right in refl
  trim_space-of_all_chars (c ∷ s) all =
      let (first, rest) = &&_true (p (code c)) (all_chars p s) all in
      rw (trim_left-of_head c s (not_space (code c) first)) (trim_right-of_all_chars (c ∷ s) all)
