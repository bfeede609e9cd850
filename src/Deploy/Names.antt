-- ===== src/Deploy/Names.antt =====
-- The name pattern of validate.go, `^[a-zA-Z][a-zA-Z0-9._-]{0,127}$`.
use Prim.Native.Char.{code}
use Prim.Native.String.{[], ◌∷◌, count}
use orch.Prelude.{refl, ℕ, String, Bool, true, false, ◌&&◌, ◌||◌, ◌≡◌, arith, leb, eqb}
use orch.Prelude.Text.{is_space, trim_space, all_chars, trim_space-of_all_chars}

abbrev pub is_letter : ℕ → Bool
is_letter c = (leb b'a' c && leb c b'z') || (leb b'A' c && leb c b'Z')

unfoldable pub is_name_char : ℕ → Bool
is_name_char c = is_letter c || (leb b'0' c && leb c b'9') || eqb c b'.' || eqb c b'_' || eqb c b'-'

-- nameRe.MatchString
unfoldable pub name_re : String → Bool
unfolding is_name_char
name_re [] = false
name_re (c ∷ s) = is_letter (code c) && (all_chars is_name_char s && leb (count s) 127)

is_name_char-not-space : (c : ℕ) → is_name_char c ≡ true → is_space c ≡ false
unfolding is_name_char is_space
is_name_char-not-space c h = ground arith

letter_is_name_char : (c : ℕ) → is_letter c ≡ true → is_name_char c ≡ true
unfolding is_name_char
letter_is_name_char c h = ground arith

-- Every character of an accepted name is a letter, a digit, a dot, a dash or an underscore.
pub name_re-all_chars : (s : String) → name_re s ≡ true → all_chars is_name_char s ≡ true
unfolding name_re
name_re-all_chars [] h = refl
name_re-all_chars (c ∷ s) h = ground (arith, letter_is_name_char (code c))

-- An accepted name has no space around it.
pub trim_space-of_name : (s : String) → name_re s ≡ true → trim_space s ≡ s
trim_space-of_name s h =
    trim_space-of_all_chars is_name_char is_name_char-not-space s (name_re-all_chars s h)
