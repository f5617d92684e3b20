-- ===== src/Encoding/Utf8.antt =====
-- Go strings as its range loop and unicode/utf8 read them.
use cresora.Prelude.{ℕ, Bool, true, false, ◌&&◌, ◌≡◌, refl, List, [], ◌∷◌}

-- A code point, or one byte that begins no encoding.
pub data Piece : Type 0 where
  rune : ℕ → Piece
  bad : Piece

abbrev pub Text : Type 0
Text = List Piece

abbrev is_rune : Piece → Bool
is_rune (rune r) = true
is_rune bad = false

-- `utf8.ValidString`.
unfoldable pub valid_string : Text → Bool
valid_string [] = true
valid_string (p ∷ ps) = is_rune p && valid_string ps

-- A byte that begins no encoding is read as the replacement character.
abbrev rune_of : Piece → ℕ
rune_of (rune r) = r
rune_of bad = 0xfffd

unfoldable pub runes : Text → List ℕ
runes [] = []
runes (p ∷ ps) = rune_of p ∷ runes ps

unfoldable pub text : List ℕ → Text
text [] = []
text (r ∷ rs) = rune r ∷ text rs

-- A text of code points is valid, and is read as those.
pub valid_string-text : (rs : List ℕ) → valid_string (text rs) ≡ true
unfolding valid_string text
valid_string-text [] = refl
valid_string-text (r ∷ rs) = valid_string-text rs

pub runes-text : (rs : List ℕ) → runes (text rs) ≡ rs
unfolding runes text
runes-text [] = refl
runes-text (r ∷ rs) = rw (runes-text rs) refl
