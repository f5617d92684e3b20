-- ===== src/Auth/Phone.antt =====
-- operatoraccountauth/validation.go: `normalizePhone`, over the code points of its argument.
pub mod Normal
pub mod Digits
pub mod Trim
use cresora.Prelude.{
  ℕ, zero, suc, ◌+◌, ◌≡◌, Bool, true, false, not, ◌&&◌, ◌||◌, Option, none, some, List, [], ◌∷◌,
  reverse, arith, ltb, leb, ◌==◌, if◌then◌else◌, length,
}

-- `unicode.IsSpace`: the white space of Latin-1, and the other code points of the property.
unfoldable pub is_space : ℕ → Bool
is_space c =
    (leb 9 c && leb c 13)
    || c == 32
    || c == 0x85
    || c == 0xa0
    || c == 0x1680
    || (leb 0x2000 c && leb c 0x200a)
    || c == 0x2028
    || c == 0x2029
    || c == 0x202f
    || c == 0x205f
    || c == 0x3000

unfoldable pub trim_left : List ℕ → List ℕ
unfolding is_space
trim_left [] = []
trim_left (c ∷ cs) = let rest = trim_left cs in if is_space c then rest else c ∷ cs

-- `strings.TrimSpace`.
unfoldable pub trim_space : List ℕ → List ℕ
unfolding trim_left
trim_space cs = reverse (trim_left (reverse (trim_left cs)))

abbrev pub is_digit : ℕ → Bool
is_digit c = leb b'0' c && leb c b'9'

unfoldable pub is_separator : ℕ → Bool
is_separator c = is_space c || c == b'-' || c == b'(' || c == b')' || c == b'.'

abbrev prepend : ℕ → Option (List ℕ) → Option (List ℕ)
prepend c none = none
prepend c (some cs) = some (c ∷ cs)

-- The loop over the runes, with `index == 0`; `none` is its early return.
unfoldable pub keep_digits : Bool → List ℕ → Option (List ℕ)
keep_digits first [] = some []
keep_digits first (c ∷ cs) =
    let rest = keep_digits false cs in
    if c == b'+' && first
    then prepend c rest
    else if is_digit c
    then prepend c rest
    else if is_separator c
    then rest
    else none

-- `strings.CutPrefix(value, "00")`.
unfoldable pub cut_zeros : List ℕ → List ℕ
cut_zeros [] = []
cut_zeros (a ∷ []) = a ∷ []
cut_zeros (a ∷ b ∷ cs) = if a == b'0' && b == b'0' then b'+' ∷ cs else a ∷ b ∷ cs

-- `strings.HasPrefix(value, "+")`.
unfoldable pub add_plus : List ℕ → List ℕ
add_plus [] = b'+' ∷ []
add_plus (c ∷ cs) = if c == b'+' then c ∷ cs else b'+' ∷ c ∷ cs

abbrev pub starts_with_zero : List ℕ → Bool
starts_with_zero [] = true
starts_with_zero (c ∷ cs) = c == b'0'

-- The test on the digits behind the plus sign; an empty text counts as refused.
unfoldable pub check_digits : List ℕ → Option (List ℕ)
check_digits [] = none
check_digits (plus ∷ digits) =
    if ltb (length digits) 7 || ltb 15 (length digits) || starts_with_zero digits
    then none
    else some (plus ∷ digits)

unfoldable pub finish : Option (List ℕ) → Option (List ℕ)
finish none = none
finish (some value) = check_digits (add_plus (cut_zeros value))

abbrev pub is_empty : List ℕ → Bool
is_empty [] = true
is_empty (_ ∷ _) = false

-- `none` is `ErrInvalidInput`, the only error.
unfoldable pub normalize_phone : List ℕ → Option (List ℕ)
normalize_phone phone =
    let trimmed = trim_space phone in
    if is_empty trimmed then none else finish (keep_digits true trimmed)
