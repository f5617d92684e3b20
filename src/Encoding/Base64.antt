-- ===== src/Encoding/Base64.antt =====
-- encoding/base64 without padding: an alphabet is the byte for each of the 64 values, and the value of
-- each byte that has one. The decoder passes over line breaks, and drops the bits that a last group
-- of two or three characters has beyond its bytes.
use cresora.Prelude.{
  ℕ, ◌+◌, ◌-◌, ◌*◌, ◌%◌, ◌<◌, ◌≡◌, refl, ap, false, ◌&&◌, ◌||◌, Option, none, some, List, [], ◌∷◌,
  ◌++◌, ◌==◌, leb, ltb, if◌then◌else◌, arith, All, length, Bool-cases, inl, inr, ==_iff,
}
use Prim.Native.Nat.{◌/◌}
use cresora.Encoding.Text.{Bytes, IsByte, contains}

-- A line break has no value.
pub record Alphabet : Type 0 where
  pub digit : ℕ → ℕ
  pub value : ℕ → Option ℕ
  pub value_digit : (v : ℕ) → v < 64 → value (digit v) ≡ some v
  pub no_break : (value 10 ≡ none) × (value 13 ≡ none)

-- A value in the standard alphabet, with the bytes for 62 and 63.
unfoldable pub digit_with : ℕ → ℕ → ℕ → ℕ
digit_with plus slash v =
    if ltb v 26
    then v + b'A'
    else if ltb v 52
    then v - 26 + b'a'
    else if ltb v 62
    then v - 52 + b'0'
    else if ltb v 63
    then plus
    else slash

unfoldable pub value_with : ℕ → ℕ → ℕ → Option ℕ
value_with plus slash c =
    if leb b'A' c && leb c b'Z'
    then some (c - b'A')
    else if leb b'a' c && leb c b'z'
    then some (c - b'a' + 26)
    else if leb b'0' c && leb c b'9'
    then some (c - b'0' + 52)
    else if c == plus
    then some 62
    else if c == slash
    then some 63
    else none

pub std_value_digit : (v : ℕ) → v < 64 → value_with b'+' b'/' (digit_with b'+' b'/' v) ≡ some v
unfolding value_with digit_with
std_value_digit v h = ground arith

pub std_no_break : (value_with b'+' b'/' 10 ≡ none) × (value_with b'+' b'/' 13 ≡ none)
unfolding value_with
std_no_break = (refl, refl)

pub url_value_digit : (v : ℕ) → v < 64 → value_with b'-' b'_' (digit_with b'-' b'_' v) ≡ some v
unfolding value_with digit_with
url_value_digit v h = ground arith

pub url_no_break : (value_with b'-' b'_' 10 ≡ none) × (value_with b'-' b'_' 13 ≡ none)
unfolding value_with
url_no_break = (refl, refl)

-- Neither padding nor a separator of the stored texts has a value in the standard alphabet.
pub std_no_value :
    (value_with b'+' b'/' b'=' ≡ none)
    × (value_with b'+' b'/' b'$' ≡ none)
    × (value_with b'+' b'/' b',' ≡ none)
unfolding value_with
std_no_value = (refl, refl, refl)

abbrev pub std : Alphabet
std = record {
  digit = digit_with b'+' b'/';
  value = value_with b'+' b'/';
  value_digit = std_value_digit;
  no_break = std_no_break;
}

abbrev pub url : Alphabet
url = record {
  digit = digit_with b'-' b'_';
  value = value_with b'-' b'_';
  value_digit = url_value_digit;
  no_break = url_no_break;
}

abbrev pub encoded_len : ℕ → ℕ
encoded_len n = n / 3 * 4 + (n % 3 * 8 + 5) / 6

abbrev pub decoded_len : ℕ → ℕ
decoded_len n = n / 4 * 3 + n % 4 * 6 / 8

unfoldable pub without_breaks : Bytes → Bytes
without_breaks [] = []
without_breaks (c ∷ s) =
    let rest = without_breaks s in if c == 10 || c == 13 then rest else c ∷ rest

abbrev pub prepend : List ℕ → Option Bytes → Option Bytes
prepend bs none = none
prepend bs (some out) = some (bs ++ out)

-- The bytes of two, three or four values.
abbrev byte_1 : ℕ → ℕ → ℕ
byte_1 w x = (w * 4 + x / 16) % 256

abbrev byte_2 : ℕ → ℕ → ℕ
byte_2 x y = (x * 16 + y / 4) % 256

abbrev byte_3 : ℕ → ℕ → ℕ
byte_3 y z = (y * 64 + z) % 256

unfoldable pub two_values : Option ℕ → Option ℕ → Option Bytes
two_values (some w) (some x) = some (byte_1 w x ∷ [])
two_values _ _ = none

unfoldable pub three_values : Option ℕ → Option ℕ → Option ℕ → Option Bytes
three_values (some w) (some x) (some y) = some (byte_1 w x ∷ byte_2 x y ∷ [])
three_values _ _ _ = none

unfoldable pub four_values : Option ℕ → Option ℕ → Option ℕ → Option ℕ → Option Bytes
four_values (some w) (some x) (some y) (some z) = some (byte_1 w x ∷ byte_2 x y ∷ byte_3 y z ∷ [])
four_values _ _ _ _ = none

abbrev prepend_optional : Option Bytes → Option Bytes → Option Bytes
prepend_optional none o = none
prepend_optional (some bs) o = prepend bs o

module _ (a : Alphabet) where
  open a use {digit, value}

  unfoldable pub encode : Bytes → Bytes
  encode [] = []
  encode (p ∷ []) = digit (p / 4) ∷ digit (p % 4 * 16) ∷ []
  encode (p ∷ q ∷ []) = digit (p / 4) ∷ digit (p % 4 * 16 + q / 16) ∷ digit (q % 16 * 4) ∷ []
  encode (p ∷ q ∷ r ∷ rest) =
      digit (p / 4)
      ∷ digit (p % 4 * 16 + q / 16)
      ∷ digit (q % 16 * 4 + r / 64)
      ∷ digit (r % 64)
      ∷ encode rest

  unfoldable pub decode_groups : Bytes → Option Bytes
  unfolding two_values three_values four_values
  decode_groups [] = some []
  decode_groups (w ∷ []) = none
  decode_groups (w ∷ x ∷ []) = two_values (value w) (value x)
  decode_groups (w ∷ x ∷ y ∷ []) = three_values (value w) (value x) (value y)
  decode_groups (w ∷ x ∷ y ∷ z ∷ rest) =
      prepend_optional (four_values (value w) (value x) (value y) (value z)) (decode_groups rest)

  unfoldable pub decode : Bytes → Option Bytes
  unfolding decode_groups without_breaks
  decode s = decode_groups (without_breaks s)

  -- What has no value is not in an encoded text.
  avoids : (c v : ℕ) → value c ≡ none → v < 64 → (digit v == c) ≡ false
  avoids c v h lt = elim (Bool-cases (digit v == c)) [
    | inl y ↦ cc (a.value_digit v lt, ap value ((==_iff (digit v) c).0 y))
    | inr n ↦ n
  ]

  pub contains-encode :
      (c : ℕ) (xs : Bytes) → value c ≡ none → All IsByte xs → contains c (encode xs) ≡ false
  unfolding encode contains
  contains-encode c [] v h = refl
  contains-encode c (p ∷ []) v h =
      rw (avoids c (p / 4) v (omega arith), avoids c (p % 4 * 16) v (omega arith))
  contains-encode c (p ∷ q ∷ []) v h = rw (
    avoids c (p / 4) v (omega arith),
    avoids c (p % 4 * 16 + q / 16) v (omega arith),
    avoids c (q % 16 * 4) v (omega arith),
  )
  contains-encode c (p ∷ q ∷ r ∷ rest) v h =
      rw
        (
          avoids c (p / 4) v (omega arith),
          avoids c (p % 4 * 16 + q / 16) v (omega arith),
          avoids c (q % 16 * 4 + r / 64) v (omega arith),
          avoids c (r % 64) v (omega arith),
        )
        (contains-encode c rest v h.1.1.1)

  without_breaks_lem :
      (s : Bytes) → contains 10 s ≡ false → contains 13 s ≡ false → without_breaks s ≡ s
  unfolding without_breaks contains
  without_breaks_lem [] h k = refl
  without_breaks_lem (c ∷ s) h k = ground (arith, without_breaks_lem s)

  decode_groups-encode : (xs : Bytes) → All IsByte xs → decode_groups (encode xs) ≡ some xs
  unfolding decode_groups encode
  decode_groups-encode [] h = refl
  decode_groups-encode (p ∷ []) h =
      rw (a.value_digit (p / 4) (omega arith), a.value_digit (p % 4 * 16) (omega arith))
        (ground arith)
  decode_groups-encode (p ∷ q ∷ []) h =
      rw
        (
          a.value_digit (p / 4) (omega arith),
          a.value_digit (p % 4 * 16 + q / 16) (omega arith),
          a.value_digit (q % 16 * 4) (omega arith),
        )
        (ground arith)
  decode_groups-encode (p ∷ q ∷ r ∷ rest) h =
      rw
        (
          a.value_digit (p / 4) (omega arith),
          a.value_digit (p % 4 * 16 + q / 16) (omega arith),
          a.value_digit (q % 16 * 4 + r / 64) (omega arith),
          a.value_digit (r % 64) (omega arith),
          decode_groups-encode rest h.1.1.1,
        )
        (ground arith)

  pub decode-encode : (xs : Bytes) → All IsByte xs → decode (encode xs) ≡ some xs
  unfolding decode
  decode-encode xs h =
      rw
        (without_breaks_lem (encode xs) (contains-encode 10 xs a.no_break.0 h)
          (contains-encode 13 xs a.no_break.1 h))
        (decode_groups-encode xs h)

  pub length-encode : (xs : Bytes) → length (encode xs) ≡ encoded_len (length xs)
  unfolding encode
  length-encode [] = refl
  length-encode (p ∷ []) = omega arith
  length-encode (p ∷ q ∷ []) = omega arith
  length-encode (p ∷ q ∷ r ∷ rest) = omega (arith, length-encode rest)
