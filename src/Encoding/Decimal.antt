-- ===== src/Encoding/Decimal.antt =====
-- strconv: `%d` of an unsigned number, and `ParseUint` in base ten for 32 bits.
use cresora.Prelude.{
  ℕ, zero, suc, ◌+◌, ◌-◌, ◌*◌, ◌%◌, ◌^◌, ◌<◌, ◌≤◌, ◌≡◌, refl, ap, ◌∙◌, Bool, true, false, not, ◌||◌,
  Option, none, some, [], ◌∷◌, ◌++◌, ◌==◌, ltb, if◌then◌else◌, arith, length, Bool-cases, inl, inr,
}
use Prim.Native.Nat.{◌/◌}
use mathlib.Core.List.{append-nil}
use native.Mathlib.Nat.{pow-suc}
use cresora.Encoding.Text.{Bytes, contains}

-- Each round divides the number by ten, and puts its last digit before those that it has.
unfoldable pub digits : ℕ → ℕ → Bytes → Bytes
digits zero n out = out
digits (suc f) n out =
    let more = digits f (n / 10) ((b'0' + n % 10) ∷ out) in
    if ltb n 10 then (b'0' + n) ∷ out else more

unfoldable pub format : ℕ → Bytes
unfolding digits
format n = digits (suc n) n []

abbrev pub max_uint32 : ℕ
max_uint32 = 2 ^ 32 - 1

unfoldable pub scan : Bytes → ℕ → Option ℕ
scan [] n = some n
scan (c ∷ s) n =
    let d = c - b'0' in
    if ltb c b'0' || ltb b'9' c
    then none
    else if ltb max_uint32 (n * 10 + d)
    then none
    else scan s (n * 10 + d)

unfoldable pub parse_uint32 : Bytes → Option ℕ
unfolding scan
parse_uint32 [] = none
parse_uint32 (c ∷ s) = scan (c ∷ s) 0

scan-digits :
    (f n : ℕ) (out : Bytes) → n < f → n ≤ max_uint32 → scan (digits f n out) 0 ≡ scan out n
unfolding digits scan
scan-digits zero n out h b = absurd (omega arith)
scan-digits (suc f) n out h b = elim (Bool-cases (ltb n 10)) [
  | inl y ↦ rw y (ground arith)
  | inr y ↦
      rw y
        (scan-digits f (n / 10) ((b'0' + n % 10) ∷ out) (ground arith) (omega arith) ∙ ground arith)
]

abbrev pub leads : Bytes → Bool
leads [] = false
leads (c ∷ s) = not (c == b'0')

-- The first digit of a number that is not zero is not zero.
leads-digits : (f n : ℕ) (out : Bytes) → n < f → 0 < n → leads (digits f n out) ≡ true
unfolding digits
leads-digits zero n out h b = absurd (omega arith)
leads-digits (suc f) n out h b = elim (Bool-cases (ltb n 10)) [
  | inl y ↦ rw y (ground arith)
  | inr y ↦ rw y (leads-digits f (n / 10) _ (ground arith) (ground arith))
]

-- No text of digits has a byte below `0` or above `9` that its end does not have.
contains-digits :
    (c f n : ℕ) (out : Bytes)
    → c < b'0'
    → contains c out ≡ false
    → contains c (digits f n out) ≡ false
unfolding digits contains
contains-digits c zero n out h k = k
contains-digits c (suc f) n out h k =
    ground (arith, contains-digits c f (n / 10) ((b'0' + n % 10) ∷ out) h)

length-digits :
    (k f n : ℕ) (out : Bytes) → n < 10 ^ suc k → length (digits f n out) ≤ suc k + length out
unfolding digits
length-digits k zero n out h = omega arith
length-digits zero (suc f) n out h = ground arith
length-digits (suc k) (suc f) n out h =
    ground (arith, length-digits k f (n / 10) ((b'0' + n % 10) ∷ out), pow-suc 10 (suc k))

parse_of_scan : (s : Bytes) (n : ℕ) → 0 < n → scan s 0 ≡ some n → parse_uint32 s ≡ some n
unfolding parse_uint32 scan
parse_of_scan [] n h k = ground arith
parse_of_scan (c ∷ s) n h k = k

pub parse_uint32-format : (n : ℕ) → 0 < n → n ≤ max_uint32 → parse_uint32 (format n) ≡ some n
unfolding scan format
parse_uint32-format n h b = parse_of_scan (format n) n h (scan-digits (suc n) n [] (omega arith) b)

-- The fuel does not matter once it is enough.
digits_fuel : (f g n : ℕ) (out : Bytes) → n < f → n < g → digits f n out ≡ digits g n out
unfolding digits
digits_fuel zero g n out h k = absurd (omega arith)
digits_fuel (suc f) zero n out h k = absurd (omega arith)
digits_fuel (suc f) (suc g) n out h k =
    ground (arith, digits_fuel f g (n / 10) ((b'0' + n % 10) ∷ out))

stepped :
    (f w : ℕ) (out : Bytes)
    → 10 ≤ w
    → digits (suc f) w out ≡ digits f (w / 10) ((b'0' + w % 10) ∷ out)
unfolding digits
stepped f w out h = ground arith

digits_step :
    (f w m c : ℕ) (out : Bytes)
    → 0 < m
    → b'0' ≤ c
    → c ≤ b'9'
    → w ≡ m * 10 + (c - b'0')
    → w < f
    → digits f w out ≡ digits (suc m) m (c ∷ out)
digits_step zero w m c out h k l e b = absurd (omega arith)
digits_step (suc f) w m c out h k l e b =
    let d : w / 10 ≡ m = omega arith in
    let r : b'0' + w % 10 ≡ c = omega arith in
    stepped f w out (omega arith)
    ∙ rw (d, r) (digits_fuel f (suc m) m (c ∷ out) (omega arith) (omega arith))

pub scan_step :
    (c : ℕ) (s : Bytes) (m : ℕ) {n : ℕ}
    → scan (c ∷ s) m ≡ some n
    → (b'0' ≤ c) × (c ≤ b'9') × (scan s (m * 10 + (c - b'0')) ≡ some n)
unfolding scan
scan_step c s m h = ground arith

-- Printing the value of digits that are read after `m` prints `m`, and then them.
digits-scan :
    (s : Bytes) (m n f : ℕ) (out : Bytes)
    → scan s m ≡ some n
    → 0 < m
    → n < f
    → digits f n out ≡ digits (suc m) m (s ++ out)
digits-scan [] m n f out h p q = unfold scan in ground (arith, digits_fuel f (suc m) m out)
digits-scan (c ∷ s) m n f out h p q =
    let (lo, hi, rest) = scan_step c s m h in
    digits-scan s (m * 10 + (c - b'0')) n f out rest (omega arith) q
    ∙ digits_step (suc (m * 10 + (c - b'0'))) (m * 10 + (c - b'0')) m c (s ++ out) p lo hi refl
        (omega arith)

format_lem : (n : ℕ) → format n ≡ digits (suc n) n []
unfolding format
format_lem n = refl

digits_one : (d : ℕ) (out : Bytes) → d < 10 → digits (suc d) d out ≡ (b'0' + d) ∷ out
unfolding digits
digits_one d out h = ground arith

-- A text of digits that does not begin with `0` is what is printed for its value.
pub format-scan :
    (c n : ℕ) (s : Bytes) → b'0' < c → parse_uint32 (c ∷ s) ≡ some n → format n ≡ c ∷ s
unfolding parse_uint32
format-scan c n s h k =
    let (lo, hi, rest) = scan_step c s 0 {n = n} k in
    let d : ℕ = 0 * 10 + (c - b'0') in
    format_lem n
    ∙ digits-scan s d n (suc n) [] rest (omega arith) (omega arith)
    ∙ ap (digits (suc d) d) (append-nil s)
    ∙ digits_one d s (omega arith)
    ∙ ap (λ x. x ∷ s) (omega arith)

pub leads-format : (n : ℕ) → 0 < n → leads (format n) ≡ true
unfolding format
leads-format n h = leads-digits (suc n) n [] (omega arith) h

pub contains-format : (c n : ℕ) → c < b'0' → contains c (format n) ≡ false
unfolding format
contains-format c n h = contains-digits c (suc n) n [] h (unfold contains in refl)

pub length-format : (k n : ℕ) → n < 10 ^ suc k → length (format n) ≤ suc k
unfolding format
length-format k n h = omega (arith, length-digits k (suc n) n [] h)
