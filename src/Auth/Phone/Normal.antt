-- ===== src/Auth/Phone/Normal.antt =====
-- What `normalizePhone` answers: E.164 numbers, each of which it leaves as it is.
use mathlib.Core.List.{reverse-reverse}
use cresora.Prelude.{
  ℕ, ◌≤◌, ◌≡◌, true, false, Option, none, some, List, [], ◌∷◌, reverse, arith, refl, length, All,
  inl, All-map, OnSome, subst, ◌⊎◌, All-reverse,
}
use cresora.Auth.Phone.{
  is_space, trim_left, trim_space, is_digit, keep_digits, cut_zeros, add_plus, check_digits, finish,
  normalize_phone, starts_with_zero,
}

abbrev pub IsDigit : ℕ → Type 0
IsDigit c = is_digit c ≡ true

-- A plus sign and seven to fifteen digits, the first of which is not zero.
abbrev pub IsE164 : List ℕ → Type 0
IsE164 [] = ⊥
IsE164 (plus ∷ digits) =
    (plus ≡ b'+')
    × All IsDigit digits
    × (7 ≤ length digits)
    × (length digits ≤ 15)
    × (starts_with_zero digits ≡ false)

keep_digits-digits : (cs : List ℕ) → OnSome (All IsDigit) (keep_digits false cs)
unfolding keep_digits
keep_digits-digits [] = tt
keep_digits-digits (c ∷ cs) = ground (arith, keep_digits-digits cs)

-- What the loop keeps: digits, behind at most one plus sign, which stands first.
abbrev pub Kept : List ℕ → Type 0
Kept [] = Unit
Kept (c ∷ cs) = (IsDigit c ⊎ (c ≡ b'+')) × All IsDigit cs

Kept-digits : (o : Option (List ℕ)) → OnSome (All IsDigit) o → OnSome Kept o
Kept-digits none h = tt
Kept-digits (some []) h = tt
Kept-digits (some (c ∷ cs)) h = (inl h.0, h.1)

pub keep_digits-Kept : (cs : List ℕ) → OnSome Kept (keep_digits true cs)
unfolding keep_digits
keep_digits-Kept [] = tt
keep_digits-Kept (c ∷ cs) =
    ground
      (arith, keep_digits-digits cs, Kept-digits (keep_digits false cs) (keep_digits-digits cs))

abbrev IsPlus : List ℕ → Type 0
IsPlus [] = ⊥
IsPlus (c ∷ cs) = (c ≡ b'+') × All IsDigit cs

add_plus-IsPlus : (v : List ℕ) → Kept v → IsPlus (add_plus (cut_zeros v))
unfolding add_plus cut_zeros
add_plus-IsPlus [] h = (refl, tt)
add_plus-IsPlus (a ∷ []) h = ground arith
add_plus-IsPlus (a ∷ b ∷ cs) h = ground arith

check_digits-IsE164 : (v : List ℕ) → IsPlus v → OnSome IsE164 (check_digits v)
unfolding check_digits
check_digits-IsE164 [] h = absurd h
check_digits-IsE164 (c ∷ cs) h = ground arith

finish-IsE164 : (o : Option (List ℕ)) → OnSome Kept o → OnSome IsE164 (finish o)
unfolding finish
finish-IsE164 none h = tt
finish-IsE164 (some v) h = check_digits-IsE164 (add_plus (cut_zeros v)) (add_plus-IsPlus v h)

-- The answer is always an E.164 number.
pub normalize_phone-IsE164 : (phone q : List ℕ) → normalize_phone phone ≡ some q → IsE164 q
unfolding normalize_phone
normalize_phone-IsE164 phone q h = subst (OnSome IsE164) h answer
  where
    answer : OnSome IsE164 (normalize_phone phone)
    answer =
        let cs = trim_space phone in
        ground (arith, finish-IsE164 (keep_digits true cs) (keep_digits-Kept cs))

NotSpace-digit : (c : ℕ) → IsDigit c → is_space c ≡ false
unfolding is_space
NotSpace-digit c h = ground arith

trim_left-id : (cs : List ℕ) → All (λ c. is_space c ≡ false) cs → trim_left cs ≡ cs
unfolding trim_left
trim_left-id [] h = refl
trim_left-id (c ∷ cs) h = rw h.0

trim_space-id : (cs : List ℕ) → All (λ c. is_space c ≡ false) cs → trim_space cs ≡ cs
unfolding trim_space
trim_space-id cs h =
    rw (trim_left-id cs h, trim_left-id (reverse cs) (All-reverse (λ c. is_space c ≡ false) cs h))
      (reverse-reverse cs)

keep_digits-id : (cs : List ℕ) → All IsDigit cs → keep_digits false cs ≡ some cs
unfolding keep_digits
keep_digits-id [] h = refl
keep_digits-id (c ∷ cs) h = ground (arith, keep_digits-id cs)

plus_not_space : (c : ℕ) → c ≡ b'+' → is_space c ≡ false
unfolding is_space
plus_not_space c h = ground arith

keep_digits_plus :
    (c : ℕ) (cs : List ℕ) → c ≡ b'+' → All IsDigit cs → keep_digits true (c ∷ cs) ≡ some (c ∷ cs)
unfolding keep_digits
keep_digits_plus c cs e h = ground (arith, keep_digits-id cs h)

finish-id : (c : ℕ) (cs : List ℕ) → IsE164 (c ∷ cs) → finish (some (c ∷ cs)) ≡ some (c ∷ cs)
unfolding finish cut_zeros add_plus check_digits
finish-id c [] h = ground arith
finish-id c (d ∷ ds) h = ground arith

-- An E.164 number is left as it is.
pub normalize_phone-id : (q : List ℕ) → IsE164 q → normalize_phone q ≡ some q
unfolding normalize_phone
normalize_phone-id [] h = absurd h
normalize_phone-id (plus ∷ digits) h =
    rw
      (trim_space-id (plus ∷ digits)
        (plus_not_space plus h.0, All-map IsDigit _ digits NotSpace-digit h.1))
      (rw (keep_digits_plus plus digits h.0 h.1) (finish-id plus digits h))
