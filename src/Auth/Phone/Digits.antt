-- ===== src/Auth/Phone/Digits.antt =====
-- `normalizePhone` against the digits of its argument: separators and white space do not count.
use mathlib.Core.List.{reverse-reverse, reverse-cons, append-nil}
use cresora.Prelude.{
  ℕ, ◌≡◌, Bool, true, false, Option, none, some, List, [], ◌∷◌, ◌++◌, reverse, arith, refl, OnSome,
  subst, All, if◌then◌else◌, ◌==◌, ◌&&◌,
}
use cresora.Auth.Phone.Normal.{IsDigit, Kept, keep_digits-Kept}
use cresora.Auth.Phone.{
  is_space, trim_left, trim_space, is_digit, is_separator, keep_digits, cut_zeros, add_plus,
  check_digits, finish, normalize_phone, starts_with_zero,
}

pub digits_of : List ℕ → List ℕ
digits_of [] = []
digits_of (c ∷ cs) = let rest = digits_of cs in if is_digit c then c ∷ rest else rest

-- A leading 00 is the international prefix, which the plus sign replaces.
pub drop_zeros : List ℕ → List ℕ
drop_zeros [] = []
drop_zeros (a ∷ []) = a ∷ []
drop_zeros (a ∷ b ∷ cs) = if a == b'0' && b == b'0' then cs else a ∷ b ∷ cs

digits_of-append : (xs ys : List ℕ) → digits_of (xs ++ ys) ≡ digits_of xs ++ digits_of ys
unfolding digits_of
digits_of-append [] ys = refl
digits_of-append (x ∷ xs) ys = ground (arith, digits_of-append xs ys)

digits_of-reverse : (xs : List ℕ) → digits_of (reverse xs) ≡ reverse (digits_of xs)
digits_of-reverse [] = unfold digits_of in refl
digits_of-reverse (x ∷ xs) =
    rw (reverse-cons x xs, digits_of-append (reverse xs) (x ∷ []), digits_of-reverse xs)
      (unfold digits_of in
        ground (arith, reverse-cons x (digits_of xs), append-nil (reverse (digits_of xs))))

digits_of-trim_left : (xs : List ℕ) → digits_of (trim_left xs) ≡ digits_of xs
unfolding digits_of trim_left
digits_of-trim_left [] = refl
digits_of-trim_left (x ∷ xs) = ground (arith, digits_of-trim_left xs)

digits_of-trim_space : (xs : List ℕ) → digits_of (trim_space xs) ≡ digits_of xs
unfolding trim_space
digits_of-trim_space xs = rw (
  digits_of-reverse (trim_left (reverse (trim_left xs))),
  digits_of-trim_left (reverse (trim_left xs)),
  digits_of-reverse (trim_left xs),
  reverse-reverse,
  digits_of-trim_left xs,
)

digits_of-keep_digits :
    (first : Bool) (cs : List ℕ) → OnSome (λ v. digits_of v ≡ digits_of cs) (keep_digits first cs)
unfolding digits_of keep_digits is_separator is_space
digits_of-keep_digits first [] = refl
digits_of-keep_digits first (c ∷ cs) = ground (arith, digits_of-keep_digits false cs)

digits_of-id : (cs : List ℕ) → All IsDigit cs → digits_of cs ≡ cs
unfolding digits_of
digits_of-id [] h = refl
digits_of-id (c ∷ cs) h = ground (arith, digits_of-id cs h.1)

drop_zeros-id : (cs : List ℕ) → starts_with_zero cs ≡ false → drop_zeros cs ≡ cs
unfolding drop_zeros
drop_zeros-id [] h = cc
drop_zeros-id (a ∷ []) h = refl
drop_zeros-id (a ∷ b ∷ cs) h = ground arith

digits_of-finish :
    (v : List ℕ) → Kept v → OnSome (λ q. digits_of q ≡ drop_zeros (digits_of v)) (finish (some v))
unfolding finish cut_zeros add_plus check_digits digits_of drop_zeros
digits_of-finish [] h = tt
digits_of-finish (a ∷ []) h = ground arith
digits_of-finish (a ∷ b ∷ cs) h =
    ground (arith, digits_of-id cs, digits_of-id (b ∷ cs), drop_zeros-id (b ∷ cs))

-- The digits of the answer are those of the argument, in order and with nothing added, less a
-- leading 00.
pub digits-normalize_phone :
    (phone q : List ℕ) → normalize_phone phone ≡ some q → digits_of q ≡ drop_zeros (digits_of phone)
unfolding normalize_phone
digits-normalize_phone phone q h = subst (OnSome Same) h answer
  where
    Same : List ℕ → Type 0
    Same q = digits_of q ≡ drop_zeros (digits_of phone)

    kept :
        (o : Option (List ℕ))
        → OnSome Kept o
        → OnSome (λ v. digits_of v ≡ digits_of phone) o
        → OnSome Same (finish o)
    kept none k e = unfold finish in tt
    kept (some v) k e =
        subst (λ d. OnSome (λ q. digits_of q ≡ drop_zeros d) (finish (some v))) e
          (digits_of-finish v k)

    answer : OnSome Same (normalize_phone phone)
    answer =
        let cs = trim_space phone in
        ground (
          arith,
          kept (keep_digits true cs) (keep_digits-Kept cs) (
              subst (λ d. OnSome (λ v. digits_of v ≡ d) (keep_digits true cs))
                (digits_of-trim_space phone) (digits_of-keep_digits true cs)),
        )
