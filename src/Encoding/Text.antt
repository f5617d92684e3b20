-- ===== src/Encoding/Text.antt =====
-- strings.Split on one byte, HasPrefix and TrimPrefix, and equality of strings.
use cresora.Prelude.{
  ℕ, ◌+◌, ◌<◌, ◌≡◌, ◌↔◌, ◌≢◌, refl, ap, ◌∙◌, Bool, true, false, ◌&&◌, ◌||◌, Option, none, some,
  List, [], ◌∷◌, ◌++◌, ◌==◌, if◌then◌else◌, arith, All, length, length-append, Bool-cases, inl, inr,
  ==_iff,
}
use Prim.Native.Char.{code}
use Prim.Native.String.{String}

abbrev pub Bytes : Type 0
Bytes = List ℕ

abbrev pub bytes : String → Bytes
bytes String.[] = []
bytes (String.◌∷◌ c s) = code c ∷ bytes s

abbrev pub IsByte : ℕ → Type 0
IsByte b = b < 256

unfoldable pub same_bytes : Bytes → Bytes → Bool
same_bytes [] [] = true
same_bytes (a ∷ xs) (b ∷ ys) = a == b && same_bytes xs ys
same_bytes _ _ = false

pub same_bytes_iff : (xs ys : Bytes) → (same_bytes xs ys ≡ true) ↔ (xs ≡ ys)
unfolding same_bytes
same_bytes_iff [] [] = (λ _. refl, λ _. refl)
same_bytes_iff [] (b ∷ ys) = ground arith
same_bytes_iff (a ∷ xs) [] = ground arith
same_bytes_iff (a ∷ xs) (b ∷ ys) = ground (arith, same_bytes_iff xs ys)

-- The text before the first `sep`, and the parts after it.
abbrev add_to_first : ℕ → List Bytes → List Bytes
add_to_first c [] = (c ∷ []) ∷ []
add_to_first c (p ∷ ps) = (c ∷ p) ∷ ps

unfoldable pub split : ℕ → Bytes → List Bytes
split sep [] = [] ∷ []
split sep (c ∷ s) = let rest = split sep s in if c == sep then [] ∷ rest else add_to_first c rest

-- Texts without the separator.
unfoldable pub contains : ℕ → Bytes → Bool
contains c [] = false
contains c (x ∷ xs) = x == c || contains c xs

unfoldable pub join : ℕ → List Bytes → Bytes
join sep [] = []
join sep (p ∷ []) = p
join sep (p ∷ q ∷ ps) = p ++ (sep ∷ join sep (q ∷ ps))

-- What follows a prefix, if the text has it.
unfoldable pub strip_prefix : Bytes → Bytes → Option Bytes
strip_prefix [] s = some s
strip_prefix (c ∷ cs) [] = none
strip_prefix (c ∷ cs) (x ∷ xs) = if c == x then strip_prefix cs xs else none

pub strip_prefix-append : (p s : Bytes) → strip_prefix p (p ++ s) ≡ some s
unfolding strip_prefix
strip_prefix-append [] s = refl
strip_prefix-append (c ∷ p) s = rw ((==_iff c c).1 refl) (strip_prefix-append p s)

pub strip_prefix-some : (p s t : Bytes) → strip_prefix p s ≡ some t → s ≡ p ++ t
unfolding strip_prefix
strip_prefix-some [] s t h = ground arith
strip_prefix-some (c ∷ p) [] t h = cc
strip_prefix-some (c ∷ p) (x ∷ xs) t h = ground (arith, strip_prefix-some p xs t)

pub contains-append :
    (c : ℕ) (xs ys : Bytes) → contains c (xs ++ ys) ≡ (contains c xs || contains c ys)
unfolding contains
contains-append c [] ys = refl
contains-append c (x ∷ xs) ys = ground (arith, contains-append c xs ys)

split-last : (sep : ℕ) (p : Bytes) → contains sep p ≡ false → split sep p ≡ p ∷ []
unfolding split contains
split-last sep [] h = refl
split-last sep (c ∷ p) h = ground (arith, split-last sep p)

split-append :
    (sep : ℕ) (p s : Bytes) → contains sep p ≡ false → split sep (p ++ (sep ∷ s)) ≡ p ∷ split sep s
unfolding split contains
split-append sep [] s h = rw ((==_iff sep sep).1 refl)
split-append sep (c ∷ p) s h = ground (arith, split-append sep p s)

-- Splitting what was joined gives the parts back, if none holds the separator.
pub split-join :
    (sep : ℕ) (p : Bytes) (ps : List Bytes)
    → All (λ q. contains sep q ≡ false) (p ∷ ps)
    → split sep (join sep (p ∷ ps)) ≡ p ∷ ps
unfolding join
split-join sep p [] h = split-last sep p h.0
split-join sep p (q ∷ ps) h =
    split-append sep p (join sep (q ∷ ps)) h.0 ∙ ap (λ r. p ∷ r) (split-join sep q ps h.1)

join-add : (sep c : ℕ) (ps : List Bytes) → join sep (add_to_first c ps) ≡ c ∷ join sep ps
unfolding join
join-add sep c [] = refl
join-add sep c (p ∷ []) = refl
join-add sep c (p ∷ q ∷ ps) = refl

join-empty : (sep : ℕ) (ps : List Bytes) → ps ≢ [] → join sep ([] ∷ ps) ≡ sep ∷ join sep ps
unfolding join
join-empty sep [] h = absurd (h refl)
join-empty sep (p ∷ ps) h = refl

add_to_first-ne : (c : ℕ) (ps : List Bytes) → add_to_first c ps ≢ []
add_to_first-ne c [] = ground arith
add_to_first-ne c (p ∷ ps) = ground arith

split-ne : (sep : ℕ) (s : Bytes) → split sep s ≢ []
unfolding split
split-ne sep [] = ground arith
split-ne sep (c ∷ s) = ground (arith, add_to_first-ne c (split sep s))

-- Joining the parts of a text gives the text back.
pub join-split : (sep : ℕ) (s : Bytes) → join sep (split sep s) ≡ s
unfolding split
join-split sep [] = unfold join in refl
join-split sep (c ∷ s) = elim (Bool-cases (c == sep)) [
  | inl y ↦ rw y (
      join-empty sep (split sep s) (split-ne sep s)
      ∙ ground (arith, join-split sep s, (==_iff c sep).0 y))
  | inr y ↦ rw y (join-add sep c (split sep s) ∙ ap (λ r. c ∷ r) (join-split sep s))
]

pub length-join :
    (sep : ℕ) (p q : Bytes) (ps : List Bytes)
    → length (join sep (p ∷ q ∷ ps)) ≡ length p + 1 + length (join sep (q ∷ ps))
unfolding join
length-join sep p q ps = omega (arith, length-append p (sep ∷ join sep (q ∷ ps)))

pub join_one : (sep : ℕ) (p : Bytes) → join sep (p ∷ []) ≡ p
unfolding join
join_one sep p = refl
