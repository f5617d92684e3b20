-- ===== src/Auth/Phone/Trim.antt =====
-- What `strings.TrimSpace` gives has nothing to trim.
use cresora.Prelude.{
  ℕ, ◌≡◌, refl, sym, ap, subst, ◌∙◌, false, List, [], ◌∷◌, ◌++◌, reverse, Bool-cases, inl, inr,
}
use mathlib.Core.List.{reverse-append, reverse-reverse}
use cresora.Auth.Phone.{is_space, trim_left, trim_space}

-- No white space at the front.
abbrev Leads : List ℕ → Type 0
Leads [] = Unit
Leads (c ∷ cs) = is_space c ≡ false

trim_left-Leads : (cs : List ℕ) → Leads (trim_left cs)
unfolding trim_left
trim_left-Leads [] = tt
trim_left-Leads (c ∷ cs) = elim (Bool-cases (is_space c)) [
  | inl y ↦ rw y (trim_left-Leads cs)
  | inr n ↦ rw n n
]

Leads-trim_left : (cs : List ℕ) → Leads cs → trim_left cs ≡ cs
unfolding trim_left
Leads-trim_left [] h = refl
Leads-trim_left (c ∷ cs) h = rw h refl

-- What `trim_left` takes away stands in front of what it leaves.
trim_left-suffix : (cs : List ℕ) → (ws : List ℕ) × (cs ≡ ws ++ trim_left cs)
unfolding trim_left
trim_left-suffix [] = ([], refl)
trim_left-suffix (c ∷ cs) =
    let (ws, e) = trim_left-suffix cs in
    elim (Bool-cases (is_space c)) [
      | inl y ↦ (c ∷ ws, rw y (ap (λ xs. c ∷ xs) e))
      | inr n ↦ ([], rw n refl)
    ]

Leads-append : (xs ys : List ℕ) → Leads (xs ++ ys) → Leads xs
Leads-append [] ys h = tt
Leads-append (x ∷ xs) ys h = h

trim_right-Leads : (cs : List ℕ) → Leads cs → Leads (reverse (trim_left (reverse cs)))
trim_right-Leads cs h =
    let (ws, e) = trim_left-suffix (reverse cs) in
    let t = trim_left (reverse cs) in
    Leads-append (reverse t) (reverse ws)
      (subst Leads (sym (reverse-reverse cs) ∙ ap reverse e ∙ reverse-append ws t) h)

pub trim_space-trim_space : (cs : List ℕ) → trim_space (trim_space cs) ≡ trim_space cs
unfolding trim_space
trim_space-trim_space cs =
    let t = trim_left (reverse (trim_left cs)) in
    rw (Leads-trim_left (reverse t) (trim_right-Leads (trim_left cs) (trim_left-Leads cs))) (
      rw (reverse-reverse t)
        (rw (Leads-trim_left t (trim_left-Leads (reverse (trim_left cs)))) refl))
