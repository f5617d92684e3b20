-- ===== src/Sync/Backoff.antt =====
-- How long the worker waits before it tries a synchronization again.
use cresora.Prelude.{
  ℕ, ◌+◌, ◌^◌, ◌<◌, ◌≤◌, ◌≡◌, refl, ◌⊎◌, inl, inr, ◌&&◌, true, false, Option, some, ℤ, pos, negsuc,
  is_positive, pos_part, lt_ℤ, add64, ltb, if◌then◌else◌, arith, Bool-cases,
}
use Prim.Native.Nat.{◌/◌}
use cresora.Sync.{Ports, Backoffs, capped, capped_backoff, flood_backoff, backoff, bigger}

-- A delay for a wait of `base`: not shorter but for a positive maximum, at most a 25th longer, and within
-- the maximum, if there is one.
pub record IsDelay (base : ℕ) (max : ℤ) (delay : Option ℤ) : Type 0 where
  pub length : ℕ
  pub same : delay ≡ some (pos length)
  pub long_enough : (base ≤ length) ⊎ ((is_positive max ≡ true) × (length ≡ pos_part max))
  pub no_longer : length ≤ base + base / 25
  pub within : (is_positive max ≡ false) ⊎ (length ≤ pos_part max)

-- `rand.Int63n` is below its bound.
abbrev pub DrawsBelow : Ports → Type 0
DrawsBelow p = (n : ℕ) → 0 < n → p.draw n < n

abbrev pub larger : ℕ → ℕ → ℕ
larger a b = if ltb a b then b else a

add64_fits : (a b : ℕ) → a + b < 2 ^ 63 → add64 (pos a) (pos b) ≡ pos (a + b)
add64_fits a b h = ground arith

jitter_lem :
    (p : Ports) (base : ℕ) (max : ℤ)
    → DrawsBelow p
    → base ≤ 2 ^ 62
    → capped_backoff p (pos base) max ≡ some (capped max (pos (base + p.draw (base / 25 + 1))))
unfolding capped_backoff
jitter_lem p base max draws b = ground (
  arith,
  draws (base / 25 + 1) (omega arith),
  add64_fits base (p.draw (base / 25 + 1)) (omega (arith, draws (base / 25 + 1) (omega arith))),
)

capped_cases :
    (base extra : ℕ) (max : ℤ)
    → extra ≤ base / 25
    → IsDelay base max (some (capped max (pos (base + extra))))
capped_cases base extra (pos m) h = elim (Bool-cases (ltb 0 m && ltb m (base + extra))) [
  | inl y ↦ rw y record {
    length = m;
    same = refl;
    long_enough = inr (ground arith, refl);
    no_longer = ground arith;
    within = inr (omega arith);
  }
  | inr n ↦ rw n record {
    length = base + extra;
    same = refl;
    long_enough = inl (omega arith);
    no_longer = omega arith;
    within = ground arith;
  }
]
capped_cases base extra (negsuc m) h = record {
  length = base + extra;
  same = refl;
  long_enough = inl (omega arith);
  no_longer = omega arith;
  within = inl refl;
}

capped_backoff-IsDelay :
    (p : Ports) (base : ℕ) (max : ℤ)
    → DrawsBelow p
    → 0 < base
    → base ≤ 2 ^ 62
    → IsDelay base max (capped_backoff p (pos base) max)
capped_backoff-IsDelay p base max draws h b = rw (jitter_lem p base max draws b) (
    capped_cases base (p.draw (base / 25 + 1)) max
      (omega (arith, draws (base / 25 + 1) (omega arith))))

-- The floor is raised to the wait that the server asks for, if that is longer.
raised_lem :
    (server : ℤ) (f : ℕ)
    → 0 < f
    → (if is_positive (pos f) && lt_ℤ server (pos f) then pos f else server)
      ≡ pos (larger (pos_part server) f)
raised_lem (pos s) f h = ground arith
raised_lem (negsuc s) f h = ground arith

larger_fits : (a b : ℕ) → a ≤ 2 ^ 62 → b ≤ 2 ^ 62 → larger a b ≤ 2 ^ 62
larger_fits a b h k = ground arith

-- If the random source keeps its bound, and the floor is positive and it and the server's wait are
-- no longer than 2 ^ 62 nanoseconds, the delay after a flood wait is at least the larger of that
-- wait and the floor, unless a positive maximum cuts it to that maximum; it is at most a 25th above
-- that, within a positive maximum, and no panic.
pub flood_backoff-IsDelay :
    (p : Ports) (c : Backoffs) (server : ℤ) (f : ℕ)
    → DrawsBelow p
    → c.flood_floor ≡ pos f
    → 0 < f
    → f ≤ 2 ^ 62
    → pos_part server ≤ 2 ^ 62
    → IsDelay (larger (pos_part server) f) c.max_backoff (flood_backoff p c server)
unfolding flood_backoff
flood_backoff-IsDelay p c server f draws e h fits b = rw e (
    rw (raised_lem server f h) (
      capped_backoff-IsDelay p (larger (pos_part server) f) c.max_backoff draws (ground arith)
        (larger_fits (pos_part server) f b fits)))

bigger_lem : (r : ℕ) → bigger (pos r) (pos r) ≡ pos r
bigger_lem r = ground arith

pub backoff-IsDelay :
    (p : Ports) (c : Backoffs) (r : ℕ)
    → DrawsBelow p
    → c.retry_backoff ≡ pos r
    → 0 < r
    → r ≤ 2 ^ 62
    → IsDelay r c.max_backoff (backoff p c c.retry_backoff)
unfolding backoff
backoff-IsDelay p c r draws e h fits =
    rw e (rw (bigger_lem r) (capped_backoff-IsDelay p r c.max_backoff draws h fits))
