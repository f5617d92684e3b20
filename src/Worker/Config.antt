-- ===== src/Worker/Config.antt =====
-- deliveryworker/worker.go: the durations of the worker, and the bounds that they are checked for.
use cresora.Prelude.{
  ℕ, ◌+◌, ◌-◌, ◌*◌, ◌^◌, ◌<◌, ◌≡◌, refl, subst, ◌↔◌, Bool, true, false, not, ◌||◌, Option, none,
  some, List, [], ◌∷◌, ℤ, pos, is_positive, pos_part, lt_ℤ, add64, sub64, ◌==◌, if◌then◌else◌,
  arith,
}
use cresora.Prelude.Result.{Result, ok, err}

-- Durations are nanoseconds in an int64.
pub record Config : Type 0 where
  pub empty_poll : ℤ
  pub execution_timeout : ℤ
  pub drain_timeout : ℤ
  pub cleanup_timeout : ℤ
  pub lease_duration : ℤ
  pub lease_safety_margin : ℤ

abbrev pub second : ℕ
second = 1000 * 1000 * 1000

abbrev pub max_duration : ℤ
max_duration = pos (2 ^ 63 - 1)

abbrev pub outcome_finalization_timeout : ℤ
outcome_finalization_timeout = pos (2 * second)

abbrev pub defaults : Config
defaults = record {
  empty_poll = pos (250 * 1000 * 1000);
  execution_timeout = pos (30 * second);
  drain_timeout = pos (8 * second);
  cleanup_timeout = pos (2 * second);
  lease_duration = pos (60 * second);
  lease_safety_margin = pos (5 * second);
}

pub data Field : Type 0 where
  empty_poll execution_timeout drain_timeout cleanup_timeout : Field
  lease_duration lease_safety_margin : Field

abbrev pub duration_of : Config → Field → ℤ
duration_of c Field.empty_poll = c.empty_poll
duration_of c Field.execution_timeout = c.execution_timeout
duration_of c Field.drain_timeout = c.drain_timeout
duration_of c Field.cleanup_timeout = c.cleanup_timeout
duration_of c Field.lease_duration = c.lease_duration
duration_of c Field.lease_safety_margin = c.lease_safety_margin

-- What `ErrInvalidConfig` is wrapped with.
pub data ConfigError : Type 0 where
  not_positive : Field → ConfigError
  finalization_overflow margin_overflow lease_too_short shutdown_overflow : ConfigError

unfoldable pub lease_safety_duration : Config → Result ConfigError ℤ
lease_safety_duration c =
    if not (is_positive c.execution_timeout)
    then err (not_positive Field.execution_timeout)
    else if not (is_positive c.lease_safety_margin)
    then err (not_positive Field.lease_safety_margin)
    else if lt_ℤ (sub64 max_duration outcome_finalization_timeout) c.execution_timeout
    then err finalization_overflow
    else let without_margin = add64 c.execution_timeout outcome_finalization_timeout in
      if lt_ℤ (sub64 max_duration c.lease_safety_margin) without_margin
      then err margin_overflow
      else ok (add64 without_margin c.lease_safety_margin)

-- The loop over the map of the durations, in the order in which it is iterated.
unfoldable pub first_not_positive : Config → List Field → Option ConfigError
first_not_positive c [] = none
first_not_positive c (f ∷ fs) =
    let rest = first_not_positive c fs in
    if not (is_positive (duration_of c f)) then some (not_positive f) else rest

unfoldable pub validate_bounds : Config → Result ConfigError ℤ → Option ConfigError
validate_bounds c (err e) = some e
validate_bounds c (ok lease_safety) =
    if not (lt_ℤ lease_safety c.lease_duration)
    then some lease_too_short
    else if lt_ℤ (sub64 max_duration c.cleanup_timeout) c.drain_timeout
    then some shutdown_overflow
    else none

-- What follows the loop: the bounds, unless a duration was found.
unfoldable pub validate_found :
    Config → Option ConfigError → Result ConfigError ℤ → Option ConfigError
validate_found c (some e) safety = some e
validate_found c none safety = validate_bounds c safety

unfoldable pub validate : List Field → Config → Option ConfigError
unfolding first_not_positive validate_found validate_bounds lease_safety_duration
validate order c = validate_found c (first_not_positive c order) (lease_safety_duration c)

abbrev field_code : Field → ℕ
field_code Field.empty_poll = 0
field_code Field.execution_timeout = 1
field_code Field.drain_timeout = 2
field_code Field.cleanup_timeout = 3
field_code Field.lease_duration = 4
field_code Field.lease_safety_margin = 5

abbrev pub names : List Field → Field → Bool
names [] f = false
names (g ∷ gs) f = field_code g == field_code f || names gs f

-- Every duration is within int64.
abbrev pub FitsInt64 : Config → Type 0
FitsInt64 c = (f : Field) → pos_part (duration_of c f) < 2 ^ 63

-- All durations are positive; an execution, its finalization and the margin end within the lease;
-- and the two phases of a shutdown have a sum that int64 holds.
pub record IsSafe (c : Config) : Type 0 where
  pub polls : is_positive c.empty_poll ≡ true
  pub executes : is_positive c.execution_timeout ≡ true
  pub drains : is_positive c.drain_timeout ≡ true
  pub cleans : is_positive c.cleanup_timeout ≡ true
  pub leases : is_positive c.lease_duration ≡ true
  pub keeps_margin : is_positive c.lease_safety_margin ≡ true
  pub within_lease :
      pos_part c.execution_timeout + 2 * second + pos_part c.lease_safety_margin
      < pos_part c.lease_duration
  pub shuts_down : pos_part c.drain_timeout + pos_part c.cleanup_timeout < 2 ^ 63

same_field :
    (c : Config) (g f : Field)
    → (field_code g == field_code f) ≡ true
    → is_positive (duration_of c g) ≡ true
    → is_positive (duration_of c f) ≡ true
same_field c Field.empty_poll Field.empty_poll h k = k
same_field c Field.execution_timeout Field.execution_timeout h k = k
same_field c Field.drain_timeout Field.drain_timeout h k = k
same_field c Field.cleanup_timeout Field.cleanup_timeout h k = k
same_field c Field.lease_duration Field.lease_duration h k = k
same_field c Field.lease_safety_margin Field.lease_safety_margin h k = k
same_field c g f h k = cc

first_not_positive-none :
    (c : Config) (order : List Field) (f : Field)
    → first_not_positive c order ≡ none
    → names order f ≡ true
    → is_positive (duration_of c f) ≡ true
unfolding first_not_positive
first_not_positive-none c [] f h k = cc
first_not_positive-none c (g ∷ gs) f h k =
    ground (arith, first_not_positive-none c gs f, same_field c g f)

IsSafe-positive : (c : Config) (f : Field) → IsSafe c → is_positive (duration_of c f) ≡ true
IsSafe-positive c Field.empty_poll s = s.polls
IsSafe-positive c Field.execution_timeout s = s.executes
IsSafe-positive c Field.drain_timeout s = s.drains
IsSafe-positive c Field.cleanup_timeout s = s.cleans
IsSafe-positive c Field.lease_duration s = s.leases
IsSafe-positive c Field.lease_safety_margin s = s.keeps_margin

first_not_positive-IsSafe :
    (c : Config) (order : List Field) → IsSafe c → first_not_positive c order ≡ none
unfolding first_not_positive
first_not_positive-IsSafe c [] s = refl
first_not_positive-IsSafe c (g ∷ gs) s =
    ground (arith, first_not_positive-IsSafe c gs s, IsSafe-positive c g s)

-- Within int64, the sum that `LeaseSafetyDuration` returns is the true one.
lease_safety_sum :
    (c : Config) (d : ℤ)
    → pos_part c.execution_timeout < 2 ^ 63
    → pos_part c.lease_safety_margin < 2 ^ 63
    → lease_safety_duration c ≡ ok d
    → d ≡ pos (pos_part c.execution_timeout + 2 * second + pos_part c.lease_safety_margin)
unfolding lease_safety_duration
lease_safety_sum c d he hm h = ground arith

bounds_safe :
    (c : Config)
    → pos_part c.drain_timeout < 2 ^ 63
    → pos_part c.cleanup_timeout < 2 ^ 63
    → is_positive c.cleanup_timeout ≡ true
    → is_positive c.drain_timeout ≡ true
    → (d : ℕ) → validate_bounds c (ok (pos d)) ≡ none
    → (d < pos_part c.lease_duration)
      × (pos_part c.drain_timeout + pos_part c.cleanup_timeout < 2 ^ 63)
unfolding validate_bounds
bounds_safe c hd hc pc pd d h = ground arith

safe_bounds :
    (c : Config)
    → pos_part c.cleanup_timeout < 2 ^ 63
    → IsSafe c
    → (d : ℕ) → d < pos_part c.lease_duration
    → validate_bounds c (ok (pos d)) ≡ none
unfolding validate_bounds
safe_bounds c hc s d h = ground (arith, s.drains, s.cleans, s.leases, s.shuts_down)

abbrev safety_sum : Config → ℕ
safety_sum c = pos_part c.execution_timeout + 2 * second + pos_part c.lease_safety_margin

safe_duration :
    (c : Config)
    → pos_part c.lease_duration < 2 ^ 63
    → IsSafe c
    → lease_safety_duration c ≡ ok (pos (safety_sum c))
unfolding lease_safety_duration
safe_duration c h s = ground (arith, s.executes, s.keeps_margin, s.within_lease)

found_steps :
    (c : Config) (found : Option ConfigError) (safety : Result ConfigError ℤ)
    → validate_found c found safety ≡ none
    → (found ≡ none) × ((d : ℤ) × (safety ≡ ok d) × (validate_bounds c (ok d) ≡ none))
unfolding validate_found
found_steps c (some e) safety h = cc
found_steps c none (err e) h = unfold validate_bounds in cc
found_steps c none (ok d) h = (refl, (d, refl, h))

safe_found :
    (c : Config) (found : Option ConfigError) (safety : Result ConfigError ℤ) (d : ℤ)
    → found ≡ none
    → safety ≡ ok d
    → validate_bounds c (ok d) ≡ none
    → validate_found c found safety ≡ none
unfolding validate_found
safe_found c found safety d e f h = rw (e, f) h

module _ (order : List Field) (c : Config) (all : (f : Field) → names order f ≡ true)
    (fits : FitsInt64 c) where
  accepted :
      (d : ℤ)
      → first_not_positive c order ≡ none
      → lease_safety_duration c ≡ ok d
      → validate_bounds c (ok d) ≡ none
      → IsSafe c
  accepted d e l h =
      let positive = λ (f : Field). first_not_positive-none c order f e (all f) in
      let sum =
        lease_safety_sum c d (fits Field.execution_timeout) (fits Field.lease_safety_margin) l in
      let b =
        bounds_safe c (fits Field.drain_timeout) (fits Field.cleanup_timeout)
          (positive Field.cleanup_timeout) (positive Field.drain_timeout) (safety_sum c)
          (subst (λ x. validate_bounds c (ok x) ≡ none) sum h) in
      record {
        polls = positive Field.empty_poll;
        executes = positive Field.execution_timeout;
        drains = positive Field.drain_timeout;
        cleans = positive Field.cleanup_timeout;
        leases = positive Field.lease_duration;
        keeps_margin = positive Field.lease_safety_margin;
        within_lease = b.0;
        shuts_down = b.1;
      }

-- For durations within int64, and whatever the order in which the map of the durations is iterated,
-- `Validate` accepts a configuration exactly when every duration is positive, an execution with its
-- finalization and the margin ends within the lease, and the two phases of a shutdown have a sum
-- that int64 holds.
pub validate-IsSafe :
    (order : List Field) (c : Config)
    → ((f : Field) → names order f ≡ true)
    → FitsInt64 c
    → (validate order c ≡ none) ↔ IsSafe c
unfolding validate
validate-IsSafe order c all fits = (
  λ h.
      let steps = found_steps c _ _ h in
      accepted order c all fits steps.1.0 steps.0 steps.1.1 steps.1.2,
  λ s.
      safe_found c _ _ _ (first_not_positive-IsSafe c order s)
        (safe_duration c (fits Field.lease_duration) s)
        (safe_bounds c (fits Field.cleanup_timeout) s (safety_sum c) s.within_lease),
)
