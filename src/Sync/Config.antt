-- ===== src/Sync/Config.antt =====
-- background/dialogsync/worker.go: the durations of the worker, and the bounds that they are checked for.
use cresora.Prelude.{
  ℕ, ◌+◌, ◌*◌, ◌^◌, ◌<◌, ◌≤◌, ◌≡◌, ◌↔◌, ◌⊎◌, refl, true, not, Option, none, some, List, [], ◌∷◌, ℤ,
  pos, negsuc, is_positive, pos_part, lt_ℤ, add64, if◌then◌else◌, arith, Some, inl, inr, subst,
}

-- Durations are nanoseconds in an int64.
pub record Config : Type 0 where
  pub empty_poll : ℤ
  pub execution_timeout : ℤ
  pub drain_timeout : ℤ
  pub cleanup_timeout : ℤ
  pub lease_duration : ℤ
  pub retry_backoff : ℤ
  pub flood_floor : ℤ
  pub max_backoff : ℤ

abbrev second : ℕ
second = 1000 * 1000 * 1000

abbrev pub lease_safety_margin : ℕ
lease_safety_margin = 5 * second

abbrev pub defaults : Config
defaults = record {
  empty_poll = pos (250 * 1000 * 1000);
  execution_timeout = pos (90 * second);
  drain_timeout = pos (8 * second);
  cleanup_timeout = pos (2 * second);
  lease_duration = pos (120 * second);
  retry_backoff = pos (30 * second);
  flood_floor = pos (90 * second);
  max_backoff = pos (600 * second);
}

-- The entries of the map of durations.
pub data Field : Type 0 where
  empty_poll execution_timeout drain_timeout cleanup_timeout : Field
  lease_duration retry_backoff flood_floor : Field

abbrev pub duration_of : Config → Field → ℤ
duration_of c Field.empty_poll = c.empty_poll
duration_of c Field.execution_timeout = c.execution_timeout
duration_of c Field.drain_timeout = c.drain_timeout
duration_of c Field.cleanup_timeout = c.cleanup_timeout
duration_of c Field.lease_duration = c.lease_duration
duration_of c Field.retry_backoff = c.retry_backoff
duration_of c Field.flood_floor = c.flood_floor

-- What `ErrInvalidConfig` is wrapped with.
pub data ConfigError : Type 0 where
  not_positive : Field → ConfigError
  lease_too_short : ConfigError

-- The loop over the map, in the order in which it is iterated.
unfoldable pub first_not_positive : Config → List Field → Option ConfigError
first_not_positive c [] = none
first_not_positive c (f ∷ fs) =
    let rest = first_not_positive c fs in
    if not (is_positive (duration_of c f)) then some (not_positive f) else rest

abbrev validate_lease : Config → Option ConfigError → Option ConfigError
validate_lease c (some e) = some e
validate_lease c none =
    if not (lt_ℤ (add64 c.execution_timeout (pos lease_safety_margin)) c.lease_duration)
    then some lease_too_short
    else none

unfoldable pub validate : List Field → Config → Option ConfigError
unfolding first_not_positive
validate order c = validate_lease c (first_not_positive c order)

abbrev pub ArePositive : Config → Type 0
ArePositive c = (f : Field) → is_positive (duration_of c f) ≡ true

abbrev pub IsOrder : List Field → Type 0
IsOrder order = (f : Field) → Some (λ g. g ≡ f) order

found_none :
    (c : Config) (order : List Field) (f : Field)
    → first_not_positive c order ≡ none
    → Some (λ g. g ≡ f) order
    → is_positive (duration_of c f) ≡ true
unfolding first_not_positive
found_none c [] f h s = absurd s
found_none c (g ∷ gs) f h (inl e) =
    subst (λ x. is_positive (duration_of c x) ≡ true) e (ground (arith, h))
found_none c (g ∷ gs) f h (inr s) = found_none c gs f (ground (arith, h)) s

none_found : (c : Config) (order : List Field) → ArePositive c → first_not_positive c order ≡ none
unfolding first_not_positive
none_found c [] a = refl
none_found c (g ∷ gs) a = ground (arith, a g, none_found c gs a)

-- The execution and the margin end within the lease, or their sum is too large for an int64.
abbrev pub Holds : Config → Type 0
Holds c =
    let sum = pos_part c.execution_timeout + lease_safety_margin in
    (sum < pos_part c.lease_duration) ⊎ (2 ^ 63 ≤ sum)

lease_iff :
    (e l : ℤ)
    → is_positive e ≡ true
    → is_positive l ≡ true
    → pos_part e < 2 ^ 63
    → pos_part l < 2 ^ 63
    → (lt_ℤ (add64 e (pos lease_safety_margin)) l ≡ true) ↔ (
        (pos_part e + lease_safety_margin < pos_part l)
        ⊎ (2 ^ 63 ≤ pos_part e + lease_safety_margin))
lease_iff (pos e) (pos l) he hl be bl = ground arith
lease_iff (negsuc e) l he hl be bl = cc
lease_iff (pos e) (negsuc l) he hl be bl = cc

found_lem : (c : Config) (o : Option ConfigError) → validate_lease c o ≡ none → o ≡ none
found_lem c none h = refl
found_lem c (some e) h = h

lease_lem :
    (c : Config)
    → ArePositive c
    → ((f : Field) → pos_part (duration_of c f) < 2 ^ 63)
    → (validate_lease c none ≡ none) ↔ Holds c
lease_lem c good fits = ground (
  arith,
  lease_iff c.execution_timeout c.lease_duration (good Field.execution_timeout)
      (good Field.lease_duration) (fits Field.execution_timeout) (fits Field.lease_duration),
)

-- For durations within int64, and whatever the order in which the map is iterated, the configuration
-- is accepted exactly when every duration of the map is positive and the execution with the margin
-- ends within the lease or has a sum that no int64 holds.
pub validate_config_iff :
    (order : List Field) (c : Config)
    → IsOrder order
    → ((f : Field) → pos_part (duration_of c f) < 2 ^ 63)
    → (validate order c ≡ none) ↔ (ArePositive c × Holds c)
unfolding validate
validate_config_iff order c o fits = (
  λ h.
      let unfound = found_lem c (first_not_positive c order) h in
      let good : ArePositive c = λ f. found_none c order f unfound (o f) in
      (good, (lease_lem c good fits).0 (subst (λ e. validate_lease c e ≡ none) unfound h)),
  λ h. rw (none_found c order h.0) ((lease_lem c h.0 fits).1 h.1),
)
