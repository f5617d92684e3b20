-- ===== src/Delivery/Failures.antt =====
-- commands/delivery/failures.go: classifying an error tree, and wrapping a cause.
use cresora.Prelude.{
  ℕ, ◌≡◌, ◌↔◌, Bool, true, false, not, ◌||◌, ◌&&◌, Option, none, some, ℤ, pos, is_positive, arith,
  ◌==◌, if◌then◌else◌, is_none,
}

pub data Sentinel : Type 0 where
  permanent transient flood_wait unknown_outcome : Sentinel

abbrev sentinel_code : Sentinel → ℕ
sentinel_code permanent = 0
sentinel_code transient = 1
sentinel_code flood_wait = 2
sentinel_code unknown_outcome = 3

abbrev pub same_sentinel : Sentinel → Sentinel → Bool
same_sentinel s t = sentinel_code s == sentinel_code t

-- A Go error and what it unwraps to: a sentinel, a foreign error, a `*FloodWaitError` (nil or with
-- its duration), or an error that wraps others, as `fmt.Errorf` with one or several `%w` does.
mutual
  pub data Failure : Type 0 where
    sentinel : Sentinel → Failure
    foreign : ℕ → Failure
    flood_wait_error : Option ℤ → Failure
    wraps : Causes → Failure

  pub data Causes : Type 0 where
    nothing : Causes
    cause : Failure → Causes → Causes

-- `errors.Is` against a sentinel, depth first. `FloodWaitError` unwraps to `ErrFloodWait`.
unfoldable mutual
  pub is : Sentinel → Failure → Bool
  is s (sentinel t) = same_sentinel t s
  is s (foreign n) = false
  is s (flood_wait_error d) = same_sentinel flood_wait s
  is s (wraps cs) = is_any s cs

  pub is_any : Sentinel → Causes → Bool
  is_any s nothing = false
  is_any s (cause f cs) = is s f || is_any s cs

abbrev or_else : Option (Option ℤ) → Option (Option ℤ) → Option (Option ℤ)
or_else none o = o
or_else (some d) o = some d

-- `errors.As` for a `*FloodWaitError`, depth first.
unfoldable mutual
  pub as_flood_wait : Failure → Option (Option ℤ)
  as_flood_wait (sentinel t) = none
  as_flood_wait (foreign n) = none
  as_flood_wait (flood_wait_error d) = some d
  as_flood_wait (wraps cs) = as_flood_wait_any cs

  pub as_flood_wait_any : Causes → Option (Option ℤ)
  as_flood_wait_any nothing = none
  as_flood_wait_any (cause f cs) = or_else (as_flood_wait f) (as_flood_wait_any cs)

-- `RetryAfter` is zero but for a flood wait.
pub data Classification : Type 0 where
  failure_unknown failure_permanent failure_transient : Classification
  failure_flood_wait : ℤ → Classification

unfoldable pub classify_flood_wait : Option ℤ → Classification
classify_flood_wait none = failure_unknown
classify_flood_wait (some d) = if is_positive d then failure_flood_wait d else failure_unknown

unfoldable pub classify_sentinel : Failure → Classification
classify_sentinel f =
    if is permanent f
    then failure_permanent
    else if is transient f
    then failure_transient
    else if is unknown_outcome f
    then failure_unknown
    else failure_unknown

unfoldable pub classify : Option Failure → Classification
unfolding classify_flood_wait classify_sentinel
classify none = failure_unknown
classify (some f) = elim (as_flood_wait f) [
  | some d ↦ classify_flood_wait d
  | none ↦ classify_sentinel f
]

-- `kind` and `cause`, both wrapped, or `kind` alone if there is no cause.
unfoldable pub wrap_failure : Sentinel → Option Failure → Failure
wrap_failure kind none = sentinel kind
wrap_failure kind (some f) = wraps (cause (sentinel kind) (cause f nothing))

unfoldable pub wrap_permanent : Option Failure → Failure
unfolding wrap_failure
wrap_permanent = wrap_failure permanent

unfoldable pub wrap_transient : Option Failure → Failure
unfolding wrap_failure
wrap_transient = wrap_failure transient

unfoldable pub wrap_unknown : Option Failure → Failure
unfolding wrap_failure
wrap_unknown = wrap_failure unknown_outcome

-- `RetryAfter` of a `*FloodWaitError`.
unfoldable pub retry_after : Option ℤ → ℤ
retry_after none = pos 0
retry_after (some d) = d

-- The first flood wait in the tree, if it asks for a positive wait.
abbrev pub Waits : Failure → ℤ → Type 0
Waits f d = (as_flood_wait f ≡ some (some d)) × (is_positive d ≡ true)

-- `classify` answers with a flood wait exactly when the first `FloodWaitError` in the tree carries
-- that positive duration, with a transient failure exactly when there is no `FloodWaitError` and
-- the tree holds `ErrTransient` and not `ErrPermanent`, and with a permanent failure exactly when
-- there is no `FloodWaitError` and the tree holds `ErrPermanent`.
pub classify_iff :
    (f : Failure) (d : ℤ)
    → ((classify (some f) ≡ failure_flood_wait d) ↔ Waits f d)
      × ((classify (some f) ≡ failure_transient)
          ↔ ((as_flood_wait f ≡ none) × (is transient f ≡ true) × (is permanent f ≡ false)))
      × ((classify (some f) ≡ failure_permanent)
          ↔ ((as_flood_wait f ≡ none) × (is permanent f ≡ true)))
unfolding classify
classify_iff f d = ground arith

-- Wrapping a cause without a flood wait makes it permanent under `WrapPermanent`, transient under
-- `WrapTransient` unless it is already permanent, and leaves its class under `WrapUnknown`; a
-- `FloodWaitError` inside the cause decides alone, and all three leave the class as it was.
classify-wrap :
    (f : Failure)
    → let old = classify (some f) in
      let free = is_none (as_flood_wait f) in
      (classify (some (wrap_permanent (some f))) ≡ (if free then failure_permanent else old))
      × (classify (some (wrap_transient (some f)))
          ≡ (if free && not (is permanent f) then failure_transient else old))
      × (classify (some (wrap_unknown (some f))) ≡ old)
unfolding classify wrap_permanent wrap_transient wrap_unknown is as_flood_wait
classify-wrap f = ground arith
