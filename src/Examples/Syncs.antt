-- ===== src/Examples/Syncs.antt =====
-- Dialog synchronization: internal/application/dialogsync and internal/entrypoint/background/dialogsync.
use cresora.Prelude.{
  ◌^◌, ◌<◌, ◌↔◌, pos_part, inl, inr, List, ◌-◌, ◌≡◌, refl, false, none, some, [], ◌∷◌, pos, arith,
}
use cresora.Prelude.Result.{ok, err}
use cresora.Sync.{
  Failure, Ports, Backoffs, returned, retries, finished, sync, execute, conclude, settle,
  flood_backoff, capped_backoff,
}
use cresora.Sync.Config.{
  Config, Field, defaults, duration_of, validate, first_not_positive, IsOrder, ArePositive, Holds,
  validate_config_iff,
}
use cresora.Sync.Backoff.{DrawsBelow, IsDelay, flood_backoff-IsDelay}
use cresora.Sync.Settles.{EndsOnce, IsSane, execute-EndsOnce}

abbrev throttled : Failure
throttled = record {
  code = 1;
  account_not_found = false;
  lease_lost = false;
  is_canceled = false;
  deadline_exceeded = false;
  permanent = false;
  flood_wait = some (pos 120);
}

-- The longest jitter that the bound allows.
abbrev ports : Ports
ports = record {
  revalidate = ok 3;
  fetch = λ target. err throttled;
  context_error = none;
  complete = λ dialogs. none;
  retry = λ delay. none;
  fail = none;
  draw = λ n. n - 1;
}

abbrev backoffs : Backoffs
backoffs = record { retry_backoff = pos 30; flood_floor = pos 90; max_backoff = pos 600 }

ports-DrawsBelow : DrawsBelow ports
ports-DrawsBelow n h = omega arith

throttled-IsSane : IsSane backoffs throttled
throttled-IsSane = record {
  floor = 90;
  retry = 30;
  is_floor = refl;
  is_retry = refl;
  positive = (omega arith, omega arith);
  fits = (omega arith, omega arith);
  wait_fits = omega arith;
}

throttled_test : (sync ports).1 ≡ some throttled
unfolding sync
throttled_test = refl

-- A wait of 120 is prolonged by 4, which is a 25th of it and not 25 percent.
jitter_test :
    execute ports backoffs (returned (some throttled))
    ≡ (retries throttled (pos 124) ∷ [], finished)
unfolding execute conclude settle flood_backoff capped_backoff
jitter_test = refl

flood_backoff-IsDelay_example : IsDelay 120 (pos 600) (flood_backoff ports backoffs (pos 120))
flood_backoff-IsDelay_example =
    flood_backoff-IsDelay ports backoffs (pos 120) 90 ports-DrawsBelow refl (omega arith)
      (omega arith) (omega arith)

execute-EndsOnce_example : EndsOnce (sync ports) (execute ports backoffs (returned (sync ports).1))
unfolding sync
execute-EndsOnce_example = execute-EndsOnce ports backoffs ports-DrawsBelow throttled-IsSane

abbrev order : List Field
order =
    Field.flood_floor ∷ Field.retry_backoff ∷ Field.lease_duration ∷ Field.cleanup_timeout
    ∷ Field.drain_timeout ∷ Field.execution_timeout ∷ Field.empty_poll ∷ []

order-IsOrder : IsOrder order
order-IsOrder Field.flood_floor = inl refl
order-IsOrder Field.retry_backoff = inr (inl refl)
order-IsOrder Field.lease_duration = inr (inr (inl refl))
order-IsOrder Field.cleanup_timeout = inr (inr (inr (inl refl)))
order-IsOrder Field.drain_timeout = inr (inr (inr (inr (inl refl))))
order-IsOrder Field.execution_timeout = inr (inr (inr (inr (inr (inl refl)))))
order-IsOrder Field.empty_poll = inr (inr (inr (inr (inr (inr (inl refl))))))

-- An execution that may take 292 years, and a lease of two minutes.
abbrev endless : Config
endless = record defaults { execution_timeout = pos (2 ^ 63 - 1) }

endless_fits : (f : Field) → pos_part (duration_of endless f) < 2 ^ 63
endless_fits Field.flood_floor = omega arith
endless_fits Field.retry_backoff = omega arith
endless_fits Field.lease_duration = omega arith
endless_fits Field.cleanup_timeout = omega arith
endless_fits Field.drain_timeout = omega arith
endless_fits Field.execution_timeout = omega arith
endless_fits Field.empty_poll = omega arith

endless_test : validate order endless ≡ none
unfolding validate first_not_positive
endless_test = refl

validate_config_iff_example :
    (validate order endless ≡ none) ↔ (ArePositive endless × Holds endless)
validate_config_iff_example = validate_config_iff order endless order-IsOrder endless_fits
