-- ===== src/Examples/Deliveries.antt =====
-- Deliveries: internal/application/commands/delivery.
use cresora.Prelude.{◌≡◌, ◌≢◌, ◌↔◌, true, false, some, none, List, [], ◌∷◌, pos, refl, All, Some}
use cresora.Delivery.Failures.{
  Failure, sentinel, foreign, flood_wait_error, wraps, cause, nothing, transient, permanent, is,
  as_flood_wait, classify, failure_flood_wait, failure_transient, failure_permanent, wrap_permanent,
  Waits, classify_iff,
}
use cresora.Delivery.Reconcile.{
  DeliveryState, sent, skipped, failed, unknown, pending, run_completed, run_failed,
  terminal_run_status, IsTerminal, IsBad, IsHarmless, terminal_run_status_iff,
}

-- A rate limit that a permanent failure wraps is still a rate limit.
abbrev limited : Failure
limited = wrap_permanent (some (flood_wait_error (some (pos 5))))

limited_waits : classify (some limited) ≡ failure_flood_wait (pos 5)
unfolding classify wrap_permanent as_flood_wait
limited_waits = refl

classify_iff_example :
    ((classify (some limited) ≡ failure_flood_wait (pos 5)) ↔ Waits limited (pos 5))
    × ((classify (some limited) ≡ failure_transient) ↔ (
        (as_flood_wait limited ≡ none)
        × (is transient limited ≡ true)
        × (is permanent limited ≡ false)))
    × ((classify (some limited) ≡ failure_permanent)
        ↔ ((as_flood_wait limited ≡ none) × (is permanent limited ≡ true)))
classify_iff_example = classify_iff limited (pos 5)

abbrev lost : Failure
lost = wraps (cause (foreign 1) (cause (sentinel transient) nothing))

abbrev states : List DeliveryState
states = sent ∷ skipped ∷ unknown ∷ []

terminal_run_status_iff_example :
    ((terminal_run_status states ≡ some run_completed) ↔ ((states ≢ []) × All IsHarmless states))
    × ((terminal_run_status states ≡ some run_failed) ↔ (All IsTerminal states × Some IsBad states))
terminal_run_status_iff_example = terminal_run_status_iff states

unknown_fails : terminal_run_status states ≡ some run_failed
unfolding terminal_run_status
unknown_fails = refl

pending_holds : terminal_run_status (failed ∷ pending ∷ []) ≡ none
unfolding terminal_run_status
pending_holds = refl
