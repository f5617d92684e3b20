-- ===== src/Examples/Workers.antt =====
-- The delivery worker: internal/entrypoint/background/deliveryworker/worker.go.
use cresora.Prelude.{
  ℕ, ◌≡◌, ◌↔◌, refl, true, false, none, some, List, [], ◌∷◌, ◌++◌, ◌*◌, ◌⊎◌, pos, arith,
}
use cresora.Worker.Config.{
  Config, Field, names, defaults, validate, FitsInt64, IsSafe, validate-IsSafe,
}
use cresora.Worker.Faults.{Given, given, fine, failed}
use cresora.Worker.State.{new_state, finished}
use cresora.Worker.Coordinator.{
  slot_free, claim_answer, admission_read, command_answer, renew_answer, claims_canceled,
}
use cresora.Worker.Run.{
  Event, coordinator_step, execution_step, parent_stops, choose, look, run, parent_ended,
  has_returned,
}
use cresora.Worker.Slots.{Slots, run-Slots, busy}
use cresora.Worker.Lives.{life, Lives, done, given_back}
use cresora.Worker.Lives.Refines.{run_refines}
use cresora.Worker.Shutdown.{is_empty, is_shutdown_timeout}
use cresora.Worker.Shutdown.Quiet.{run_finishes}

abbrev all_fields : List Field
all_fields =
    Field.empty_poll ∷ Field.execution_timeout ∷ Field.drain_timeout ∷ Field.cleanup_timeout
    ∷ Field.lease_duration ∷ Field.lease_safety_margin ∷ []

all_fields-names : (f : Field) → names all_fields f ≡ true
all_fields-names Field.empty_poll = refl
all_fields-names Field.execution_timeout = refl
all_fields-names Field.drain_timeout = refl
all_fields-names Field.cleanup_timeout = refl
all_fields-names Field.lease_duration = refl
all_fields-names Field.lease_safety_margin = refl

-- A lease of the same length as an execution is too short.
abbrev short_lease : Config
short_lease = record defaults { lease_duration = pos (30 * 1000 * 1000 * 1000) }

short_lease-FitsInt64 : FitsInt64 short_lease
short_lease-FitsInt64 Field.empty_poll = omega arith
short_lease-FitsInt64 Field.execution_timeout = omega arith
short_lease-FitsInt64 Field.drain_timeout = omega arith
short_lease-FitsInt64 Field.cleanup_timeout = omega arith
short_lease-FitsInt64 Field.lease_duration = omega arith
short_lease-FitsInt64 Field.lease_safety_margin = omega arith

validate_test : validate all_fields defaults ≡ none
unfolding validate
validate_test = refl

validate-IsSafe_example : (validate all_fields short_lease ≡ none) ↔ IsSafe short_lease
validate-IsSafe_example =
    validate-IsSafe all_fields short_lease all_fields-names short_lease-FitsInt64

abbrev refusal : Given
refusal = record { name = 1; empty = true; rejected = false; finalization = false }

abbrev stopped : Given
stopped = record { name = 2; empty = false; rejected = false; finalization = false }

-- One task is executed, the next one fails and is released, the queue is empty, the parent ends, and
-- `Run` returns.
abbrev claims_one : List Event
claims_one =
    coordinator_step slot_free
    ∷ coordinator_step (claim_answer true none)
    ∷ coordinator_step admission_read
    ∷ coordinator_step (command_answer true fine)
    ∷ coordinator_step (renew_answer fine)
    ∷ []

abbrev ends_one : ℕ → List Event
ends_one n = execution_step n fine ∷ execution_step n fine ∷ execution_step n fine ∷ []

abbrev shuts_down : List Event
shuts_down =
    coordinator_step slot_free
    ∷ coordinator_step (claim_answer false (some refusal))
    ∷ parent_stops (given stopped)
    ∷ coordinator_step claims_canceled
    ∷ choose parent_ended
    ∷ look false true
    ∷ look false true
    ∷ look false true
    ∷ look false true
    ∷ []

abbrev whole_run : List Event
whole_run =
    claims_one
    ++ claims_one
    ++ ends_one 0
    ++ (execution_step 1 (failed stopped) ∷ ends_one 1)
    ++ shuts_down

whole_run_test : (run new_state whole_run).main ≡ finished (some (given stopped))
unfolding run
whole_run_test = refl

-- While both run, two slots are in use.
busy_test : busy (run new_state (claims_one ++ claims_one)).executors ≡ 2
unfolding run busy
busy_test = refl

run_refines_example : Lives 1 (run new_state whole_run)
run_refines_example = run_refines 1 whole_run

run-Slots_example : Slots (run new_state (claims_one ++ claims_one))
run-Slots_example = run-Slots (claims_one ++ claims_one)

run_finishes_example :
    (has_returned (run new_state whole_run).pc ≡ true)
    × (is_empty (run new_state whole_run).executors ≡ true)
    × ((life 1 (run new_state whole_run).log ≡ done)
        ⊎ (life 1 (run new_state whole_run).log ≡ given_back))
unfolding run is_shutdown_timeout
run_finishes_example = run_finishes whole_run (some (given stopped)) 1 refl refl (omega arith)
