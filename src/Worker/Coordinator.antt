-- ===== src/Worker/Coordinator.antt =====
-- deliveryworker/worker.go: the coordinator, one step from each call that it makes to the next. What
-- a call answers, and when contexts are canceled, is chosen by the environment.
use cresora.Prelude.{
  ℕ, suc, ◌+◌, Bool, true, false, not, ◌&&◌, Option, none, some, ◌∷◌, ltb, if◌then◌else◌,
}
use cresora.Worker.Faults.{
  Given, Fault, given, worded, panicked, no_admission, nil_task, nil_command, malformed_task, is,
  join, join_optional, Reply, safe, coordinator, task_admission, command_resolver, task_renewal,
  task_release, claim_task, resolve_command, renew_lease, release_late_task,
}
use cresora.Worker.Tracker.{add}
use cresora.Worker.State.{
  Resume, claim_failed, malformed, unresolved, unrenewed, no_command, late, Pc, selecting, claiming,
  polling, returned, admitting, resolving, renewing, releasing, executing, claimed, executed, State,
  canceled, report_fatal, record_optional, claim_cause, free_slot, log_release,
}

abbrev pub execution_capacity : ℕ
execution_capacity = 4

-- What a call of the coordinator answers: `Claim` and `Command` with or without their value.
pub data Answer : Type 0 where
  claim_answer : Bool → Option Given → Answer
  claim_panics : Option Given → Answer
  no_lifecycle admission_read : Answer
  admission_panics : Option Given → Answer
  renew_answer release_answer : Reply → Answer
  command_answer : Bool → Reply → Answer
  slot_free claims_canceled timer_fired : Answer

unfoldable pub goto : Pc → State → State
goto pc s = record s { pc = pc }

-- `worker.release` is called for the task; `k` says what follows.
unfoldable pub release : ℕ → Fault → Resume → State → State
unfolding goto log_release
release n cause k s = goto (releasing n k) (log_release n cause s)

-- The slot is given back and the coordinator returns.
unfoldable pub give_up : State → State
unfolding goto free_slot
give_up s = goto returned (free_slot s)

-- The slot is given back and the loop begins again.
unfoldable pub next_round : State → State
unfolding goto free_slot
next_round s = goto selecting (free_slot s)

-- A failure while the claim context is live is fatal; after its cancellation only the failure of the
-- release is recorded.
unfoldable pub unless_canceled : Fault → Option Fault → State → State
unfolding report_fatal record_optional give_up
unless_canceled f rel s =
    if canceled s
    then record_optional rel (give_up s)
    else report_fatal (join_optional f rel) (give_up s)

-- The release has returned, with `rel`.
-- The account refused the task, and the claim context is live.
unfoldable pub refused : Fault → Option Fault → State → State
unfolding report_fatal give_up next_round
refused f none s = next_round s
refused f (some r) s = report_fatal (join f r) (give_up s)

unfoldable pub late_release : Option Fault → State → State
unfolding report_fatal record_optional
late_release none s = s
late_release (some r) s =
    let f = worded release_late_task r in
    if canceled s then record_optional (some f) s else report_fatal f s

unfoldable pub lost_lease : Fault → Option Fault → State → State
unfolding report_fatal
lost_lease f none s = s
lost_lease f (some r) s = report_fatal (join (worded renew_lease f) r) s

unfoldable pub resume : Resume → Option Fault → State → State
unfolding unless_canceled report_fatal give_up next_round is refused late_release lost_lease
resume (claim_failed f) rel s = unless_canceled (worded claim_task f) rel s
resume (malformed f) rel s = report_fatal (join_optional f rel) (give_up s)
resume (no_command f) rel s = report_fatal (join_optional f rel) (give_up s)
resume (unresolved f) rel s =
    if not (canceled s) && is (λ g. g.rejected) f
    then refused f rel s
    else unless_canceled (worded resolve_command f) rel s
resume (unrenewed f) rel s = lost_lease f rel (next_round s)
resume late rel s = give_up (late_release rel s)

-- `Claim` answered with a task: it has the next number.
unfoldable pub take_task : State → State
take_task s = record s { next = suc s.next; log = claimed s.next ∷ s.log }

unfoldable pub claim_returned : Bool → Option Given → State → State
unfolding take_task release unless_canceled give_up report_fatal goto free_slot
claim_returned task (some g) s =
    if g.empty
    then goto polling (free_slot s)
    else if task
    then release s.next (given g) (claim_failed (given g)) (take_task s)
    else unless_canceled (worded claim_task (given g)) none s
claim_returned false none s = report_fatal nil_task (give_up s)
claim_returned true none s =
    if canceled s
    then release s.next (claim_cause s) late (take_task s)
    else goto (admitting s.next) (take_task s)

unfoldable pub malformed_admission : ℕ → Fault → State → State
unfolding release
malformed_admission n f s = release n f (malformed f) s

unfoldable pub command_returned : ℕ → Bool → Option Fault → State → State
unfolding release goto
command_returned n command (some f) s = release n f (unresolved f) s
command_returned n false none s = release n nil_command (no_command nil_command) s
command_returned n true none s =
    if canceled s then release n (claim_cause s) late s else goto (renewing n) s

-- The lease is renewed: the execution begins, unless the tracker is stopped.
unfoldable pub renewed : ℕ → State → State
unfolding release goto add
renewed n s =
    let (t, started) = add s.tracker in
    if started
    then goto selecting (record s {
      tracker = t;
      executors = (n, executing) ∷ s.executors;
      log = executed n ∷ s.log;
    })
    else release n (claim_cause s) late s

unfoldable pub renew_returned : ℕ → Option Fault → State → State
unfolding release renewed
renew_returned n (some f) s = release n f (unrenewed f) s
renew_returned n none s = renewed n s

-- One step of the coordinator: the answer of the call in which it stands. Any other is no step.
unfoldable pub coordinate : Pc → Answer → State → State
unfolding goto report_fatal release resume claim_returned malformed_admission command_returned
    renew_returned
coordinate selecting slot_free s =
    if ltb s.held execution_capacity then goto claiming (record s { held = s.held + 1 }) else s
coordinate selecting claims_canceled s = if canceled s then goto returned s else s
coordinate claiming (claim_answer task o) s = claim_returned task o s
coordinate claiming (claim_panics o) s = report_fatal (panicked coordinator o) (goto returned s)
coordinate polling timer_fired s = goto selecting s
coordinate polling claims_canceled s = if canceled s then goto returned s else s
coordinate (admitting n) no_lifecycle s = malformed_admission n no_admission s
coordinate (admitting n) (admission_panics o) s =
    malformed_admission n (malformed_task (panicked task_admission o)) s
coordinate (admitting n) admission_read s = goto (resolving n) s
coordinate (resolving n) (command_answer command r) s =
    command_returned n command (safe command_resolver r) s
coordinate (renewing n) (renew_answer r) s = renew_returned n (safe task_renewal r) s
coordinate (releasing n k) (release_answer r) s = resume k (safe task_release r) s
coordinate pc a s = s
