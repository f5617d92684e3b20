-- ===== src/Worker/Run.antt =====
-- deliveryworker/worker.go: the executions, `Run` and its shutdown, and a whole run as a sequence of
-- steps of the coordinator, the executions, `Run` and the parent context.
use cresora.Prelude.{ℕ, Bool, true, false, Option, none, some, List, [], ◌∷◌, if◌then◌else◌}
use cresora.Prelude.Result.{Result, ok, err}
use cresora.Worker.Config.{Config, ConfigError, Field, validate}
use cresora.Worker.Faults.{
  Fault, given, worded, panicked, unexpected_stop, shutdown_timeout, is, join, join_optional, Reply,
  fine, failed, panics, safe, task_execution, task_release, execute_task, joined,
}
use cresora.Worker.Tracker.{is_closed, stop, done, done_one}
use cresora.Worker.State.{
  Ending, by_panic, by_error, Stage, executing, ending, leaving, giving_back, Pc, returned, settled,
  Channel, active_done, coordinator_done, Waiting, starting, looking, blocked, Main, running,
  draining, cleaning, finished, State, new_state, report_fatal, stop_claims, free_slot, log_release,
  stage_of, move, remove,
}
use cresora.Worker.Coordinator.{Answer, coordinate}

-- The execution of task `n` stands elsewhere.
unfoldable pub proceed : ℕ → Stage → State → State
unfolding move
proceed n st s = record s { executors = move n st s.executors }

-- `Execute` returned an error or panicked: the task is released.
unfoldable pub execution_failed : ℕ → Fault → Ending → State → State
unfolding proceed log_release
execution_failed n f e s = proceed n (giving_back e) (log_release n f s)

unfoldable pub executed_with : ℕ → Reply → State → State
unfolding proceed execution_failed
executed_with n fine s = proceed n ending (record s { log = settled n ∷ s.log })
executed_with n (failed g) s = execution_failed n (given g) (by_error (given g)) s
executed_with n (panics o) s =
    let f = panicked task_execution o in execution_failed n f (by_panic f) s

-- What is reported once that release has returned.
unfoldable pub execution_report : Ending → Option Fault → State → State
unfolding report_fatal is
execution_report (by_panic f) rel s = report_fatal (join_optional f rel) s
execution_report (by_error f) (some r) s = report_fatal (join (worded execute_task f) r) s
execution_report (by_error f) none s =
    if is (λ g. g.finalization) f then report_fatal (worded execute_task f) s else s

-- One step of the execution of task `n`: its call returns, then it gives its slot back, then it tells
-- the tracker.
unfoldable pub execute : ℕ → Option Stage → Reply → State → State
unfolding executed_with execution_report proceed free_slot remove done_one
execute n none r s = s
execute n (some executing) r s = executed_with n r s
execute n (some (giving_back e)) r s = proceed n ending (execution_report e (safe task_release r) s)
execute n (some ending) r s = proceed n leaving (free_slot s)
execute n (some leaving) r s = record s {
  executors = remove n s.executors;
  tracker = done_one s.tracker;
}

-- Whether a receive on the channel would return.
abbrev pub has_returned : Pc → Bool
has_returned returned = true
has_returned _ = false

abbrev pub ready : State → Channel → Bool
ready s (active_done ch) = is_closed s.tracker.channels ch
ready s coordinator_done = has_returned s.pc

unfoldable pub still_open : State → List Channel → List Channel
still_open s [] = []
still_open s (c ∷ cs) = let rest = still_open s cs in if ready s c then rest else c ∷ rest

-- One look of `waitForChannelsUntil`: whether the timer has fired, and whether the deadline is ahead.
-- The answer is `inr` of its result, once there is one.
unfoldable pub block_on : List Channel → Bool → Result Bool Waiting
block_on [] before = err before
block_on (c ∷ cs) before = ok (blocked (c ∷ cs))

unfoldable pub wait_for : State → Waiting → Bool → Bool → Result Bool Waiting
unfolding still_open block_on
wait_for s (starting cs) timer before = if before then ok (looking cs) else err false
wait_for s (looking []) timer before = err before
wait_for s (looking (c ∷ cs)) timer before =
    if timer then err false else block_on (still_open s (c ∷ cs)) before
wait_for s (blocked []) timer before = err before
wait_for s (blocked (c ∷ cs)) timer before =
    if timer then err false else if ready s c then ok (looking cs) else ok (blocked (c ∷ cs))

-- `Run` has seen why it stops: no claim and no execution begins any more.
unfoldable pub stop_for : Fault → State → State
unfolding stop_claims stop
stop_for f s =
    let stopped = record (stop_claims f s) { tracker = stop s.tracker } in
    record stopped {
      main = draining (done s.tracker) f (starting (active_done (done s.tracker) ∷ []));
    }

-- Which case of its `select` `Run` takes.
pub data Choice : Type 0 where
  parent_ended fatal_signal coordinator_ended : Choice

unfoldable pub stop_for_optional : Option Fault → State → State
unfolding stop_for
stop_for_optional none s = s
stop_for_optional (some f) s = stop_for f s

unfoldable pub stop_unexplained : Option Fault → Option Fault → State → State
unfolding stop_for report_fatal
stop_unexplained (some f) parent s = stop_for f s
stop_unexplained none (some p) s = stop_for p s
stop_unexplained none none s = stop_for unexpected_stop (report_fatal unexpected_stop s)

unfoldable pub select : Choice → State → State
unfolding stop_for_optional stop_unexplained
select parent_ended s = stop_for_optional s.parent s
select fatal_signal s =
    if s.failures.signalled then stop_for_optional s.failures.first_fatal s else s
select coordinator_ended s =
    if has_returned s.pc then stop_unexplained s.failures.first_fatal s.parent s else s

-- The drain is over: the executions are canceled, and the clean-up begins.
unfoldable pub begin_cleanup : ℕ → Fault → State → State
begin_cleanup ch f s = record s {
  forced = true;
  cleanup = true;
  main = cleaning ch f (starting (active_done ch ∷ coordinator_done ∷ []));
}

abbrev with_cause : Option Fault → Fault → Option Fault → Option Fault
with_cause none cause all = some (join_optional cause all)
with_cause (some _) cause all = all

abbrev pub with_timeout : Bool → Option Fault → Option Fault
with_timeout true f = f
with_timeout false none = some shutdown_timeout
with_timeout false (some f) = some (join f shutdown_timeout)

-- The error that `Run` returns.
unfoldable pub conclusion : Fault → Bool → State → Option Fault
unfolding joined
conclusion cause clean s =
    with_timeout clean (with_cause s.failures.first_fatal cause (joined s.failures))

unfoldable pub drain_waited : ℕ → Fault → Result Bool Waiting → State → State
unfolding begin_cleanup
drain_waited ch f (ok w) s = record s { main = draining ch f w }
drain_waited ch f (err b) s = begin_cleanup ch f s

unfoldable pub cleanup_waited : ℕ → Fault → Result Bool Waiting → State → State
unfolding conclusion
cleanup_waited ch f (ok w) s = record s { main = cleaning ch f w }
cleanup_waited ch f (err b) s = record s { main = finished (conclusion f b s) }

pub data Event : Type 0 where
  coordinator_step : Answer → Event
  execution_step : ℕ → Reply → Event
  parent_stops : Fault → Event
  choose : Choice → Event
  look : Bool → Bool → Event

unfoldable pub main_choice : Main → Choice → State → State
unfolding select
main_choice running c s = select c s
main_choice m c s = s

unfoldable pub main_look : Main → Bool → Bool → State → State
unfolding wait_for drain_waited cleanup_waited
main_look (draining ch f w) timer before s = drain_waited ch f (wait_for s w timer before) s
main_look (cleaning ch f w) timer before s = cleanup_waited ch f (wait_for s w timer before) s
main_look m timer before s = s

-- The parent context ends once, and the claim context with it.
unfoldable pub end_parent : Option Fault → Fault → State → State
unfolding stop_claims
end_parent (some p) f s = s
end_parent none f s = stop_claims f (record s { parent = some f })

unfoldable pub step : State → Event → State
unfolding coordinate execute end_parent main_choice main_look stage_of
step s (coordinator_step a) = coordinate s.pc a s
step s (execution_step n r) = execute n (stage_of n s.executors) r s
step s (parent_stops f) = end_parent s.parent f s
step s (choose c) = main_choice s.main c s
step s (look timer before) = main_look s.main timer before s

-- The events in order.
unfoldable pub run : State → List Event → State
unfolding step
run s [] = s
run s (e ∷ es) = run (step s e) es

-- `Run` up to the start of its goroutine: the configuration is checked, and the parent context.
pub data StartError : Type 0 where
  invalid_config : ConfigError → StartError
  parent_error : Fault → StartError

unfoldable pub start_with : Option ConfigError → Option Fault → Result StartError State
start_with (some e) parent = err (invalid_config e)
start_with none (some f) = err (parent_error f)
start_with none none = ok new_state

unfoldable pub start : List Field → Config → Option Fault → Result StartError State
unfolding validate start_with
start order c parent = start_with (validate order c) parent
