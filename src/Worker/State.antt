-- ===== src/Worker/State.antt =====
-- deliveryworker/worker.go: the variables that the coordinator, the executions and `Run` share, and
-- where each of them stands. A claimed task is known by its number in the order of the claims.
use cresora.Prelude.{
  ℕ, ◌-◌, Bool, false, not, Option, none, some, List, [], ◌∷◌, is_none, ◌==◌, if◌then◌else◌,
}
use cresora.Worker.Faults.{
  Fault, first_of, FailureState, new_failure_state, record_failure, fatal, claim_stopped,
}
use cresora.Worker.Tracker.{Tracker, new_active_tracker}

-- What the coordinator does once the release of a task has returned.
pub data Resume : Type 0 where
  claim_failed malformed unresolved unrenewed no_command : Fault → Resume
  late : Resume

-- The calls in which the coordinator can stand; the number is that of the task at hand.
pub data Pc : Type 0 where
  selecting claiming polling returned : Pc
  admitting resolving renewing : ℕ → Pc
  releasing : ℕ → Resume → Pc

-- How an execution failed.
pub data Ending : Type 0 where
  by_panic by_error : Fault → Ending

-- `ending`: the body has returned; `leaving`: the slot is free, and the tracker not yet told.
pub data Stage : Type 0 where
  executing ending leaving : Stage
  giving_back : Ending → Stage

abbrev pub Executors : Type 0
Executors = List (ℕ × Stage)

-- The calls made on tasks, the last one first: a task that was claimed, whose execution began, whose
-- execution returned with no error, or whose release began with a cause, under the clean-up context
-- of the shutdown or one of its own.
pub data Entry : Type 0 where
  claimed executed settled : ℕ → Entry
  released : ℕ → Fault → Bool → Entry

pub data Channel : Type 0 where
  active_done : ℕ → Channel
  coordinator_done : Channel

-- Where `waitForChannelsUntil` stands: before its first look at the clock, at the head of its loop,
-- or blocked on its first channel.
pub data Waiting : Type 0 where
  starting looking blocked : List Channel → Waiting

-- Where `Run` stands, with the channel of the active executions and the cause of the stop.
pub data Main : Type 0 where
  running : Main
  draining cleaning : ℕ → Fault → Waiting → Main
  finished : Option Fault → Main

-- `cause` is that of the canceled claim context, `parent` the error of the parent context; `forced`
-- says that the root of the executions is canceled, and `cleanup` that the shared context is set.
pub record State : Type 0 where
  pub pc : Pc
  pub held : ℕ
  pub executors : Executors
  pub tracker : Tracker
  pub cause : Option Fault
  pub parent : Option Fault
  pub forced : Bool
  pub cleanup : Bool
  pub failures : FailureState
  pub main : Main
  pub next : ℕ
  pub log : List Entry

abbrev pub new_state : State
new_state = record {
  pc = selecting;
  held = 0;
  executors = [];
  tracker = new_active_tracker;
  cause = none;
  parent = none;
  forced = false;
  cleanup = false;
  failures = new_failure_state;
  main = running;
  next = 0;
  log = [];
}

abbrev pub canceled : State → Bool
canceled s = not (is_none s.cause)

-- The first cause stays.
unfoldable pub stop_claims : Fault → State → State
stop_claims f s = record s { cause = first_of s.cause (some f) }

unfoldable pub report_fatal : Fault → State → State
unfolding stop_claims fatal
report_fatal f s = stop_claims f (record s { failures = fatal f s.failures })

unfoldable pub report_optional : Option Fault → State → State
unfolding report_fatal
report_optional none s = s
report_optional (some f) s = report_fatal f s

unfoldable pub record_optional : Option Fault → State → State
unfolding record_failure
record_optional none s = s
record_optional (some f) s = record s { failures = record_failure f s.failures }

abbrev pub claim_cause : State → Fault
claim_cause s = elim s.cause [ some f ↦ f | none ↦ claim_stopped ]

-- `<-slots`.
unfoldable pub free_slot : State → State
free_slot s = record s { held = s.held - 1 }

-- A call of `Release` begins.
unfoldable pub log_release : ℕ → Fault → State → State
log_release n f s = record s { log = released n f s.cleanup ∷ s.log }

-- The execution of task `n` stands elsewhere, or is gone.
unfoldable pub stage_of : ℕ → Executors → Option Stage
stage_of n [] = none
stage_of n ((m, st) ∷ es) = let rest = stage_of n es in if m == n then some st else rest

unfoldable pub move : ℕ → Stage → Executors → Executors
move n st [] = []
move n st ((m, old) ∷ es) =
    let rest = move n st es in if m == n then (m, st) ∷ es else (m, old) ∷ rest

unfoldable pub remove : ℕ → Executors → Executors
remove n [] = []
remove n ((m, st) ∷ es) = let rest = remove n es in if m == n then es else (m, st) ∷ rest
