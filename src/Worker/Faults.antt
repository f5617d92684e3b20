-- ===== src/Worker/Faults.antt =====
-- deliveryworker/worker.go: the errors of a run, and the failures that it collects.
use cresora.Prelude.{ℕ, Bool, true, false, ◌||◌, Option, none, some, List, [], ◌∷◌, ◌++◌}

-- An error of a port: what `errors.Is` finds in it of the application's errors.
pub record Given : Type 0 where
  pub name : ℕ
  pub empty : Bool
  pub rejected : Bool
  pub finalization : Bool

pub data Site : Type 0 where
  coordinator task_execution task_renewal task_admission command_resolver task_release : Site

pub data Wording : Type 0 where
  claim_task resolve_command renew_lease execute_task release_late_task : Wording

-- `worded` is `fmt.Errorf` with `%w`; a panic wraps the value that was recovered if it is an error;
-- `join` is `errors.Join` of two errors that are not nil.
pub data Fault : Type 0 where
  given : Given → Fault
  worded : Wording → Fault → Fault
  panicked : Site → Option Given → Fault
  no_admission nil_task nil_command claim_stopped unexpected_stop shutdown_timeout : Fault
  malformed_task : Fault → Fault
  join : Fault → Fault → Fault

abbrev holds_given : (Given → Bool) → Option Given → Bool
holds_given p none = false
holds_given p (some g) = p g

-- `errors.Is`, against one of the application's errors.
unfoldable pub is : (Given → Bool) → Fault → Bool
is p (given g) = p g
is p (worded w f) = is p f
is p (panicked s o) = holds_given p o
is p (malformed_task f) = is p f
is p (join f g) = is p f || is p g
is p no_admission = false
is p nil_task = false
is p nil_command = false
is p claim_stopped = false
is p unexpected_stop = false
is p shutdown_timeout = false

-- `errors.Join` of an error and one that may be nil.
abbrev pub join_optional : Fault → Option Fault → Fault
join_optional f none = f
join_optional f (some g) = join f g

abbrev pub first_of : Option Fault → Option Fault → Option Fault
first_of none o = o
first_of (some f) o = some f

-- What a port answers: no error, an error, or a panic with an error or some other value.
pub data Reply : Type 0 where
  fine : Reply
  failed : Given → Reply
  panics : Option Given → Reply

-- A call under `recover`.
abbrev pub safe : Site → Reply → Option Fault
safe site fine = none
safe site (failed g) = some (given g)
safe site (panics o) = some (panicked site o)

pub record FailureState : Type 0 where
  pub failures : List Fault
  pub first_fatal : Option Fault
  pub signalled : Bool

abbrev pub new_failure_state : FailureState
new_failure_state = record { failures = []; first_fatal = none; signalled = false }

unfoldable pub record_failure : Fault → FailureState → FailureState
record_failure f fs = record fs { failures = fs.failures ++ (f ∷ []) }

unfoldable pub fatal : Fault → FailureState → FailureState
fatal f fs = record {
  failures = fs.failures ++ (f ∷ []);
  first_fatal = first_of fs.first_fatal (some f);
  signalled = true;
}

unfoldable pub join_all : List Fault → Option Fault
join_all [] = none
join_all (f ∷ fs) = some (join_optional f (join_all fs))

unfoldable pub joined : FailureState → Option Fault
unfolding join_all
joined fs = join_all fs.failures
