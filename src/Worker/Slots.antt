-- ===== src/Worker/Slots.antt =====
-- deliveryworker/worker.go: the four slots, and the tracker of the active executions.
use cresora.Prelude.{
  ℕ, suc, ◌+◌, ◌≤◌, ◌≡◌, refl, ap, Bool, true, false, Option, none, some, List, [], ◌∷◌,
  if◌then◌else◌, arith, length,
}
use cresora.Worker.Faults.{
  Given, nil_command, Fault, Reply, fine, failed, panics, safe, panicked, task_release,
  task_admission, no_admission, malformed_task,
}
use cresora.Worker.Tracker.{
  Tracks, add-Tracks, done_one-Tracks, stop-Tracks, new_active_tracker-Tracks,
}
use cresora.Worker.State.{
  Resume, claim_failed, malformed, unresolved, unrenewed, no_command, late, Ending, by_panic,
  by_error, Pc, selecting, claiming, polling, returned, admitting, resolving, renewing, releasing,
  Stage, executing, ending, leaving, giving_back, Executors, State, new_state, Main, running,
  draining, cleaning, stage_of, move, remove,
}
use cresora.Worker.Coordinator.{
  Answer, claim_answer, claim_panics, no_lifecycle, admission_read, admission_panics, renew_answer,
  release_answer, command_answer, slot_free, claims_canceled, timer_fired, release, resume,
  claim_returned, malformed_admission, command_returned, renewed, renew_returned, coordinate,
  unless_canceled, execution_capacity,
}
use cresora.Worker.Run.{
  execution_report, execute, main_choice, main_look, Choice, Event, coordinator_step,
  execution_step, parent_stops, choose, look, step, run,
}

abbrev pub is_leaving : Stage → Bool
is_leaving leaving = true
is_leaving _ = false

-- The executions that have not given their slot back.
unfoldable pub busy : Executors → ℕ
busy [] = 0
busy ((n, st) ∷ es) = let rest = busy es in if is_leaving st then rest else suc rest

-- Whether the coordinator has a slot of its own.
abbrev pub own_slot : Pc → ℕ
own_slot selecting = 0
own_slot polling = 0
own_slot returned = 0
own_slot _ = 1

-- Every execution and the coordinator have the slots that they use, and there are no more than the
-- capacity; the tracker counts the executions that have not left.
pub record Slots (s : State) : Type 0 where
  pub used : busy s.executors + own_slot s.pc ≤ s.held
  pub within : s.held ≤ execution_capacity
  pub tracked : Tracks (length s.executors) s.tracker

abbrev SameSlots : State → State → Type 0
SameSlots s t =
    (own_slot t.pc + s.held ≤ own_slot s.pc + t.held)
    × (t.held ≤ s.held)
    × (t.executors ≡ s.executors)
    × (t.tracker ≡ s.tracker)

SameSlots-Slots : (s t : State) → SameSlots s t → Slots s → Slots t
SameSlots-Slots s t e l = record {
  used = rw (e.2) (omega (arith, e.0, l.used));
  within = omega (arith, e.1, l.within);
  tracked = rw (e.2, e.3) l.tracked;
}

module _ (s : State) (h : own_slot s.pc ≡ 1) where
  unless_canceled_slots : (f : Fault) (rel : Option Fault) → SameSlots s (unless_canceled f rel s)
  unfolding unless_canceled
  unless_canceled_slots f rel = ground arith

  resume_slots : (k : Resume) (rel : Option Fault) → SameSlots s (resume k rel s)
  unfolding resume
  resume_slots (claim_failed f) rel = unless_canceled_slots _ rel
  resume_slots (malformed f) rel = ground arith
  resume_slots (no_command f) rel = ground arith
  resume_slots (unresolved f) rel = ground arith
  resume_slots (unrenewed f) rel = ground arith
  resume_slots late rel = ground arith

  release_slots : (m : ℕ) (f : Fault) (k : Resume) → SameSlots s (release m f k s)
  unfolding release
  release_slots m f k = ground arith

  claim_returned_slots : (task : Bool) (o : Option Given) → SameSlots s (claim_returned task o s)
  unfolding claim_returned
  claim_returned_slots task (some g) = ground arith
  claim_returned_slots false none = ground arith
  claim_returned_slots true none = ground arith

  command_returned_slots :
      (m : ℕ) (command : Bool) (o : Option Fault) → SameSlots s (command_returned m command o s)
  unfolding command_returned
  command_returned_slots m command (some f) = release_slots m f (unresolved f)
  command_returned_slots m false none = release_slots m nil_command (no_command nil_command)
  command_returned_slots m true none = ground arith

  malformed_admission_slots : (m : ℕ) (f : Fault) → SameSlots s (malformed_admission m f s)
  unfolding malformed_admission
  malformed_admission_slots m f = release_slots m f (malformed f)

  renewed-Slots : (m : ℕ) → Slots s → Slots (renewed m s)
  unfolding renewed busy
  renewed-Slots m l = ground (arith, add-Tracks (length s.executors) s.tracker l.tracked)

  renew_returned-Slots : (m : ℕ) (o : Option Fault) → Slots s → Slots (renew_returned m o s)
  unfolding renew_returned
  renew_returned-Slots m (some f) l = SameSlots-Slots s _ (release_slots m f (unrenewed f)) l
  renew_returned-Slots m none l = renewed-Slots m l

coordinate-Slots :
    (s : State) (pc : Pc) (a : Answer) → s.pc ≡ pc → Slots s → Slots (coordinate pc a s)
unfolding coordinate
coordinate-Slots s selecting slot_free e l = ground arith
coordinate-Slots s selecting claims_canceled e l = ground arith
coordinate-Slots s claiming (claim_answer task o) e l =
    SameSlots-Slots s _ (claim_returned_slots s (rw e) task o) l
coordinate-Slots s claiming (claim_panics o) e l = ground arith
coordinate-Slots s polling timer_fired e l = ground arith
coordinate-Slots s polling claims_canceled e l = ground arith
coordinate-Slots s (admitting m) no_lifecycle e l =
    SameSlots-Slots s _ (malformed_admission_slots s (rw e) m no_admission) l
coordinate-Slots s (admitting m) (admission_panics o) e l =
    SameSlots-Slots s _
      (malformed_admission_slots s (rw e) m (malformed_task (panicked task_admission o))) l
coordinate-Slots s (admitting m) admission_read e l = ground arith
coordinate-Slots s (resolving m) (command_answer command r) e l =
    SameSlots-Slots s _ (command_returned_slots s (rw e) m command _) l
coordinate-Slots s (renewing m) (renew_answer r) e l = renew_returned-Slots s (rw e) m _ l
coordinate-Slots s (releasing m k) (release_answer r) e l =
    SameSlots-Slots s _ (resume_slots s (rw e) k _) l
coordinate-Slots s pc a e l = l

busy-move :
    (m : ℕ) (old st : Stage) (es : Executors)
    → stage_of m es ≡ some old
    → busy (move m st es) + (if is_leaving old then 0 else 1)
      ≡ busy es + (if is_leaving st then 0 else 1)
unfolding stage_of move busy
busy-move m old st [] h = cc
busy-move m old st ((k, x) ∷ es) h = ground (arith, busy-move m old st es)

busy-remove : (m : ℕ) (es : Executors) → stage_of m es ≡ some leaving → busy (remove m es) ≡ busy es
unfolding stage_of remove busy
busy-remove m [] h = cc
busy-remove m ((k, x) ∷ es) h = ground (arith, busy-remove m es)

length-move : (m : ℕ) (st : Stage) (es : Executors) → length (move m st es) ≡ length es
unfolding move
length-move m st [] = refl
length-move m st ((k, x) ∷ es) = ground (arith, length-move m st es)

length-remove :
    (m : ℕ) (st : Stage) (es : Executors)
    → stage_of m es ≡ some st
    → suc (length (remove m es)) ≡ length es
unfolding stage_of remove
length-remove m st [] h = cc
length-remove m st ((k, x) ∷ es) h = ground (arith, length-remove m st es)

-- What a report leaves alone.
abbrev SameTasks : State → State → Type 0
SameTasks s t =
    (t.executors ≡ s.executors) × (t.tracker ≡ s.tracker) × (t.pc ≡ s.pc) × (t.held ≡ s.held)

execution_report_tasks :
    (e : Ending) (rel : Option Fault) (s : State) → SameTasks s (execution_report e rel s)
unfolding execution_report
execution_report_tasks (by_panic f) rel s = (refl, refl, refl, refl)
execution_report_tasks (by_error f) (some r) s = (refl, refl, refl, refl)
execution_report_tasks (by_error f) none s = ground arith

module _ (s : State) (l : Slots s) (m : ℕ) where
  moved-Slots :
      (old st : Stage) (t : State)
      → stage_of m s.executors ≡ some old
      → t.executors ≡ move m st s.executors
      → t.tracker ≡ s.tracker
      → t.pc ≡ s.pc
      → t.held ≡ s.held
      → is_leaving old ≡ is_leaving st
      → Slots t
  moved-Slots old st t h e k p q r = record {
    used = ground (arith, busy-move m old st s.executors h, l.used);
    within = rw q l.within;
    tracked = rw (e, k, length-move m st s.executors) l.tracked;
  }

  execute-Slots :
      (o : Option Stage) (r : Reply) → stage_of m s.executors ≡ o → Slots (execute m o r s)
  unfolding execute
  execute-Slots none r h = l
  execute-Slots (some executing) fine h = moved-Slots executing ending _ h refl refl refl refl refl
  execute-Slots (some executing) (failed g) h = moved-Slots executing _ _ h refl refl refl refl refl
  execute-Slots (some executing) (panics o) h = moved-Slots executing _ _ h refl refl refl refl refl
  execute-Slots (some (giving_back e)) r h =
      let same = execution_report_tasks e (safe task_release r) s in
      moved-Slots (giving_back e) ending _ h (ap (move m ending) same.0) same.1 same.2 same.3 refl
  execute-Slots (some ending) r h = record {
    used = ground (arith, busy-move m ending leaving s.executors h, l.used);
    within = omega (arith, l.within);
    tracked = rw (length-move m leaving s.executors) l.tracked;
  }
  execute-Slots (some leaving) r h = record {
    used = rw (busy-remove m s.executors h) l.used;
    within = l.within;
    tracked = done_one-Tracks _ s.tracker (rw (length-remove m leaving s.executors h) l.tracked);
  }

main_choice-Slots : (s : State) (m : Main) (c : Choice) → Slots s → Slots (main_choice m c s)
unfolding main_choice
main_choice-Slots s running c l =
    ground (arith, l.used, l.within, stop-Tracks (length s.executors) s.tracker l.tracked)
main_choice-Slots s m c l = l

main_look-Slots :
    (s : State) (m : Main) (timer before : Bool) → Slots s → Slots (main_look m timer before s)
unfolding main_look
main_look-Slots s (draining ch f w) timer before l = ground arith
main_look-Slots s (cleaning ch f w) timer before l = ground arith
main_look-Slots s m timer before l = l

pub step-Slots : (s : State) (e : Event) → Slots s → Slots (step s e)
unfolding step
step-Slots s (coordinator_step a) l = coordinate-Slots s s.pc a refl l
step-Slots s (execution_step m r) l = execute-Slots s l m (stage_of m s.executors) r refl
step-Slots s (parent_stops f) l = ground arith
step-Slots s (choose c) l = main_choice-Slots s s.main c l
step-Slots s (look timer before) l = main_look-Slots s s.main timer before l

run-Slots_from : (s : State) (es : List Event) → Slots s → Slots (run s es)
unfolding run
run-Slots_from s [] l = l
run-Slots_from s (e ∷ es) l = run-Slots_from (step s e) es (step-Slots s e l)

pub new_state-Slots : Slots new_state
unfolding busy
new_state-Slots = record {
  used = omega arith;
  within = omega arith;
  tracked = new_active_tracker-Tracks;
}

-- In every run the executions that have not given their slot back, with the task that the coordinator
-- has a slot for, are at most four; the tracker counts the executions that have not left, its channel
-- is closed exactly when there are none, and no closed channel is closed again.
pub run-Slots : (es : List Event) → Slots (run new_state es)
run-Slots es = run-Slots_from new_state es new_state-Slots
