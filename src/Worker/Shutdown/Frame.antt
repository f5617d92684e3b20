-- ===== src/Worker/Shutdown/Frame.antt =====
-- deliveryworker/worker.go: what the coordinator and the executions leave alone once the tracker is
-- stopped.
use cresora.Prelude.{ℕ, ◌≡◌, refl, Bool, true, false, Option, none, some, [], ◌∷◌, arith}
use cresora.Worker.Faults.{
  Given, nil_command, Fault, Reply, fine, failed, panics, safe, task_release, no_admission,
}
use cresora.Worker.State.{
  Resume, claim_failed, malformed, unresolved, unrenewed, no_command, late, Ending, by_panic,
  by_error, Pc, selecting, claiming, polling, returned, admitting, resolving, renewing, releasing,
  Stage, executing, ending, leaving, giving_back, Executors, State, move, remove,
}
use cresora.Worker.Coordinator.{
  Answer, claim_answer, no_lifecycle, admission_panics, renew_answer, release_answer,
  command_answer, slot_free, claims_canceled, release, resume, claim_returned, malformed_admission,
  command_returned, renewed, renew_returned, coordinate, unless_canceled,
}
use cresora.Worker.Run.{executed_with, execution_report, execute, has_returned}
use cresora.Worker.Shutdown.{is_empty}

-- `Run` stands where it stood, no execution began, and the tracker is as it was.
abbrev pub Same : State → State → Type 0
Same s t = (t.main ≡ s.main) × (t.tracker ≡ s.tracker) × (t.executors ≡ s.executors)

-- `Run` stands where it stood, and a stopped tracker is as it was.
abbrev pub Framed : State → State → Type 0
Framed s t = (t.main ≡ s.main) × (s.tracker.stopped ≡ true → Same s t)

module _ (s : State) where
  unless_canceled-Same : (f : Fault) (rel : Option Fault) → Same s (unless_canceled f rel s)
  unfolding unless_canceled
  unless_canceled-Same f rel = ground arith

  resume-Same : (k : Resume) (rel : Option Fault) → Same s (resume k rel s)
  unfolding resume
  resume-Same (claim_failed f) rel = unless_canceled-Same _ rel
  resume-Same (malformed f) rel = ground arith
  resume-Same (no_command f) rel = ground arith
  resume-Same (unresolved f) rel = ground arith
  resume-Same (unrenewed f) rel = ground arith
  resume-Same late rel = ground arith

  release-Same : (m : ℕ) (f : Fault) (k : Resume) → Same s (release m f k s)
  unfolding release
  release-Same m f k = (refl, refl, refl)

  claim_returned-Same : (task : Bool) (o : Option Given) → Same s (claim_returned task o s)
  unfolding claim_returned
  claim_returned-Same task (some g) = ground arith
  claim_returned-Same false none = ground arith
  claim_returned-Same true none = ground arith

  command_returned-Same :
      (m : ℕ) (command : Bool) (o : Option Fault) → Same s (command_returned m command o s)
  unfolding command_returned
  command_returned-Same m command (some f) = release-Same m f (unresolved f)
  command_returned-Same m false none = release-Same m nil_command (no_command nil_command)
  command_returned-Same m true none = ground arith

  renewed_main : (m : ℕ) → (renewed m s).main ≡ s.main
  unfolding renewed
  renewed_main m = ground arith

  renew_returned-Same :
      (m : ℕ) (o : Option Fault) → s.tracker.stopped ≡ true → Same s (renew_returned m o s)
  unfolding renew_returned
  renew_returned-Same m (some f) h = release-Same m f (unrenewed f)
  renew_returned-Same m none h = ground arith

  renew_returned_main : (m : ℕ) (o : Option Fault) → (renew_returned m o s).main ≡ s.main
  unfolding renew_returned
  renew_returned_main m (some f) = refl
  renew_returned_main m none = renewed_main m

  always : (t : State) → Same s t → Framed s t
  always t same = (same.0, λ h. same)

  pub coordinate-Framed : (pc : Pc) (a : Answer) → Framed s (coordinate pc a s)
  unfolding coordinate
  coordinate-Framed selecting slot_free = always (coordinate selecting slot_free s) (ground arith)
  coordinate-Framed selecting claims_canceled =
      always (coordinate selecting claims_canceled s) (ground arith)
  coordinate-Framed claiming (claim_answer task o) =
      always (coordinate claiming (claim_answer task o) s) (claim_returned-Same task o)
  coordinate-Framed (admitting m) no_lifecycle =
      unfold malformed_admission in
      always (coordinate (admitting m) no_lifecycle s)
        (release-Same m no_admission (malformed no_admission))
  coordinate-Framed (resolving m) (command_answer command r) =
      always (coordinate (resolving m) (command_answer command r) s)
        (command_returned-Same m command _)
  coordinate-Framed (renewing m) (renew_answer r) =
      (renew_returned_main m _, renew_returned-Same m _)
  coordinate-Framed (releasing m k) (release_answer r) =
      always (coordinate (releasing m k) (release_answer r) s) (resume-Same k _)
  coordinate-Framed (admitting m) (admission_panics o) =
      unfold malformed_admission in
      always (coordinate (admitting m) (admission_panics o) s) (refl, refl, refl)
  coordinate-Framed polling claims_canceled =
      always (coordinate polling claims_canceled s) (ground arith)
  coordinate-Framed pc a = always (coordinate pc a s) (refl, refl, refl)

  -- A coordinator that has returned stays so.
  pub coordinate_returned :
      (pc : Pc) (a : Answer) → s.pc ≡ pc → has_returned pc ≡ true → coordinate pc a s ≡ s
  unfolding coordinate
  coordinate_returned returned a e h = refl
  coordinate_returned selecting a e h = cc
  coordinate_returned pc a e h = cc

-- The executions end one by one, and the channel of the tracker is the same.
pub record Fewer (s t : State) : Type 0 where
  pub main : t.main ≡ s.main
  pub stopped : t.tracker.stopped ≡ s.tracker.stopped
  pub channel : t.tracker.done_ch ≡ s.tracker.done_ch
  pub pc : t.pc ≡ s.pc
  pub none_new : is_empty s.executors ≡ true → is_empty t.executors ≡ true

is_empty-move :
    (m : ℕ) (st : Stage) (es : Executors) → is_empty es ≡ true → is_empty (move m st es) ≡ true
unfolding move
is_empty-move m st [] h = refl
is_empty-move m st (e ∷ es) h = cc

is_empty-remove : (m : ℕ) (es : Executors) → is_empty es ≡ true → is_empty (remove m es) ≡ true
unfolding remove
is_empty-remove m [] h = refl
is_empty-remove m (e ∷ es) h = cc

execution_report_keeps :
    (e : Ending) (rel : Option Fault) (s : State)
    → let t = execution_report e rel s in
      (t.main ≡ s.main) × (t.tracker ≡ s.tracker) × (t.pc ≡ s.pc) × (t.executors ≡ s.executors)
unfolding execution_report
execution_report_keeps (by_panic f) rel s = (refl, refl, refl, refl)
execution_report_keeps (by_error f) (some r) s = (refl, refl, refl, refl)
execution_report_keeps (by_error f) none s = ground arith

module _ (s : State) (m : ℕ) where
  executed_with-Fewer : (r : Reply) → Fewer s (executed_with m r s)
  unfolding executed_with
  executed_with-Fewer fine = record {
    main = refl;
    stopped = refl;
    channel = refl;
    pc = refl;
    none_new = is_empty-move m ending s.executors;
  }
  executed_with-Fewer (failed g) = record {
    main = refl;
    stopped = refl;
    channel = refl;
    pc = refl;
    none_new = is_empty-move m _ s.executors;
  }
  executed_with-Fewer (panics o) = record {
    main = refl;
    stopped = refl;
    channel = refl;
    pc = refl;
    none_new = is_empty-move m _ s.executors;
  }

  pub execute-Fewer : (o : Option Stage) (r : Reply) → Fewer s (execute m o r s)
  unfolding execute
  execute-Fewer none r = record {
    main = refl;
    stopped = refl;
    channel = refl;
    pc = refl;
    none_new = λ h. h;
  }
  execute-Fewer (some executing) r = executed_with-Fewer r
  execute-Fewer (some (giving_back e)) r =
      ground (
        arith,
        execution_report_keeps e (safe task_release r) s,
        is_empty-move m ending s.executors,
      )
  execute-Fewer (some ending) r = record {
    main = refl;
    stopped = refl;
    channel = refl;
    pc = refl;
    none_new = is_empty-move m leaving s.executors;
  }
  execute-Fewer (some leaving) r = ground (arith, is_empty-remove m s.executors)
