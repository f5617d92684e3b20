-- ===== src/Worker/Shutdown/Quiet.antt =====
-- deliveryworker/worker.go: once `Run` has returned without a timeout nothing of it is running, and no
-- claimed task is left over.
use cresora.Prelude.{
  leb, ℕ, ◌<◌, ◌≡◌, refl, sym, subst, ◌∙◌, is_zero, pos, Bool, true, false, ◌||◌, ◌&&◌, Option,
  none, some, List, [], ◌∷◌, if◌then◌else◌, arith, inl, inr, ap, length, ◌⊎◌,
}
use cresora.Prelude.Result.{Result, ok, err}
use cresora.Worker.Faults.{Fault, Reply, unexpected_stop}
use cresora.Worker.State.{
  stage_of, Stage, selecting, returned, Pc, Executors, State, new_state, active_done,
  coordinator_done, Waiting, Main, running, draining, cleaning, finished, report_fatal,
}
use cresora.Worker.Coordinator.{Answer, coordinate}
use cresora.Worker.Run.{
  has_returned, ready, wait_for, with_timeout, conclusion, drain_waited, cleanup_waited,
  main_choice, main_look, Choice, stop_for, stop_for_optional, stop_unexplained, end_parent, select,
  parent_ended, fatal_signal, coordinator_ended, Event, coordinator_step, execution_step,
  parent_stops, choose, look, step, run, execute,
}
use cresora.Worker.Slots.{Slots, new_state-Slots, step-Slots}
use cresora.Worker.Lives.{
  is_held, is_running, is_broken, is_unclaimed, holds, Life, life, done, given_back, tally,
}
use cresora.Worker.Lives.Refines.{run_refines}
use cresora.Worker.Shutdown.{
  is_empty, channels_of, Waited, wait_for-Waited, is_shutdown_timeout, timed_out, awaits,
}
use cresora.Worker.Shutdown.Frame.{coordinate-Framed, coordinate_returned, execute-Fewer}

-- Nothing is stopped while `Run` runs; then the tracker is, and its last channel is waited for; once
-- `Run` has returned all has ended, or the error says that it has not.
abbrev Shut : Main → State → Type 0
Shut running s = Unit
Shut (draining ch f w) s = (s.tracker.stopped ≡ true) × (s.tracker.done_ch ≡ ch)
Shut (cleaning ch f w) s =
    (s.tracker.stopped ≡ true)
    × (s.tracker.done_ch ≡ ch)
    × ((awaits (active_done ch) (channels_of w) || is_empty s.executors) ≡ true)
    × ((awaits coordinator_done (channels_of w) || has_returned s.pc) ≡ true)
Shut (finished o) s =
    (s.tracker.stopped ≡ true)
    × ((timed_out o || (is_empty s.executors && has_returned s.pc)) ≡ true)

-- Whoever else takes a step, what has ended stays ended.
record Stays (s t : State) : Type 0 where
  stopped : t.tracker.stopped ≡ s.tracker.stopped
  channel : t.tracker.done_ch ≡ s.tracker.done_ch
  empty : is_empty s.executors ≡ true → is_empty t.executors ≡ true
  returned : has_returned s.pc ≡ true → has_returned t.pc ≡ true

Stays-Shut : (m : Main) (s t : State) → Stays s t → Shut m s → Shut m t
Stays-Shut running s t y h = tt
Stays-Shut (draining ch f w) s t y h = ground arith
Stays-Shut (cleaning ch f w) s t y h = ground arith
Stays-Shut (finished o) s t y h = ground arith

Shut-stopped : (m : Main) (s : State) → Shut m s → (m ≡ running) ⊎ (s.tracker.stopped ≡ true)
Shut-stopped running s h = inl refl
Shut-stopped (draining ch f w) s h = inr h.0
Shut-stopped (cleaning ch f w) s h = inr h.0
Shut-stopped (finished o) s h = inr h.0

coordinate-Stays :
    (s : State) (a : Answer) → s.tracker.stopped ≡ true → Stays s (coordinate s.pc a s)
coordinate-Stays s a h =
    let same = (coordinate-Framed s s.pc a).1 h in
    record {
      stopped = ap (λ t. t.stopped) same.1;
      channel = ap (λ t. t.done_ch) same.1;
      empty = λ e. rw same.2 e;
      returned = λ e. rw (coordinate_returned s s.pc a refl e) e;
    }

coordinate-Shut :
    (s : State) (a : Answer) → Shut s.main s → Shut (coordinate s.pc a s).main (coordinate s.pc a s)
coordinate-Shut s a h =
    let t = coordinate s.pc a s in
    subst (λ m. Shut m t) (sym (coordinate-Framed s s.pc a).0)
      (elim (Shut-stopped s.main s h) [
        | inl e ↦ subst (λ m. Shut m t) (sym e) tt
        | inr e ↦ Stays-Shut s.main s t (coordinate-Stays s a e) h
      ])

execute-Shut :
    (s : State) (m : ℕ) (o : Option Stage) (r : Reply)
    → Shut s.main s
    → Shut (execute m o r s).main (execute m o r s)
execute-Shut s m o r h =
    let f = execute-Fewer s m o r in
    subst (λ k. Shut k (execute m o r s)) (sym f.main)
      (Stays-Shut s.main s _
        (record {
          stopped = f.stopped;
          channel = f.channel;
          empty = f.none_new;
          returned = λ e. rw (f.pc) e;
        })
        h)

length_empty : (es : Executors) → is_zero (pos (length es)) ≡ is_empty es
length_empty [] = refl
length_empty (e ∷ es) = ground arith

-- The channel of the tracker is ready exactly when no execution is left.
ready_empty :
    (s : State) (ch : ℕ)
    → Slots s
    → s.tracker.done_ch ≡ ch
    → ready s (active_done ch) ≡ is_empty s.executors
ready_empty s ch l e = rw (← e) (l.tracked.closed ∙ length_empty s.executors)

with_timeout_lem : (o : Option Fault) → timed_out (with_timeout false o) ≡ true
unfolding is_shutdown_timeout
with_timeout_lem none = refl
with_timeout_lem (some f) = ground arith

conclusion_times_out : (f : Fault) (s : State) → timed_out (conclusion f false s) ≡ true
unfolding conclusion
conclusion_times_out f s = with_timeout_lem _

module _ (s : State) (l : Slots s) (ch : ℕ) (f : Fault) where
  drain_waited-Shut :
      (r : Result Bool Waiting)
      → (s.tracker.stopped ≡ true) × (s.tracker.done_ch ≡ ch)
      → Shut (drain_waited ch f r s).main (drain_waited ch f r s)
  unfolding drain_waited awaits
  drain_waited-Shut (ok w) h = h
  drain_waited-Shut (err b) h = ground arith

  cleanup_waited-Shut :
      (r : Result Bool Waiting)
      → s.tracker.stopped ≡ true
      → s.tracker.done_ch ≡ ch
      → Waited s (active_done ch) r
      → Waited s coordinator_done r
      → Shut (cleanup_waited ch f r s).main (cleanup_waited ch f r s)
  unfolding cleanup_waited
  cleanup_waited-Shut (ok w) h e a c = ground (arith, ready_empty s ch l e)
  cleanup_waited-Shut (err true) h e a c = ground (arith, ready_empty s ch l e)
  cleanup_waited-Shut (err false) h e a c = ground (arith, conclusion_times_out f s)

module _ (s : State) (l : Slots s) where
  main_look-Shut :
      (m : Main) (timer before : Bool)
      → Shut m s
      → s.main ≡ m
      → Shut (main_look m timer before s).main (main_look m timer before s)
  unfolding main_look
  main_look-Shut running timer before h e = subst (λ k. Shut k s) (sym e) tt
  main_look-Shut (finished o) timer before h e = subst (λ k. Shut k s) (sym e) h
  main_look-Shut (draining c g w) timer before h e =
      drain_waited-Shut s l c g (wait_for s w timer before) h
  main_look-Shut (cleaning c g w) timer before h e =
      cleanup_waited-Shut s l c g (wait_for s w timer before) h.0 h.1
        (wait_for-Waited s (active_done c) w timer before (rw (ready_empty s c l h.1) h.2))
        (wait_for-Waited s coordinator_done w timer before h.3)

stop_for-Shut : (f : Fault) (s : State) → Shut (stop_for f s).main (stop_for f s)
unfolding stop_for
stop_for-Shut f s = (refl, refl)

stop_for_optional-Shut :
    (o : Option Fault) (s : State)
    → Shut s.main s
    → Shut (stop_for_optional o s).main (stop_for_optional o s)
unfolding stop_for_optional
stop_for_optional-Shut none s h = h
stop_for_optional-Shut (some f) s h = stop_for-Shut f s

stop_unexplained-Shut :
    (o p : Option Fault) (s : State) → Shut (stop_unexplained o p s).main (stop_unexplained o p s)
unfolding stop_unexplained
stop_unexplained-Shut (some f) p s = stop_for-Shut f s
stop_unexplained-Shut none (some p) s = stop_for-Shut p s
stop_unexplained-Shut none none s = stop_for-Shut unexpected_stop (report_fatal unexpected_stop s)

if-Shut :
    (b : Bool) (t s : State)
    → Shut t.main t
    → Shut s.main s
    → let u = if b then t else s in Shut u.main u
if-Shut true t s h k = h
if-Shut false t s h k = k

select-Shut : (c : Choice) (s : State) → Shut s.main s → Shut (select c s).main (select c s)
unfolding select
select-Shut parent_ended s h = stop_for_optional-Shut s.parent s h
select-Shut fatal_signal s h =
    if-Shut s.failures.signalled _ s (stop_for_optional-Shut s.failures.first_fatal s h) h
select-Shut coordinator_ended s h =
    if-Shut (has_returned s.pc) _ s (stop_unexplained-Shut s.failures.first_fatal s.parent s) h

main_choice-Shut :
    (m : Main) (c : Choice) (s : State)
    → Shut s.main s
    → Shut (main_choice m c s).main (main_choice m c s)
unfolding main_choice
main_choice-Shut running c s h = select-Shut c s h
main_choice-Shut (draining ch f w) c s h = h
main_choice-Shut m c s h = h

end_parent-Shut :
    (p : Option Fault) (f : Fault) (s : State)
    → Shut s.main s
    → Shut (end_parent p f s).main (end_parent p f s)
unfolding end_parent
end_parent-Shut (some p) f s h = h
end_parent-Shut none f s h =
    Stays-Shut s.main s _
      (record { stopped = refl; channel = refl; empty = λ e. e; returned = λ e. e }) h

step-Shut : (s : State) (e : Event) → Slots s → Shut s.main s → Shut (step s e).main (step s e)
unfolding step
step-Shut s (coordinator_step a) l h = coordinate-Shut s a h
step-Shut s (execution_step m r) l h = execute-Shut s m (stage_of m s.executors) r h
step-Shut s (parent_stops f) l h = end_parent-Shut s.parent f s h
step-Shut s (choose c) l h = main_choice-Shut s.main c s h
step-Shut s (look timer before) l h = main_look-Shut s l s.main timer before h refl

run-Shut_from :
    (s : State) (es : List Event) → Slots s → Shut s.main s → Shut (run s es).main (run s es)
unfolding run
run-Shut_from s [] l h = h
run-Shut_from s (e ∷ es) l h = run-Shut_from (step s e) es (step-Slots s e l) (step-Shut s e l h)

tally_of_empty : (n : ℕ) (es : Executors) → is_empty es ≡ true → tally n es ≡ 0
unfolding tally
tally_of_empty n [] h = refl
tally_of_empty n (e ∷ es) h = cc

holds_returned : (pc : Pc) (n : ℕ) → has_returned pc ≡ true → holds pc n ≡ false
holds_returned returned n h = refl
holds_returned selecting n h = cc
holds_returned pc n h = cc

abbrev running_count : Life → ℕ
running_count l = if is_running l then 1 else 0

ended_life :
    (n next : ℕ) (l : Life)
    → is_held l ≡ false
    → running_count l ≡ 0
    → is_broken l ≡ false
    → is_unclaimed l ≡ leb next n
    → n < next
    → (l ≡ done) ⊎ (l ≡ given_back)
ended_life n next l h r b u lt = ground arith

ended_flags :
    (late empty ended : Bool)
    → late ≡ false
    → (late || (empty && ended)) ≡ true
    → (empty ≡ true) × (ended ≡ true)
ended_flags late empty ended h k = ground arith

-- If, after any events, `Run` has returned an error that is not a timeout of its shutdown, then the
-- coordinator has returned, no execution is left, and the task with any number below that of the next
-- claim has either been executed to the end with no error, or been released.
pub run_finishes :
    (es : List Event) (o : Option Fault) (n : ℕ)
    → (run new_state es).main ≡ finished o
    → timed_out o ≡ false
    → n < (run new_state es).next
    → (has_returned (run new_state es).pc ≡ true)
      × (is_empty (run new_state es).executors ≡ true)
      × ((life n (run new_state es).log ≡ done) ⊎ (life n (run new_state es).log ≡ given_back))
run_finishes es o n h t lt =
    let s = run new_state es in
    let shut = subst (λ m. Shut m s) h (run-Shut_from new_state es new_state-Slots tt) in
    let quiet = ended_flags (timed_out o) _ _ t shut.1 in
    let lives = run_refines n es in
    (
      quiet.1,
      quiet.0,
      ended_life n s.next (life n s.log) (sym lives.at_hand ∙ holds_returned s.pc n quiet.1)
          (sym lives.running ∙ tally_of_empty n s.executors quiet.0) lives.sane lives.numbered lt,
    )
