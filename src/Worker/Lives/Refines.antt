-- ===== src/Worker/Lives/Refines.antt =====
-- deliveryworker/worker.go: in every run the calls made on a task follow its automaton.
use cresora.Prelude.{
  ℕ, ◌+◌, ◌≡◌, refl, Bool, Option, none, some, List, [], ◌∷◌, ◌==◌, if◌then◌else◌, arith,
}
use cresora.Worker.Faults.{given, panicked, task_execution, Reply, fine, failed, panics}
use cresora.Worker.State.{
  by_panic, by_error, Stage, executing, ending, leaving, giving_back, Executors, State, new_state,
  Main, running, draining, cleaning, stage_of, move, remove,
}
use cresora.Worker.Run.{
  executed_with, execute, main_choice, main_look, Choice, Event, coordinator_step, execution_step,
  parent_stops, choose, look, step, run,
}
use cresora.Worker.Lives.{life, Lives, tally, is_executing}
use cresora.Worker.Lives.Steps.{coordinate-Lives}

-- Moving an execution out of its call, or within what follows the call.
tally-move :
    (n m : ℕ) (old st : Stage) (es : Executors)
    → stage_of m es ≡ some old
    → tally n (move m st es) + (if m == n then (if is_executing old then 1 else 0) else 0)
      ≡ tally n es + (if m == n then (if is_executing st then 1 else 0) else 0)
unfolding stage_of move tally
tally-move n m old st [] h = cc
tally-move n m old st ((k, x) ∷ es) h = ground (arith, tally-move n m old st es)

tally-remove :
    (n m : ℕ) (es : Executors) → stage_of m es ≡ some leaving → tally n (remove m es) ≡ tally n es
unfolding stage_of remove tally
tally-remove n m [] h = cc
tally-remove n m ((k, x) ∷ es) h = ground (arith, tally-remove n m es)

module _ (n : ℕ) (s : State) (l : Lives n s) (m : ℕ) where
  executed_with-Lives :
      (r : Reply) → stage_of m s.executors ≡ some executing → Lives n (executed_with m r s)
  unfolding executed_with life
  executed_with-Lives fine h = ground (arith, tally-move n m executing ending s.executors h)
  executed_with-Lives (failed g) h =
      ground (arith, tally-move n m executing (giving_back (by_error (given g))) s.executors h)
  executed_with-Lives (panics o) h = ground (
    arith,
    tally-move n m executing (giving_back (by_panic (panicked task_execution o))) s.executors h,
  )

  execute-Lives :
      (o : Option Stage) (r : Reply) → stage_of m s.executors ≡ o → Lives n (execute m o r s)
  unfolding execute
  execute-Lives none r h = l
  execute-Lives (some executing) r h = executed_with-Lives r h
  execute-Lives (some (giving_back e)) r h =
      ground (arith, tally-move n m (giving_back e) ending s.executors h)
  execute-Lives (some ending) r h = ground (arith, tally-move n m ending leaving s.executors h)
  execute-Lives (some leaving) r h = ground (arith, tally-remove n m s.executors h)

main_choice-Lives :
    (n : ℕ) (s : State) (m : Main) (c : Choice) → Lives n s → Lives n (main_choice m c s)
unfolding main_choice
main_choice-Lives n s running c l = ground arith
main_choice-Lives n s m c l = l

main_look-Lives :
    (n : ℕ) (s : State) (m : Main) (timer before : Bool)
    → Lives n s
    → Lives n (main_look m timer before s)
unfolding main_look
main_look-Lives n s (draining ch f w) timer before l = ground arith
main_look-Lives n s (cleaning ch f w) timer before l = ground arith
main_look-Lives n s m timer before l = l

step-Lives : (n : ℕ) (s : State) (e : Event) → Lives n s → Lives n (step s e)
unfolding step
step-Lives n s (coordinator_step a) l = coordinate-Lives n s l s.pc a refl
step-Lives n s (execution_step m r) l = execute-Lives n s l m (stage_of m s.executors) r refl
step-Lives n s (parent_stops f) l = ground arith
step-Lives n s (choose c) l = main_choice-Lives n s s.main c l
step-Lives n s (look timer before) l = main_look-Lives n s s.main timer before l

run-Lives : (n : ℕ) (s : State) (es : List Event) → Lives n s → Lives n (run s es)
unfolding run
run-Lives n s [] l = l
run-Lives n s (e ∷ es) l = run-Lives n (step s e) es (step-Lives n s e l)

new_state-Lives : (n : ℕ) → Lives n new_state
unfolding life tally
new_state-Lives n = record { at_hand = refl; running = refl; sane = refl; numbered = ground arith }

-- In every run, the calls made on any claimed task follow the automaton: it is claimed once, and then
-- released once, or executed once and after that released once or settled. It is held where the
-- coordinator has it at hand, and in execution where one execution is in its call.
pub run_refines : (n : ℕ) (es : List Event) → Lives n (run new_state es)
run_refines n es = run-Lives n new_state es (new_state-Lives n)
