-- ===== src/Worker/Lives.antt =====
-- deliveryworker/worker.go: the life of one claimed task, as an automaton over the calls made on it.
pub mod Steps
pub mod Refines
use cresora.Prelude.{
  ℕ, zero, suc, ◌+◌, ◌≤◌, ◌≡◌, refl, Bool, true, false, Option, none, some, List, [], ◌∷◌, ◌==◌,
  leb, if◌then◌else◌, arith,
}
use cresora.Worker.State.{
  Pc, selecting, claiming, polling, returned, admitting, resolving, renewing, releasing, Stage,
  executing, ending, leaving, giving_back, Executors, Entry, claimed, executed, settled, released,
  State,
}

-- A task is claimed; it is released, or executed; and an executed one settles, or is released. Any
-- other order is `broken`.
pub data Life : Type 0 where
  unclaimed held in_execution done given_back broken : Life

unfoldable pub advance : Entry → Life → Life
advance (claimed n) unclaimed = held
advance (executed n) held = in_execution
advance (settled n) in_execution = done
advance (released n f shared) held = given_back
advance (released n f shared) in_execution = given_back
advance e l = broken

abbrev pub task_of : Entry → ℕ
task_of (claimed n) = n
task_of (executed n) = n
task_of (settled n) = n
task_of (released n f shared) = n

-- The life of task `n` after the calls of a log, the last one first.
unfoldable pub life : ℕ → List Entry → Life
unfolding advance
life n [] = unclaimed
life n (e ∷ log) = let old = life n log in if task_of e == n then advance e old else old

abbrev pub is_held : Life → Bool
is_held held = true
is_held _ = false

abbrev pub is_running : Life → Bool
is_running in_execution = true
is_running _ = false

abbrev pub is_unclaimed : Life → Bool
is_unclaimed unclaimed = true
is_unclaimed _ = false

abbrev pub is_broken : Life → Bool
is_broken broken = true
is_broken _ = false

-- The coordinator has the task and has not yet begun to release it.
abbrev pub holds : Pc → ℕ → Bool
holds (admitting m) n = m == n
holds (resolving m) n = m == n
holds (renewing m) n = m == n
holds _ n = false

abbrev pub rests : Pc → Bool
rests (admitting m) = false
rests (resolving m) = false
rests (renewing m) = false
rests _ = true

abbrev pub is_executing : Stage → Bool
is_executing executing = true
is_executing _ = false

-- How many executions of task `n` are in their call of `Execute`.
unfoldable pub tally : ℕ → Executors → ℕ
tally n [] = 0
tally n ((m, st) ∷ es) =
    let rest = tally n es in if m == n then (if is_executing st then suc rest else rest) else rest

-- What the log says of task `n` is where the coordinator and the executions stand.
pub record LivesIn (n : ℕ) (pc : Pc) (es : Executors) (next : ℕ) (log : List Entry) : Type 0 where
  pub at_hand : holds pc n ≡ is_held (life n log)
  pub running : tally n es ≡ (if is_running (life n log) then 1 else 0)
  pub sane : is_broken (life n log) ≡ false
  pub numbered : is_unclaimed (life n log) ≡ leb next n

abbrev pub Lives : ℕ → State → Type 0
Lives n s = LivesIn n s.pc s.executors s.next s.log
