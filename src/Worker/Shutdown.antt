-- ===== src/Worker/Shutdown.antt =====
-- deliveryworker/worker.go: what the shutdown waits for, and what has ended once `Run` returns.
pub mod Frame
pub mod Quiet
use cresora.Prelude.{
  ℕ, zero, suc, ◌≡◌, refl, Bool, true, false, ◌||◌, ◌&&◌, Option, none, some, List, [], ◌∷◌, ◌==◌,
  if◌then◌else◌, arith, Bool-cases, inl, inr, ==_iff,
}
use cresora.Prelude.Result.{Result, ok, err}
use cresora.Worker.Tracker.{is_closed}
use cresora.Worker.Faults.{
  Given, Fault, given, worded, panicked, no_admission, nil_task, nil_command, claim_stopped,
  unexpected_stop, shutdown_timeout, malformed_task, join,
}
use cresora.Worker.State.{
  Pc, Executors, State, Channel, active_done, coordinator_done, Waiting, starting, looking, blocked,
  Main, running, draining, cleaning, finished,
}
use cresora.Worker.Run.{has_returned, ready, still_open, block_on, wait_for}

abbrev pub is_empty : Executors → Bool
is_empty [] = true
is_empty (e ∷ es) = false

abbrev pub same_channel : Channel → Channel → Bool
same_channel (active_done i) (active_done j) = i == j
same_channel coordinator_done coordinator_done = true
same_channel c d = false

unfoldable pub awaits : Channel → List Channel → Bool
awaits c [] = false
awaits c (d ∷ ds) = same_channel d c || awaits c ds

abbrev pub channels_of : Waiting → List Channel
channels_of (starting cs) = cs
channels_of (looking cs) = cs
channels_of (blocked cs) = cs

-- Every channel that is waited for is still on the list, or ready.
abbrev pub Covers : State → Channel → List Channel → Type 0
Covers s c cs = (awaits c cs || ready s c) ≡ true

-- `errors.Is` with `ErrShutdownTimeout`.
unfoldable pub is_shutdown_timeout : Fault → Bool
is_shutdown_timeout shutdown_timeout = true
is_shutdown_timeout (worded w f) = is_shutdown_timeout f
is_shutdown_timeout (malformed_task f) = is_shutdown_timeout f
is_shutdown_timeout (join f g) = is_shutdown_timeout f || is_shutdown_timeout g
is_shutdown_timeout (given g) = false
is_shutdown_timeout (panicked x o) = false
is_shutdown_timeout no_admission = false
is_shutdown_timeout nil_task = false
is_shutdown_timeout nil_command = false
is_shutdown_timeout claim_stopped = false
is_shutdown_timeout unexpected_stop = false

abbrev pub timed_out : Option Fault → Bool
timed_out none = false
timed_out (some f) = is_shutdown_timeout f

same_channel-ready :
    (s : State) (d c : Channel) → same_channel d c ≡ true → ready s d ≡ true → ready s c ≡ true
same_channel-ready s (active_done i) (active_done j) h k = rw (← (==_iff i j).0 h) k
same_channel-ready s coordinator_done coordinator_done h k = k
same_channel-ready s d c h k = cc

still_open-Covers :
    (s : State) (c : Channel) (cs : List Channel) → Covers s c cs → Covers s c (still_open s cs)
unfolding still_open awaits
still_open-Covers s c [] h = h
still_open-Covers s c (d ∷ ds) h =
    ground (arith, still_open-Covers s c ds, same_channel-ready s d c)

-- What a round of the wait says of a channel.
abbrev pub Waited : State → Channel → Result Bool Waiting → Type 0
Waited s c (ok w) = Covers s c (channels_of w)
Waited s c (err true) = ready s c ≡ true
Waited s c (err false) = Unit

finished_round : (s : State) (c : Channel) (before : Bool) → Covers s c [] → Waited s c (err before)
unfolding awaits
finished_round s c true h = h
finished_round s c false h = tt

block_on-Waited :
    (s : State) (c : Channel) (cs : List Channel) (before : Bool)
    → Covers s c cs
    → Waited s c (block_on cs before)
unfolding block_on
block_on-Waited s c [] before h = finished_round s c before h
block_on-Waited s c (d ∷ ds) before h = h

received :
    (s : State) (c d : Channel) (ds : List Channel)
    → Covers s c (d ∷ ds)
    → ready s d ≡ true
    → Covers s c ds
unfolding awaits
received s c d ds h y = ground (arith, same_channel-ready s d c)

-- A round keeps every channel covered, and a wait that ends well has seen them ready.
pub wait_for-Waited :
    (s : State) (c : Channel) (w : Waiting) (timer before : Bool)
    → Covers s c (channels_of w)
    → Waited s c (wait_for s w timer before)
unfolding wait_for
wait_for-Waited s c (starting cs) timer true h = h
wait_for-Waited s c (starting cs) timer false h = tt
wait_for-Waited s c (looking []) timer before h = finished_round s c before h
wait_for-Waited s c (looking (d ∷ ds)) true before h = tt
wait_for-Waited s c (looking (d ∷ ds)) false before h =
    block_on-Waited s c _ before (still_open-Covers s c (d ∷ ds) h)
wait_for-Waited s c (blocked []) timer before h = finished_round s c before h
wait_for-Waited s c (blocked (d ∷ ds)) true before h = tt
wait_for-Waited s c (blocked (d ∷ ds)) false before h = elim (Bool-cases (ready s d)) [
  | inl y ↦ rw y (received s c d ds h y)
  | inr y ↦ rw y h
]
