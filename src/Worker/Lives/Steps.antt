-- ===== src/Worker/Lives/Steps.antt =====
-- deliveryworker/worker.go: the steps of the coordinator, for the life of one task.
use cresora.Prelude.{
  ℕ, ◌≡◌, refl, Bool, true, false, Option, none, some, ◌==◌, arith, Bool-cases, inl, inr, ==_iff,
}
use cresora.Worker.Faults.{claim_task, safe, Given, Fault, given, worded, no_admission}
use cresora.Worker.State.{
  Resume, claim_failed, malformed, unresolved, unrenewed, no_command, late, Pc, selecting, claiming,
  polling, returned, admitting, resolving, renewing, releasing, State, canceled, claim_cause,
}
use cresora.Worker.Coordinator.{
  Answer, claim_answer, claim_panics, no_lifecycle, admission_read, admission_panics, renew_answer,
  release_answer, command_answer, slot_free, claims_canceled, timer_fired, goto, release, resume,
  claim_returned, malformed_admission, command_returned, renewed, renew_returned, coordinate,
  unless_canceled,
}
use cresora.Worker.Lives.{life, Lives, holds, rests, tally}

-- The state of `t` is that of `s`, but for what has no part in the lives of tasks; nothing is at hand.
abbrev pub Rested : State → State → Type 0
Rested s t = (rests t.pc ≡ true) × (t.executors ≡ s.executors) × (t.next ≡ s.next) × (t.log ≡ s.log)

unless_canceled_rests :
    (f : Fault) (rel : Option Fault) (s : State) → Rested s (unless_canceled f rel s)
unfolding unless_canceled
unless_canceled_rests f rel s = ground arith

resume_rests : (k : Resume) (rel : Option Fault) (s : State) → Rested s (resume k rel s)
unfolding resume
resume_rests (claim_failed f) rel s = unless_canceled_rests (worded _ f) rel s
resume_rests (malformed f) rel s = ground arith
resume_rests (no_command f) rel s = ground arith
resume_rests (unresolved f) rel s = ground arith
resume_rests (unrenewed f) rel s = ground arith
resume_rests late rel s = ground arith

rests-holds : (pc : Pc) (n : ℕ) → rests pc ≡ true → holds pc n ≡ false
rests-holds selecting n h = refl
rests-holds claiming n h = refl
rests-holds polling n h = refl
rests-holds returned n h = refl
rests-holds (releasing m k) n h = refl
rests-holds (admitting m) n h = cc
rests-holds (resolving m) n h = cc
rests-holds (renewing m) n h = cc

holds-eq : (pc : Pc) (n m : ℕ) → holds pc m ≡ true → holds pc n ≡ (m == n)
holds-eq selecting n m h = cc
holds-eq claiming n m h = cc
holds-eq polling n m h = cc
holds-eq returned n m h = cc
holds-eq (releasing _ k) n m h = cc
holds-eq (admitting j) n m h = ground arith
holds-eq (resolving j) n m h = ground arith
holds-eq (renewing j) n m h = ground arith

same : (m : ℕ) → (m == m) ≡ true
same m = (==_iff m m).1 refl

module _ (n : ℕ) (s : State) (l : Lives n s) where
  pub Rested-Lives : (t : State) → Rested s t → rests s.pc ≡ true → Lives n t
  Rested-Lives t r h = ground (arith, rests-holds s.pc n h, rests-holds t.pc n r.0)

  -- The task at hand is released: its life ends.
  release-Lives : (m : ℕ) (f : Fault) (k : Resume) → holds s.pc m ≡ true → Lives n (release m f k s)
  unfolding release life
  release-Lives m f k h = ground (arith, holds-eq s.pc n m h)

  -- Its life goes on in the next call.
  goto-Lives : (m : ℕ) (pc : Pc) → holds s.pc m ≡ true → holds pc m ≡ true → Lives n (goto pc s)
  unfolding goto
  goto-Lives m pc h k = ground (arith, holds-eq s.pc n m h, holds-eq pc n m k)

  claim_returned-Lives :
      (task : Bool) (o : Option Given) → s.pc ≡ claiming → Lives n (claim_returned task o s)
  unfolding claim_returned life
  claim_returned-Lives task (some g) h =
      ground (arith, unless_canceled_rests (worded claim_task (given g)) none s)
  claim_returned-Lives false none h = ground arith
  claim_returned-Lives true none h = ground arith

  command_returned-Lives :
      (m : ℕ) (command : Bool) (o : Option Fault)
      → holds s.pc m ≡ true
      → Lives n (command_returned m command o s)
  unfolding command_returned
  command_returned-Lives m command (some f) h = release-Lives m f _ h
  command_returned-Lives m false none h = release-Lives m _ _ h
  command_returned-Lives m true none h = elim (Bool-cases (canceled s)) [
    | inl y ↦ rw y (release-Lives m (claim_cause s) late h)
    | inr y ↦ rw y (goto-Lives m (renewing m) h (same m))
  ]

  renewed-Lives : (m : ℕ) → holds s.pc m ≡ true → Lives n (renewed m s)
  unfolding renewed life tally
  renewed-Lives m h = ground (arith, holds-eq s.pc n m h)

  renew_returned-Lives :
      (m : ℕ) (o : Option Fault) → holds s.pc m ≡ true → Lives n (renew_returned m o s)
  unfolding renew_returned
  renew_returned-Lives m (some f) h = release-Lives m f _ h
  renew_returned-Lives m none h = renewed-Lives m h

  malformed_admission-Lives :
      (m : ℕ) (f : Fault) → holds s.pc m ≡ true → Lives n (malformed_admission m f s)
  unfolding malformed_admission
  malformed_admission-Lives m f h = release-Lives m f _ h

  -- A step of the coordinator keeps the life of every task.
  pub coordinate-Lives : (pc : Pc) (a : Answer) → s.pc ≡ pc → Lives n (coordinate pc a s)
  unfolding coordinate
  coordinate-Lives selecting slot_free e = ground arith
  coordinate-Lives selecting claims_canceled e = ground arith
  coordinate-Lives claiming (claim_answer task o) e = claim_returned-Lives task o e
  coordinate-Lives claiming (claim_panics o) e = ground arith
  coordinate-Lives polling timer_fired e = ground arith
  coordinate-Lives polling claims_canceled e = ground arith
  coordinate-Lives (admitting m) no_lifecycle e =
      malformed_admission-Lives m no_admission (rw e (same m))
  coordinate-Lives (admitting m) (admission_panics o) e =
      malformed_admission-Lives m _ (rw e (same m))
  coordinate-Lives (admitting m) admission_read e =
      goto-Lives m (resolving m) (rw e (same m)) (same m)
  coordinate-Lives (resolving m) (command_answer command r) e =
      command_returned-Lives m command _ (rw e (same m))
  coordinate-Lives (renewing m) (renew_answer r) e = renew_returned-Lives m _ (rw e (same m))
  coordinate-Lives (releasing m k) (release_answer r) e =
      Rested-Lives (resume k (safe _ r) s) (resume_rests k (safe _ r) s) (rw e)
  coordinate-Lives pc a e = l
