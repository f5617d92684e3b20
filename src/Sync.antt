-- ===== src/Sync.antt =====
-- The synchronization of an account's dialogs: dialogsync/service.go, and the execution of one task
-- with the delays of its retries in the worker, background/dialogsync/worker.go. An error is what
-- `errors.Is` and `errors.As` find in it; a duration is a number of nanoseconds in an int64.
pub mod Config
pub mod Backoff
pub mod Settles
use cresora.Prelude.{
  ℕ, ◌+◌, Bool, true, false, not, ◌&&◌, ◌||◌, Option, none, some, List, [], ◌∷◌, ◌++◌, ◌==◌, ltb,
  if◌then◌else◌, ℤ, pos, negsuc, is_positive, lt_ℤ, add64, sub_ℕ,
}
use Prim.Native.Nat.{◌/◌}
use cresora.Prelude.Result.{Result, ok, err}

-- `flood_wait` is the duration of the first `FloodWaitError` that `errors.As` finds.
pub record Failure : Type 0 where
  pub code : ℕ
  pub account_not_found : Bool
  pub lease_lost : Bool
  pub is_canceled : Bool
  pub deadline_exceeded : Bool
  pub permanent : Bool
  pub flood_wait : Option ℤ

-- The calls on the task and of the fetcher; a target and the dialogs are numbers.
pub data Call : Type 0 where
  revalidates : Call
  fetches : ℕ → Call
  completes : ℕ → Call
  releases : Failure → Call
  retries : Failure → ℤ → Call
  fails : Failure → Call

-- What the task, the fetcher and the context answer. The error of a release is not looked at.
pub record Ports : Type 0 where
  pub revalidate : Result Failure ℕ
  pub fetch : ℕ → Result Failure ℕ
  pub context_error : Option Failure
  pub complete : ℕ → Option Failure
  pub retry : ℤ → Option Failure
  pub fail : Option Failure
  -- `rand.Int63n` of a positive bound.
  pub draw : ℕ → ℕ

pub record Backoffs : Type 0 where
  pub retry_backoff : ℤ
  pub flood_floor : ℤ
  pub max_backoff : ℤ

abbrev context_or : Option Failure → Failure → Failure
context_or none f = f
context_or (some e) f = e

abbrev pub fetched : Ports → Result Failure ℕ → List Call × Option Failure
fetched p (err f) = ([], some (context_or p.context_error f))
fetched p (ok dialogs) = (completes dialogs ∷ [], p.complete dialogs)

abbrev pub revalidated : Ports → Result Failure ℕ → List Call × Option Failure
revalidated p (err f) = if f.account_not_found then (releases f ∷ [], none) else ([], some f)
revalidated p (ok target) =
    let (calls, failure) = fetched p (p.fetch target) in (fetches target ∷ calls, failure)

-- `Syncer.Sync`.
unfoldable pub sync : Ports → List Call × Option Failure
sync p = let (calls, failure) = revalidated p p.revalidate in (revalidates ∷ calls, failure)

abbrev pub bigger : ℤ → ℤ → ℤ
bigger a b = if lt_ℤ a b then b else a

-- `int64(base) / 25 + 1`, which is rounded towards zero.
abbrev pub jitter_bound : ℤ → ℤ
jitter_bound (pos n) = pos (n / 25 + 1)
jitter_bound (negsuc n) = sub_ℕ 1 ((n + 1) / 25)

-- `none` is the panic of `rand.Int63n` at a bound that is not positive.
abbrev int63n : Ports → ℤ → Option ℕ
int63n p (pos n) = if n == 0 then none else some (p.draw n)
int63n p (negsuc n) = none

abbrev pub capped : ℤ → ℤ → ℤ
capped max delay = if is_positive max && lt_ℤ max delay then max else delay

abbrev with_jitter : ℤ → ℤ → Option ℕ → Option ℤ
with_jitter base max none = none
with_jitter base max (some jitter) = some (capped max (add64 base (pos jitter)))

unfoldable pub capped_backoff : Ports → ℤ → ℤ → Option ℤ
capped_backoff p base max = with_jitter base max (int63n p (jitter_bound base))

unfoldable pub flood_backoff : Ports → Backoffs → ℤ → Option ℤ
unfolding capped_backoff
flood_backoff p c server =
    capped_backoff p
      (if is_positive c.flood_floor && lt_ℤ server c.flood_floor then c.flood_floor else server)
      c.max_backoff

unfoldable pub backoff : Ports → Backoffs → ℤ → Option ℤ
unfolding capped_backoff
backoff p c server = capped_backoff p (bigger server c.retry_backoff) c.max_backoff

-- How an execution ends: with nothing more, or an error that stops the worker, or a panic.
pub data Ending : Type 0 where
  finished : Ending
  fatal : Failure → Ending
  panicked : Ending

abbrev pub reported : Option Failure → Ending
reported none = finished
reported (some f) = if f.lease_lost then finished else fatal f

abbrev pub retry_after : Ports → Failure → Option ℤ → List Call × Ending
retry_after p f none = ([], panicked)
retry_after p f (some delay) = (retries f delay ∷ [], reported (p.retry delay))

-- The second switch, on an error that is no interruption.
unfoldable pub settle : Ports → Backoffs → Failure → Option ℤ → List Call × Ending
unfolding flood_backoff backoff
settle p c f (some server) = retry_after p f (flood_backoff p c server)
settle p c f none =
    if f.permanent
    then (fails f ∷ [], reported p.fail)
    else retry_after p f (backoff p c c.retry_backoff)

-- The first switch.
unfoldable pub conclude : Ports → Backoffs → Option Failure → List Call × Ending
unfolding settle
conclude p c none = ([], finished)
conclude p c (some f) =
    if f.lease_lost
    then ([], finished)
    else if f.is_canceled || f.deadline_exceeded
    then (releases f ∷ [], finished)
    else settle p c f f.flood_wait

-- How the executor came back: with a result, or by a panic, which becomes an error like another.
pub data Run : Type 0 where
  returned : Option Failure → Run
  panicked_with : Failure → Run

abbrev pub run_failure : Run → Option Failure
run_failure (returned o) = o
run_failure (panicked_with f) = some f

-- `execute` after its executor.
unfoldable pub execute : Ports → Backoffs → Run → List Call × Ending
unfolding conclude
execute p c run = conclude p c (run_failure run)
