-- ===== src/Auth/History.antt =====
-- Histories of the challenge registry: any sequence of its methods with any arguments, which is what
-- the service's requests amount to, in the order in which they take the locks.
pub mod Safety
use cresora.Prelude.{ℕ, Option, none, some, List, [], ◌∷◌}
use cresora.Auth.Errors.{Context}
use cresora.Auth.Challenge.{
  Text, AuthTarget, Stage, Profile, AccountView, Challenge, SendCodeResult,
}
use cresora.Auth.Registry.{
  Registry, Reservation, Outcome, prepare, close_admission, clear_tombstones,
}
use cresora.Auth.Methods.{commit, rollback, status, remove, clear_shutdown_state}
use cresora.Auth.Operation.{
  ChallengeOperation, Action, reserve_code_attempt, reserve_password_attempt, set_pending_profile,
  set_stage, complete, abort, operation,
}

-- One method of a challenge operation; `complete` and `abort` read the clock.
pub data Touch : Type 0 where
  reserves_code reserves_password : Touch
  sets_profile : Profile → Touch
  sets_stage : Stage → Touch
  completes : ℕ → AccountView → Touch
  aborts : ℕ → Touch

unfoldable pub touch : ChallengeOperation → Touch → ChallengeOperation
touch o reserves_code = (reserve_code_attempt o).0
touch o reserves_password = (reserve_password_attempt o).0
touch o (sets_profile profile) = set_pending_profile o profile
touch o (sets_stage stage) = (set_stage o stage).0
touch o (completes now account) = complete now o account
touch o (aborts now) = abort now o

unfoldable pub touches : ChallengeOperation → List Touch → ChallengeOperation
touches o [] = o
touches o (t ∷ ts) = touches (touch o t) ts

-- The action that does these and reports nothing.
abbrev pub script : List Touch → Action Unit
script ts w o = (w, touches o ts, [])

pub data Event : Type 0 where
  prepares : Context → ℕ → ℕ → AuthTarget → Text → ℕ → List ℕ → Event
  commits : Context → ℕ → ℕ → Reservation → SendCodeResult → Event
  rolls_back : Context → Reservation → Event
  asks_status : Context → ℕ → ℕ → ℕ → Event
  operates : Context → ℕ → ℕ → ℕ → List Touch → Event
  removes : Context → ℕ → ℕ → Event
  clears : Challenge → Event
  closes forgets : Event

-- A `prepare` that never drew an identity has not happened yet.
abbrev pub after : Registry → Option (Outcome Reservation) → Registry
after g none = g
after g (some o) = o.0

unfoldable pub step : Registry → Event → Registry
step g (prepares ctx cleaned_at now target phone expires drawn) =
    after g (prepare ctx cleaned_at now g target phone expires drawn)
step g (commits ctx before later reservation sent) = (commit ctx before later g reservation sent).0
step g (rolls_back ctx reservation) = (rollback ctx g reservation).0
step g (asks_status ctx cleaned_at now actor) = (status ctx cleaned_at now g actor).0
step g (operates ctx now actor request_id ts) =
    (operation ctx now tt g actor request_id (script ts)).1
step g (removes ctx actor request_id) = (remove ctx g actor request_id).0
step g (clears challenge) = clear_shutdown_state g challenge
step g closes = close_admission g
step g forgets = clear_tombstones g

unfoldable pub run : Registry → List Event → Registry
run g [] = g
run g (e ∷ es) = run (step g e) es
