-- ===== src/Disconnect/Ports.antt =====
-- operatoraccounts/ports.go: what the service asks of its persistence and of the runtime. The ports
-- are functions of the calls made so far, the newest first, so that their answers can be anything,
-- also what other writers and the remote side cause between two calls; a call's context is theirs.
use cresora.Prelude.{ℕ, Option, List}
use cresora.Prelude.Result.{Result}
use cresora.Account.{Account}
use cresora.Auth.Challenge.{AuthTarget}
use cresora.Disconnect.Outcome.{Failure, RevokeOutcome}

-- A call with its arguments and its answer; an error comes without a meaningful value.
pub data Call : Type 0 where
  loads : ℕ → ℕ → Result Failure Account → Call
  persists : ℕ → Account → ℕ → Option Failure → Call
  revokes : AuthTarget → RevokeOutcome → Call
  lists : Result Failure (List AuthTarget) → Call

abbrev pub Trace : Type 0
Trace = List Call

pub record Ports : Type 0 where
  pub load_account : Trace → ℕ → ℕ → Result Failure Account
  pub persist_lifecycle : Trace → ℕ → Account → ℕ → Option Failure
  pub list_remote_logout_intents : Trace → Result Failure (List AuthTarget)
  pub revoke_and_stop : Trace → AuthTarget → RevokeOutcome
