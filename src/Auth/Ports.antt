-- ===== src/Auth/Ports.antt =====
-- operatoraccountauth/ports.go: what the authentication service asks of its persistence, the provider
-- and the runtime. The ports are functions of the calls made so far, the newest first, so that their
-- answers can be anything; a call's context is theirs.
use cresora.Prelude.{ℕ, Bool, Option, List}
use cresora.Prelude.Result.{Result}
use cresora.Auth.Errors.{Failures}
use cresora.Auth.Challenge.{Text, AuthTarget, Profile, AccountView, SendCodeResult}
use cresora.Auth.Diagnosis.{Cause}

pub data BeginOutcome : Type 0 where
  started resumed in_progress already_active : BeginOutcome
  unlisted : ℕ → BeginOutcome

pub record BeginResult : Type 0 where
  pub account : AccountView
  pub outcome : BeginOutcome
  pub auth_expires_at : ℕ

-- What the provider fails with: the causes that `errors.As` and `errors.Is` find in its error.
abbrev pub ProviderError : Type 0
ProviderError = List Cause

-- A call with its arguments and its answer; an error comes without a meaningful value.
pub data AuthCall : Type 0 where
  begins : ℕ → Text → ℕ → Result Failures BeginResult → AuthCall
  finalizes : ℕ → ℕ → ℕ → Profile → Result Failures AccountView → AuthCall
  begins_abort : ℕ → ℕ → ℕ → Result Failures ℕ → AuthCall
  completes_abort : ℕ → ℕ → ℕ → Option Failures → AuthCall
  lists_orphans : Result Failures (List AuthTarget) → AuthCall
  stops : AuthTarget → Option Failures → AuthCall
  sends_code : AuthTarget → Text → Result ProviderError SendCodeResult → AuthCall
  signs_in : AuthTarget → Text → Text → Text → Result ProviderError Profile → AuthCall
  gives_password : AuthTarget → Text → Result ProviderError Profile → AuthCall

abbrev pub AuthTrace : Type 0
AuthTrace = List AuthCall

-- The provider and the stopper may be absent (nil).
pub record AuthPorts : Type 0 where
  pub has_provider : Bool
  pub has_stopper : Bool
  pub begin_or_resume : AuthTrace → ℕ → Text → ℕ → Result Failures BeginResult
  pub finalize_account : AuthTrace → ℕ → ℕ → ℕ → Profile → Result Failures AccountView
  pub begin_abort : AuthTrace → ℕ → ℕ → ℕ → Result Failures ℕ
  pub complete_abort : AuthTrace → ℕ → ℕ → ℕ → Option Failures
  pub list_orphans : AuthTrace → Result Failures (List AuthTarget)
  pub stop_account : AuthTrace → AuthTarget → Option Failures
  pub send_code : AuthTrace → AuthTarget → Text → Result ProviderError SendCodeResult
  pub sign_in : AuthTrace → AuthTarget → Text → Text → Text → Result ProviderError Profile
  pub password : AuthTrace → AuthTarget → Text → Result ProviderError Profile
