-- ===== src/Auth/Submission.antt =====
-- operatoraccountauth/submission.go: what a code or a password does to a challenge while its record is
-- locked.
pub mod Keeps
pub mod Attempts
use cresora.Prelude.{
  ℕ, Bool, true, false, ◌||◌, ◌&&◌, not, Option, none, some, List, [], ◌∷◌, ◌++◌, ◌==◌, is_none,
  ltb, length, if◌then◌else◌,
}
use cresora.Prelude.Result.{Result, ok, err}
use cresora.Auth.Errors.{
  AuthError, Failures, is_nil, failure_is, invalid_input, challenge_expired, challenge_not_found,
  password_required, attempts_exceeded, provider_unavailable, authentication_aborted,
  account_state_conflict, challenge_capacity, service_closed, runtime_challenge_expired,
  runtime_challenge_not_found, runtime_challenge_already_active, runtime_account_state_conflict,
  runtime_capacity, runtime_closed, foreign, map_challenge_error, Context, runtime_context_error,
}
use cresora.Auth.Phone.{trim_space}
use cresora.Auth.Challenge.{
  Text, is_blank, AuthTarget, Stage, code_stage, password_stage, Profile, AccountView, Challenge,
  ChallengeRecord,
}
use cresora.Auth.Registry.{Registry}
use cresora.Auth.Methods.{remove}
use cresora.Auth.Operation.{
  ChallengeOperation, held, reserve_code_attempt, reserve_password_attempt, set_pending_profile,
  set_stage, complete, abort, Action, Answer, operation, no_result,
}
use cresora.Auth.Diagnosis.{
  Cause, caused_by, class_of_cause, classify_provider_failure, is_abort_provider_failure,
}
use cresora.Auth.Ports.{AuthPorts, AuthTrace, ProviderError, signs_in, gives_password}
use cresora.Auth.Lifecycle.{Done, abort_lifecycle, finalize_lifecycle}

-- What a submission reads on its way: its context after the provider has answered, twice, and the
-- clock for the classification, for the finalization and for the end of the challenge.
pub record Readings : Type 0 where
  pub provider_context : Context
  pub failure_context : Context
  pub classified_at : ℕ
  pub finalized_at : ℕ
  pub ended_at : ℕ

-- The failure of a port stays one if it is none of the sentinels.
abbrev pub raised : Failures → Failures
raised [] = foreign 0 ∷ []
raised (e ∷ es) = e ∷ es

-- What an action leaves behind.
abbrev pub Acted : Type 0
Acted = AuthTrace × ChallengeOperation × Failures

unfoldable pub finalized :
    Readings → AuthTrace → ChallengeOperation → Result Failures AccountView → Acted
finalized rd t o (err e) = (t, o, raised e)
finalized rd t o (ok account) = (t, complete rd.ended_at o account, [])

unfoldable pub finalize : AuthPorts → Readings → Profile → Action AuthTrace
finalize p rd profile t o =
    if not (ltb rd.finalized_at (held o).expires)
    then (t, o, challenge_expired ∷ [])
    else (let (u, answer) = finalize_lifecycle p t (held o).target profile in
        finalized rd u o answer)

unfoldable pub aborted_operation :
    Readings → Failures → AuthTrace → ChallengeOperation → Option Failures → Acted
aborted_operation rd failure t o (some e) = (t, o, failure ++ raised e)
aborted_operation rd failure t o none =
    (t, abort rd.ended_at o, failure ++ (authentication_aborted ∷ []))

unfoldable pub abort_operation : AuthPorts → Readings → Failures → Action AuthTrace
abort_operation p rd failure t o =
    let (u, answer) = abort_lifecycle p t (held o).target in aborted_operation rd failure u o answer

-- The duration of a retry hint and the kind of a diagnostic are not kept past this point.
abbrev diagnosed : Readings → ChallengeOperation → ProviderError → Failures
diagnosed rd o causes =
    class_of_cause (classify_provider_failure causes (held o).expires rd.classified_at) ∷ []

unfoldable pub handle_provider_failure : AuthPorts → Readings → ProviderError → Action AuthTrace
handle_provider_failure p rd causes t o = elim (runtime_context_error rd.failure_context) [
  | some e ↦ (t, o, e ∷ [])
  | none ↦
      if not (is_abort_provider_failure causes)
      then (t, o, diagnosed rd o causes)
      else abort_operation p rd (diagnosed rd o causes) t o
]

-- What the provider's answer to a code leads to.
unfoldable pub signed : AuthPorts → Readings → Result ProviderError Profile → Action AuthTrace
signed p rd (ok profile) t o = finalize p rd profile t (set_pending_profile o profile)
signed p rd (err causes) t o = elim (runtime_context_error rd.provider_context) [
  | some e ↦ (t, o, e ∷ [])
  | none ↦
      if caused_by password_required causes
      then (t, (set_stage o password_stage).0, password_required ∷ [])
      else handle_provider_failure p rd causes t o
]

-- An attempt was reserved, or not.
unfoldable pub try_code : AuthPorts → Readings → Text → Bool → Action AuthTrace
try_code p rd code false t o = (t, o, attempts_exceeded ∷ [])
try_code p rd code true t o =
    if not p.has_provider
    then abort_operation p rd (provider_unavailable ∷ []) t o
    else (let r = held o in
        let answer = p.sign_in t r.target r.phone (trim_space code) r.hash in
        signed p rd answer (signs_in r.target r.phone (trim_space code) r.hash answer ∷ t) o)

abbrev is_code_stage : Stage → Bool
is_code_stage code_stage = true
is_code_stage _ = false

abbrev is_password_stage : Stage → Bool
is_password_stage password_stage = true
is_password_stage _ = false

unfoldable pub code_action : AuthPorts → Readings → Text → Option Profile → Action AuthTrace
code_action p rd code (some profile) t o = finalize p rd profile t o
code_action p rd code none t o =
    if not (is_code_stage (held o).stage)
    then (t, o, password_required ∷ [])
    else (let (q, reserved) = reserve_code_attempt o in try_code p rd code reserved t q)

-- What the provider's answer to a password leads to.
unfoldable pub confirmed : AuthPorts → Readings → Result ProviderError Profile → Action AuthTrace
confirmed p rd (ok profile) t o = finalize p rd profile t (set_pending_profile o profile)
confirmed p rd (err causes) t o = elim (runtime_context_error rd.provider_context) [
  | some e ↦ (t, o, e ∷ [])
  | none ↦ handle_provider_failure p rd causes t o
]

unfoldable pub try_password : AuthPorts → Readings → Text → Bool → Action AuthTrace
try_password p rd password false t o = (t, o, attempts_exceeded ∷ [])
try_password p rd password true t o =
    if not p.has_provider
    then abort_operation p rd (provider_unavailable ∷ []) t o
    else (let answer = p.password t (held o).target password in
        confirmed p rd answer (gives_password (held o).target password answer ∷ t) o)

unfoldable pub password_action : AuthPorts → Readings → Text → Option Profile → Action AuthTrace
password_action p rd password (some profile) t o = finalize p rd profile t o
password_action p rd password none t o =
    if not (is_password_stage (held o).stage)
    then (t, o, password_required ∷ [])
    else (let (q, reserved) = reserve_password_attempt o in try_password p rd password reserved t q)
