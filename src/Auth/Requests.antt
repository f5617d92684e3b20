-- ===== src/Auth/Requests.antt =====
-- operatoraccountauth/submission.go, cancel.go and `expireChallenge` of service.go: the requests that
-- an operator makes for a challenge, with their guards and what follows the registry's answer.
pub mod Orders
pub mod Attempts
use cresora.Prelude.{
  ℕ, Bool, true, false, ◌||◌, ◌&&◌, not, Option, none, some, List, [], ◌∷◌, ◌++◌, ◌==◌, is_none,
  ltb, length, if◌then◌else◌,
}
use cresora.Prelude.Result.{Result, ok, err}
use cresora.Auth.Errors.{
  AuthError, Failures, is_nil, failure_is, invalid_input, challenge_expired, challenge_not_found,
  password_required, attempts_exceeded, provider_unavailable, authentication_aborted,
  account_state_conflict, challenge_capacity, service_closed, runtime_challenge_expired,
  runtime_challenge_not_found, runtime_challenge_already_active, runtime_account_state_conflict,
  runtime_capacity, runtime_closed, foreign, map_challenge_error, Context, runtime_context_error,
}
use cresora.Auth.Phone.{trim_space}
use cresora.Auth.Challenge.{
  Text, is_blank, AuthTarget, Stage, code_stage, password_stage, Profile, AccountView, Challenge,
  ChallengeRecord,
}
use cresora.Auth.Registry.{Registry}
use cresora.Auth.Methods.{remove}
use cresora.Auth.Operation.{
  ChallengeOperation, held, reserve_code_attempt, reserve_password_attempt, set_pending_profile,
  set_stage, complete, abort, Action, Answer, operation, no_result,
}
use cresora.Auth.Diagnosis.{
  Cause, caused_by, class_of_cause, classify_provider_failure, is_abort_provider_failure,
}
use cresora.Auth.Ports.{AuthPorts, AuthTrace, ProviderError, signs_in, gives_password}
use cresora.Auth.Lifecycle.{Done, abort_lifecycle, finalize_lifecycle}
use cresora.Auth.Submission.{Readings, raised, code_action, password_action, Acted}

abbrev pub max_password_bytes : ℕ
max_password_bytes = 4096

-- `mapChallengeError` on the tree of an error.
unfoldable pub map_failures : Failures → Failures
map_failures fs =
    if failure_is runtime_challenge_expired fs
    then challenge_expired ∷ []
    else if failure_is runtime_challenge_not_found fs
    then challenge_not_found ∷ []
    else if failure_is runtime_challenge_already_active fs
    then account_state_conflict ∷ []
    else if failure_is runtime_account_state_conflict fs
    then account_state_conflict ∷ []
    else if failure_is runtime_capacity fs
    then challenge_capacity ∷ []
    else if failure_is runtime_closed fs
    then service_closed ∷ []
    else fs

unfoldable pub validate_service_context : Context → ℕ → Option AuthError
validate_service_context ctx actor = elim (runtime_context_error ctx) [
  | some e ↦ some e
  | none ↦ if actor == 0 then some invalid_input else none
]

-- `expireChallenge`: `none` is exactly `ErrChallengeExpired`, and `some` what is joined to it.
abbrev pub Expired : Type 0
Expired = AuthTrace × Registry × Option Failures

unfoldable pub expire_removed : AuthTrace → Registry × Option AuthError → Expired
expire_removed t (g, none) = (t, g, none)
expire_removed t (g, some e) = (t, g, some (map_challenge_error e ∷ []))

unfoldable pub expire_challenge : AuthPorts → Context → AuthTrace → Registry → Challenge → Expired
expire_challenge p ctx t g c =
    if c.request_id == 0
    then (t, g, none)
    else (let (u, answer) = abort_lifecycle p t c.target in
        elim answer [
          | some e ↦ (u, g, some e)
          | none ↦ expire_removed u (remove ctx g c.target.actor c.request_id)
        ])

abbrev pub expiry_failure : Option Failures → Failures
expiry_failure none = challenge_expired ∷ []
expiry_failure (some e) = challenge_expired ∷ e

-- The challenge of an answer that reports its expiry.
abbrev expired_challenge : Failures → Option Challenge → Option Challenge
expired_challenge fs c = if failure_is runtime_challenge_expired fs then c else none

-- The end of `Code` and `Password`, by the challenge that has expired, if any.
unfoldable pub submitted :
    AuthPorts → Context → Option Challenge → Answer AuthTrace → Answer AuthTrace
submitted p ctx none (t, g, result, fs) = (t, g, result, map_failures fs)
submitted p ctx (some c) (t, g, result, fs) =
    let (u, h, failure) = expire_challenge p ctx t g c in (u, h, no_result, expiry_failure failure)

unfoldable pub after_submission : AuthPorts → Context → Answer AuthTrace → Answer AuthTrace
after_submission p ctx (t, g, result, fs) =
    submitted p ctx (expired_challenge fs result.challenge) (t, g, result, fs)

-- An action that looks at the pending profile of the record it is given.
abbrev by_profile : (Option Profile → Action AuthTrace) → Action AuthTrace
by_profile action t o = action (held o).pending_profile t o

unfoldable pub submit_code :
    AuthPorts → Context → Readings → ℕ → AuthTrace → Registry → ℕ → ℕ → Text → Answer AuthTrace
submit_code p ctx rd now t g actor request_id code = elim (validate_service_context ctx actor) [
  | some e ↦ (t, g, no_result, e ∷ [])
  | none ↦
      if request_id == 0 || is_blank (trim_space code)
      then (t, g, no_result, invalid_input ∷ [])
      else after_submission p ctx
          (operation ctx now t g actor request_id (by_profile (code_action p rd code)))
]

-- A password is the list of its bytes.
unfoldable pub submit_password :
    AuthPorts → Context → Readings → ℕ → AuthTrace → Registry → ℕ → ℕ → Text → Answer AuthTrace
submit_password p ctx rd now t g actor request_id password =
    elim (validate_service_context ctx actor) [
      | some e ↦ (t, g, no_result, e ∷ [])
      | none ↦
          if request_id == 0 || is_blank password || ltb max_password_bytes (length password)
          then (t, g, no_result, invalid_input ∷ [])
          else after_submission p ctx
              (operation ctx now t g actor request_id (by_profile (password_action p rd password)))
    ]

unfoldable pub canceled_action : Readings → AuthTrace → ChallengeOperation → Option Failures → Acted
canceled_action rd t o (some e) = (t, o, raised e)
canceled_action rd t o none = (t, abort rd.ended_at o, [])

unfoldable pub cancel_action : AuthPorts → Readings → Action AuthTrace
cancel_action p rd t o =
    let (u, answer) = abort_lifecycle p t (held o).target in canceled_action rd u o answer

abbrev cancel_failure : Option Failures → Failures
cancel_failure none = []
cancel_failure (some e) = challenge_expired ∷ e

-- What `Cancel` makes of the failure of its operation: an abort that is remembered is none.
unfoldable pub cancel_verdict : Failures → Failures
cancel_verdict fs =
    if failure_is authentication_aborted fs
    then []
    else if failure_is runtime_challenge_not_found fs
    then challenge_not_found ∷ []
    else fs

-- The end of `Cancel`, which returns no result.
unfoldable pub canceled :
    AuthPorts → Context → Option Challenge → Answer AuthTrace → Answer AuthTrace
canceled p ctx none (t, g, result, fs) = (t, g, no_result, cancel_verdict fs)
canceled p ctx (some c) (t, g, result, fs) =
    let (u, h, failure) = expire_challenge p ctx t g c in (u, h, no_result, cancel_failure failure)

unfoldable pub after_cancel : AuthPorts → Context → Answer AuthTrace → Answer AuthTrace
after_cancel p ctx (t, g, result, fs) =
    canceled p ctx (expired_challenge fs result.challenge) (t, g, result, fs)

unfoldable pub cancel :
    AuthPorts → Context → Readings → ℕ → AuthTrace → Registry → ℕ → ℕ → Answer AuthTrace
cancel p ctx rd now t g actor request_id = elim (validate_service_context ctx actor) [
  | some e ↦ (t, g, no_result, e ∷ [])
  | none ↦
      if request_id == 0
      then (t, g, no_result, challenge_not_found ∷ [])
      else after_cancel p ctx (operation ctx now t g actor request_id (cancel_action p rd))
]

-- A request of an operator for a challenge.
pub data Request : Type 0 where
  gives_a_code : Text → Request
  gives_a_password : Text → Request
  cancels : Request

unfoldable pub serve :
    AuthPorts → Context → Readings → ℕ → AuthTrace → Registry → ℕ → ℕ → Request → Answer AuthTrace
serve p ctx rd now t g actor id (gives_a_code code) = submit_code p ctx rd now t g actor id code
serve p ctx rd now t g actor id (gives_a_password password) =
    submit_password p ctx rd now t g actor id password
serve p ctx rd now t g actor id cancels = cancel p ctx rd now t g actor id
