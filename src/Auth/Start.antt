-- ===== src/Auth/Start.antt =====
-- operatoraccountauth/start.go: the start of a sign-in, which admits the account durably, reserves a
-- challenge and has the provider send the code.
pub mod Keeps
use cresora.Prelude.{
  ℕ, ◌+◌, Bool, true, false, ◌||◌, ◌&&◌, not, Option, none, some, List, [], ◌∷◌, ◌++◌, ltb, is_none,
  if◌then◌else◌,
}
use cresora.Prelude.Result.{Result, ok, err}
use cresora.Account.{Status}
use cresora.Auth.Errors.{
  AuthError, Failures, failures_of, failure_is, invalid_input, challenge_expired,
  provider_unavailable, authentication_aborted, service_closed, runtime_challenge_expired,
  runtime_closed, map_challenge_error, Context, background, runtime_context_error,
}
use cresora.Auth.Phone.{normalize_phone}
use cresora.Auth.Challenge.{
  Text, AuthTarget, same_target, no_stage, AccountView, Challenge, SendCodeResult,
}
use cresora.Auth.Registry.{Registry, Reservation, Outcome, prepare}
use cresora.Auth.Methods.{commit, rollback}
use cresora.Auth.Operation.{Answer, no_result, account_result}
use cresora.Auth.Diagnosis.{class_of_cause, classify_provider_failure, is_abort_provider_failure}
use cresora.Auth.Ports.{
  AuthPorts, AuthTrace, BeginOutcome, already_active, BeginResult, ProviderError, sends_code,
}
use cresora.Auth.Lifecycle.{abort_lifecycle, begin_lifecycle}
use cresora.Auth.Submission.{raised}
use cresora.Auth.Requests.{validate_service_context, Expired, expire_challenge, expiry_failure}

-- What a start reads on its way: the clock, the identities that are drawn, and its context after the
-- provider has answered.
pub record StartReadings : Type 0 where
  pub started_at : ℕ
  pub cleaned_at : ℕ
  pub prepared_at : ℕ
  pub drawn : List ℕ
  pub sent_context : Context
  pub committed_before : ℕ
  pub committed_after : ℕ
  pub failed_at : ℕ
  pub failure_context : Context
  pub classified_at : ℕ

abbrev pub auth_target : ℕ → AccountView → AuthTarget
auth_target actor account = record {
  actor = actor;
  account_id = account.id;
  status = account.status;
  version = account.version;
}

-- `Challenge{}`, which a reservation without a record holds.
abbrev pub blank_challenge : Challenge
blank_challenge = record {
  request_id = 0;
  target = record { actor = 0; account_id = 0; status = Status.unlisted 0; version = 0 };
  phone = [];
  delivery = [];
  stage = no_stage;
  expires_at = 0;
}

abbrev pub challenge_of : Reservation → Challenge
challenge_of r = elim r.challenge [ none ↦ blank_challenge | some c ↦ c ]

abbrev pub shown : AuthTrace → Registry → Challenge → Answer AuthTrace
shown t g c = (t, g, record no_result { challenge = some c }, [])

abbrev added : Option Failures → Failures
added none = []
added (some e) = raised e

-- `expireErr`, if it is more than `ErrChallengeExpired`.
abbrev joined_expiry : Option Failures → Failures
joined_expiry none = []
joined_expiry (some e) = challenge_expired ∷ e

-- An abort after a failure, which then stands first.
unfoldable pub abort_after :
    AuthPorts → AuthTrace → Registry → AuthTarget → Failures → Answer AuthTrace
abort_after p t g target failure =
    let (u, answer) = abort_lifecycle p t target in (u, g, no_result, failure ++ added answer)

-- `abortProviderFailure`.
unfoldable pub abort_provider_failure :
    AuthPorts → AuthTrace → Registry → AuthTarget → Failures → Answer AuthTrace
abort_provider_failure p t g target failure =
    let (u, answer) = abort_lifecycle p t target in
    elim answer [
      | some e ↦ (u, g, no_result, failure ++ raised e)
      | none ↦ (u, g, no_result, failure ++ (authentication_aborted ∷ []))
    ]

-- The expired challenge may be this target's own, which `expireChallenge` has then aborted.
unfoldable pub after_expiry : AuthPorts → AuthTarget → Challenge → Expired → Answer AuthTrace
after_expiry p target c (t, g, failure) =
    if is_none failure && same_target c.target target
    then (t, g, no_result, challenge_expired ∷ [])
    else abort_after p t g target (challenge_expired ∷ joined_expiry failure)

unfoldable pub handle_prepare_failure :
    AuthPorts
    → Context
    → AuthTrace
    → Registry
    → AuthTarget
    → Reservation
    → AuthError
    → Answer AuthTrace
handle_prepare_failure p ctx t g target reservation e =
    let c = challenge_of reservation in
    if failure_is runtime_challenge_expired (e ∷ [])
    then after_expiry p target c (expire_challenge p ctx t g c)
    else abort_after p t g target (map_challenge_error e ∷ [])

unfoldable pub answered_expiry : Expired → Answer AuthTrace
answered_expiry (t, g, failure) = (t, g, no_result, expiry_failure failure)

unfoldable pub handle_send_code_failure :
    AuthPorts
    → Context
    → StartReadings
    → AuthTrace
    → Registry
    → AuthTarget
    → Reservation
    → ProviderError
    → Answer AuthTrace
handle_send_code_failure p ctx rd t g target reservation causes =
    let c = challenge_of reservation in
    let h = (rollback background g reservation).0 in
    let failure =
      class_of_cause (classify_provider_failure causes c.expires_at rd.classified_at) ∷ [] in
    if not (ltb rd.failed_at c.expires_at)
    then answered_expiry (expire_challenge p ctx t g c)
    else elim (runtime_context_error rd.failure_context) [
      | some e ↦ (t, h, no_result, e ∷ [])
      | none ↦
          if is_abort_provider_failure causes
          then abort_provider_failure p t h target failure
          else (t, h, no_result, failure)
    ]

unfoldable pub handle_attach_failure :
    AuthPorts
    → Context
    → AuthTrace
    → Registry
    → AuthTarget
    → Reservation
    → AuthError
    → Answer AuthTrace
handle_attach_failure p ctx t g target reservation e =
    if failure_is runtime_challenge_expired (e ∷ [])
    then answered_expiry (expire_challenge p ctx t g (challenge_of reservation))
    else if failure_is runtime_closed (e ∷ [])
    then abort_after p t g target (service_closed ∷ [])
    else (t, (rollback background g reservation).0, no_result, map_challenge_error e ∷ [])

-- `Commit` reports a challenge exactly if it has no error.
unfoldable pub attached :
    AuthPorts
    → Context
    → AuthTrace
    → AuthTarget
    → Reservation
    → Outcome (Option Challenge)
    → Answer AuthTrace
attached p ctx t target reservation (g, c, some e) =
    handle_attach_failure p ctx t g target reservation e
attached p ctx t target reservation (g, none, none) = shown t g blank_challenge
attached p ctx t target reservation (g, some c, none) = shown t g c

unfoldable pub sent :
    AuthPorts
    → Context
    → StartReadings
    → AuthTrace
    → Registry
    → AuthTarget
    → Reservation
    → Result ProviderError SendCodeResult
    → Answer AuthTrace
sent p ctx rd t g target reservation (err causes) =
    handle_send_code_failure p ctx rd t g target reservation causes
sent p ctx rd t g target reservation (ok result) =
    attached p ctx t target reservation
      (commit rd.sent_context rd.committed_before rd.committed_after g reservation result)

unfoldable pub send_code :
    AuthPorts
    → Context
    → StartReadings
    → AuthTrace
    → Registry
    → AuthTarget
    → Text
    → Reservation
    → Answer AuthTrace
send_code p ctx rd t g target phone reservation =
    if not p.has_provider
    then abort_provider_failure p t (rollback background g reservation).0 target
        (provider_unavailable ∷ [])
    else (let answer = p.send_code t target phone in
        sent p ctx rd (sends_code target phone answer ∷ t) g target reservation answer)

-- A reservation that was created, or the challenge that exists.
unfoldable pub reserved :
    AuthPorts
    → Context
    → StartReadings
    → AuthTrace
    → Registry
    → AuthTarget
    → Text
    → Reservation
    → Bool
    → Answer AuthTrace
reserved p ctx rd t g target phone reservation false = shown t g (challenge_of reservation)
reserved p ctx rd t g target phone reservation true =
    send_code p ctx rd t g target phone reservation

-- After `Prepare`; `none` if no identity was drawn.
unfoldable pub prepared :
    AuthPorts
    → Context
    → StartReadings
    → AuthTrace
    → AuthTarget
    → Text
    → Option (Outcome Reservation)
    → Option (Answer AuthTrace)
prepared p ctx rd t target phone none = none
prepared p ctx rd t target phone (some (g, reservation, some e)) =
    some (handle_prepare_failure p ctx t g target reservation e)
prepared p ctx rd t target phone (some (g, reservation, none)) =
    some (reserved p ctx rd t g target phone reservation reservation.created)

unfoldable pub admitted_as :
    AuthPorts
    → Context
    → StartReadings
    → AuthTrace
    → Registry
    → ℕ
    → Text
    → BeginResult
    → BeginOutcome
    → Option (Answer AuthTrace)
admitted_as p ctx rd t g actor phone begin already_active =
    some (t, g, account_result begin.account, [])
admitted_as p ctx rd t g actor phone begin _ =
    let target = auth_target actor begin.account in
    prepared p ctx rd t target phone
      (prepare ctx rd.cleaned_at rd.prepared_at g target phone begin.auth_expires_at rd.drawn)

unfoldable pub admitted :
    AuthPorts
    → Context
    → StartReadings
    → AuthTrace
    → Registry
    → ℕ
    → Text
    → Result Failures BeginResult
    → Option (Answer AuthTrace)
admitted p ctx rd t g actor phone (err e) = some (t, g, no_result, raised e)
admitted p ctx rd t g actor phone (ok begin) =
    admitted_as p ctx rd t g actor phone begin begin.outcome

unfoldable pub start_normalized :
    AuthPorts
    → Context
    → StartReadings
    → AuthTrace
    → Registry
    → Bool
    → ℕ
    → Option Text
    → Option (Answer AuthTrace)
start_normalized p ctx rd t g closed actor none = some (t, g, no_result, invalid_input ∷ [])
start_normalized p ctx rd t g true actor (some phone) = some (t, g, no_result, service_closed ∷ [])
start_normalized p ctx rd t g false actor (some phone) =
    let (u, begin) = begin_lifecycle p t actor phone (rd.started_at + g.ttl) in
    admitted p ctx rd u g actor phone begin

-- `Start`; the service and its registry have the same lifetime of a challenge, and the admission gate
-- is closed or open.
unfoldable pub start :
    AuthPorts
    → Context
    → StartReadings
    → AuthTrace
    → Registry
    → Bool
    → ℕ
    → Text
    → Option (Answer AuthTrace)
start p ctx rd t g closed actor phone = elim (validate_service_context ctx actor) [
  | some e ↦ some (t, g, no_result, e ∷ [])
  | none ↦ start_normalized p ctx rd t g closed actor (normalize_phone phone)
]
