-- ===== src/Auth/Lifecycle.antt =====
-- operatoraccountauth/lifecycle.go and validateBeginResult: the durable side of an authentication.
pub mod Strict
pub mod Orphans
pub mod Asks
use cresora.Prelude.{
  ℕ, Bool, true, false, ◌||◌, not, Option, none, some, List, [], ◌∷◌, ◌++◌, ◌==◌, is_none,
  if◌then◌else◌,
}
use cresora.Prelude.Result.{Result, ok, err}
use cresora.Account.{Status, same_status, authenticating, active, disconnecting}
use cresora.Auth.Errors.{
  AuthError, Failures, invalid_input, invalid_begin_result, invalid_authentication_expiry,
  account_version_conflict, provider_unavailable, startup_recovery, Context, runtime_context_error,
}
use cresora.Auth.Challenge.{Text, AuthTarget, Profile, AccountView, validate_target}
use cresora.Auth.Ports.{
  AuthPorts, AuthTrace, BeginOutcome, started, resumed, in_progress, already_active, BeginResult,
  begins, finalizes, begins_abort, completes_abort, lists_orphans, stops,
}

-- An outcome that leaves the account authenticating.
abbrev admits : BeginResult → Option AuthError
admits r =
    if not (same_status r.account.status authenticating)
    then some invalid_begin_result
    else if r.auth_expires_at == 0
    then some invalid_authentication_expiry
    else none

-- `BeginResult.Validate`, by the outcome.
unfoldable pub validate_begin : BeginOutcome → BeginResult → Option AuthError
validate_begin started r = admits r
validate_begin resumed r = admits r
validate_begin in_progress r = admits r
validate_begin already_active r =
    if not (same_status r.account.status active)
    then some invalid_begin_result
    else if not (r.auth_expires_at == 0)
    then some invalid_authentication_expiry
    else none
validate_begin (BeginOutcome.unlisted _) r = some invalid_begin_result

unfoldable pub validate_begin_result : BeginResult → Option AuthError
validate_begin_result r = elim (validate_begin r.outcome r) [
  | some e ↦ some e
  | none ↦ if r.account.id == 0 || r.account.version == 0 then some invalid_input else none
]

unfoldable pub begun :
    AuthTrace → Result Failures BeginResult → AuthTrace × Result Failures BeginResult
begun t (err e) = (t, err e)
begun t (ok r) = elim (validate_begin_result r) [ some e ↦ (t, err (e ∷ [])) | none ↦ (t, ok r) ]

unfoldable pub begin_lifecycle :
    AuthPorts → AuthTrace → ℕ → Text → ℕ → AuthTrace × Result Failures BeginResult
begin_lifecycle p t actor phone expires_at =
    let answer = p.begin_or_resume t actor phone expires_at in
    begun (begins actor phone expires_at answer ∷ t) answer

-- `Finalize` passes the target's actor, account and version on.
unfoldable pub finalize_lifecycle :
    AuthPorts → AuthTrace → AuthTarget → Profile → AuthTrace × Result Failures AccountView
finalize_lifecycle p t target profile =
    let answer = p.finalize_account t target.actor target.account_id target.version profile in
    (finalizes target.actor target.account_id target.version profile answer ∷ t, answer)

-- The calls made, and the error, if any.
abbrev pub Done : Type 0
Done = AuthTrace × Option Failures

-- The end of an abort, once the runtime has answered.
unfoldable pub complete_stopped : AuthPorts → AuthTrace → AuthTarget → ℕ → Option Failures → Done
complete_stopped p t target version (some e) = (t, some e)
complete_stopped p t target version none =
    let answer = p.complete_abort t target.actor target.account_id version in
    (completes_abort target.actor target.account_id version answer ∷ t, answer)

-- The second and the third step of an abort, which `CompleteDisconnecting` consists of.
unfoldable pub stop_and_complete : AuthPorts → AuthTrace → AuthTarget → ℕ → Done
stop_and_complete p t target version =
    if not p.has_stopper
    then (t, some (provider_unavailable ∷ []))
    else (let answer = p.stop_account t target in
        complete_stopped p (stops target answer ∷ t) target version answer)

unfoldable pub abort_begun : AuthPorts → AuthTrace → AuthTarget → Result Failures ℕ → Done
abort_begun p t target (err e) = (t, some e)
abort_begun p t target (ok version) =
    if version == 0
    then (t, some (account_version_conflict ∷ []))
    else stop_and_complete p t target version

unfoldable pub abort_lifecycle : AuthPorts → AuthTrace → AuthTarget → Done
abort_lifecycle p t target = elim (validate_target target) [
  | some e ↦ (t, some (e ∷ []))
  | none ↦
      let answer = p.begin_abort t target.actor target.account_id target.version in
      abort_begun p (begins_abort target.actor target.account_id target.version answer ∷ t) target
        answer
]

unfoldable pub complete_disconnecting : AuthPorts → AuthTrace → AuthTarget → Done
complete_disconnecting p t target = stop_and_complete p t target target.version

-- The switch of `Recover` on the status of an orphan.
unfoldable pub recover_by_status : AuthPorts → AuthTrace → AuthTarget → Status → Done
recover_by_status p t target authenticating = abort_lifecycle p t target
recover_by_status p t target disconnecting = complete_disconnecting p t target
recover_by_status p t target _ = (t, some (invalid_input ∷ []))

unfoldable pub recover_orphan : AuthPorts → AuthTrace → AuthTarget → Done
recover_orphan p t target =
    if target.actor == 0 || target.account_id == 0 || target.version == 0
    then (t, some (invalid_input ∷ []))
    else recover_by_status p t target target.status

abbrev pub gathered : Option Failures → List Failures → List Failures
gathered none fs = fs
gathered (some e) fs = fs ++ (e ∷ [])

unfoldable pub recover_each :
    AuthPorts → AuthTrace → List AuthTarget → List Failures → AuthTrace × List Failures
recover_each p t [] fs = (t, fs)
recover_each p t (target ∷ targets) fs =
    let (u, failure) = recover_orphan p t target in recover_each p u targets (gathered failure fs)

abbrev all_of : List Failures → Failures
all_of [] = []
all_of (f ∷ fs) = f ++ all_of fs

abbrev pub verdict : List Failures → Option Failures
verdict [] = none
verdict (f ∷ fs) = some (startup_recovery ∷ all_of (f ∷ fs))

unfoldable pub recover_found : AuthPorts → AuthTrace → Result Failures (List AuthTarget) → Done
recover_found p t (err e) = (t, some (startup_recovery ∷ e))
recover_found p t (ok targets) = let (u, fs) = recover_each p t targets [] in (u, verdict fs)

unfoldable pub recover_orphans : AuthPorts → Context → AuthTrace → Done
recover_orphans p ctx t = elim (runtime_context_error ctx) [
  | some e ↦ (t, some (e ∷ []))
  | none ↦ let answer = p.list_orphans t in recover_found p (lists_orphans answer ∷ t) answer
]
