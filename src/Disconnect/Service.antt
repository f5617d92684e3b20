-- ===== src/Disconnect/Service.antt =====
-- operatoraccounts/disconnect.go: the disconnect command of one actor's account.
pub mod Completion
pub mod Fence
pub mod Replies
use cresora.Prelude.{
  ℕ, Bool, true, false, ◌&&◌, ◌||◌, not, Option, none, some, List, [], ◌∷◌, ◌++◌, pos, ◌==◌,
  if◌then◌else◌,
}
use cresora.Prelude.Result.{Result, ok, err}
use cresora.Account.{
  Account, Status, same_status, active, reauth_required, authenticating, disconnected,
  disconnecting, no_failure, begin_disconnect, mark_disconnected,
}
use cresora.Auth.Errors.{Context, nil_context, background, canceled, expired}
use cresora.Auth.Challenge.{AuthTarget}
use cresora.Disconnect.Outcome.{
  Failure, DisconnectError, invalid_input, account_state_conflict, account_not_found,
  remote_logout_not_converged, domain_error, context_canceled, context_deadline_exceeded,
  RevokeOutcome, RemoteLogoutFailure, validate_outcome, failure_of, unwrap,
}
use cresora.Disconnect.Ports.{Ports, Trace, loads, persists, revokes}

-- `no_outcome` is the empty text.
pub data DisconnectOutcome : Type 0 where
  no_outcome completed already_disconnected pending rejected : DisconnectOutcome

pub record DisconnectResult : Type 0 where
  pub account : Account
  pub outcome : DisconnectOutcome

-- `Account{}`, whose status is the empty text.
abbrev pub blank_account : Account
blank_account = record {
  id = 0;
  status = Status.unlisted 0;
  version = 0;
  failure_code = no_failure;
  telegram_user_id = pos 0;
  auth_expires_at = 0;
  remote_logout_required = false;
}

-- What a command returns, after the calls that it made: the result and the error, if any.
abbrev pub Reply : Type 0
Reply = Trace × DisconnectResult × Option Failure

abbrev pub reply : Trace → Account → DisconnectOutcome → Option Failure → Reply
reply t a o e = (t, record { account = a; outcome = o }, e)

abbrev pub nothing : Trace → Failure → Reply
nothing t e = reply t blank_account no_outcome (some e)

abbrev pub context_failure : Context → Option Failure
context_failure nil_context = some (invalid_input ∷ [])
context_failure background = none
context_failure canceled = some (context_canceled ∷ [])
context_failure expired = some (context_deadline_exceeded ∷ [])

-- A nil context is refused with the other arguments, before its error is read.
unfoldable pub validate_disconnect_input : Context → ℕ → ℕ → Option Failure
validate_disconnect_input ctx actor account_id =
    if actor == 0 || account_id == 0 then some (invalid_input ∷ []) else context_failure ctx

unfoldable pub validate_runtime_target : AuthTarget → Option DisconnectError
validate_runtime_target t =
    if t.actor == 0
      || t.account_id == 0
      || t.version == 0
      || not (same_status t.status disconnecting)
    then some invalid_input
    else none

-- The target of an account's current snapshot.
abbrev pub target_of : ℕ → Account → AuthTarget
target_of actor a = record {
  actor = actor;
  account_id = a.id;
  status = a.status;
  version = a.version;
}

-- The two persistence calls that record what they were asked and answered.
abbrev pub load : Ports → Trace → ℕ → ℕ → Trace × Result Failure Account
load p t actor id = let answer = p.load_account t actor id in (loads actor id answer ∷ t, answer)

abbrev pub persist : Ports → Trace → ℕ → Account → ℕ → Trace × Option Failure
persist p t actor a version =
    let answer = p.persist_lifecycle t actor a version in
    (persists actor a version answer ∷ t, answer)

abbrev pub revoke : Ports → Trace → AuthTarget → Trace × RevokeOutcome
revoke p t target = let answer = p.revoke_and_stop t target in (revokes target answer ∷ t, answer)

-- The end of `revokeAndComplete`, once the remote session is gone.
unfoldable pub finish_disconnect : Ports → Trace → ℕ → Account → Reply
finish_disconnect p t actor a =
    let (b, refusal) = mark_disconnected a in
    let (u, failure) = persist p t actor b a.version in
    elim refusal [
      | some e ↦ reply t a pending (some (domain_error e ∷ []))
      | none ↦ elim failure [
        | some e ↦ reply u a pending (some e)
        | none ↦ reply u b completed none
      ]
    ]

abbrev not_converged : RemoteLogoutFailure → Failure
not_converged f = remote_logout_not_converged ∷ unwrap (some f) ∷ []

-- `revokeAndComplete` after the runtime has answered.
unfoldable pub complete_revoked : Ports → Trace → ℕ → Account → RevokeOutcome → Reply
complete_revoked p t actor a o = elim (validate_outcome o) [
  | some e ↦ reply t a pending (some (e ∷ []))
  | none ↦ elim (failure_of o) [
    | some f ↦ reply t a pending (some (not_converged f))
    | none ↦ finish_disconnect p t actor a
  ]
]

unfoldable pub revoke_and_complete : Ports → Trace → ℕ → Account → Reply
revoke_and_complete p t actor a = elim (validate_runtime_target (target_of actor a)) [
  | some e ↦ reply t a pending (some (e ∷ []))
  | none ↦ let (u, o) = revoke p t (target_of actor a) in complete_revoked p u actor a o
]

-- The service's `beginDisconnect`.
unfoldable pub begin_intent : Ports → Trace → ℕ → Account → Reply
begin_intent p t actor a =
    let (b, refusal) = begin_disconnect a in
    let (u, failure) = persist p t actor b a.version in
    elim refusal [
      | some e ↦ reply t b rejected (some (domain_error e ∷ []))
      | none ↦ elim failure [ some e ↦ nothing u e | none ↦ revoke_and_complete p u actor b ]
    ]

-- The switch of `Disconnect` on the status of the loaded account.
unfoldable pub disconnect_loaded : Ports → Trace → ℕ → Account → Status → Reply
disconnect_loaded p t actor a disconnected = reply t a already_disconnected none
disconnect_loaded p t actor a active = begin_intent p t actor a
disconnect_loaded p t actor a reauth_required = begin_intent p t actor a
disconnect_loaded p t actor a disconnecting =
    if not a.remote_logout_required
    then reply t a rejected (some (account_state_conflict ∷ []))
    else revoke_and_complete p t actor a
disconnect_loaded p t actor a authenticating =
    reply t a rejected (some (account_state_conflict ∷ []))
disconnect_loaded p t actor a (Status.unlisted _) = nothing t (invalid_input ∷ [])

-- `Disconnect` once the persistence has answered.
unfoldable pub disconnect_read : Ports → Trace → ℕ → ℕ → Result Failure Account → Reply
disconnect_read p t actor account_id (err e) = nothing t e
disconnect_read p t actor account_id (ok a) =
    if not (a.id == account_id)
    then nothing t (account_not_found ∷ [])
    else disconnect_loaded p t actor a a.status

unfoldable pub disconnect : Ports → Context → Trace → ℕ → ℕ → Reply
disconnect p ctx t actor account_id = elim (validate_disconnect_input ctx actor account_id) [
  | some e ↦ nothing t e
  | none ↦
      let (u, answer) = load p t actor account_id in disconnect_read p u actor account_id answer
]
