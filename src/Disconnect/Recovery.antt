-- ===== src/Disconnect/Recovery.antt =====
-- operatoraccounts/recovery.go: the recovery of remote logout intents when the program starts.
pub mod Count
pub mod Fenced
pub mod Once
use cresora.Prelude.{
  ℕ, ◌+◌, Bool, true, false, ◌&&◌, not, Option, none, some, List, [], ◌∷◌, ◌++◌, ◌==◌, nat_eq,
  if◌then◌else◌,
}
use cresora.Prelude.Maps.{Map, lookup, insert}
use cresora.Prelude.Result.{Result, ok, err}
use cresora.Account.{
  Account, Status, same_status, valid, disconnected, disconnecting, mark_disconnected,
}
use cresora.Auth.Errors.{Context}
use cresora.Auth.Challenge.{AuthTarget}
use cresora.Disconnect.Outcome.{
  Failure, DisconnectError, invalid_input, account_not_found, startup_recovery, domain_error,
  FailureKind, kind_eq, kind_of, RevokeOutcome, RemoteLogoutFailure, validate_outcome, failure_of,
}
use cresora.Disconnect.Ports.{Ports, Trace, lists}
use cresora.Disconnect.Service.{load, persist, revoke, validate_runtime_target, context_failure}

pub record RecoveryResult : Type 0 where
  pub attempted : ℕ
  pub completed : ℕ
  pub pending : ℕ
  pub skipped : ℕ
  pub pending_by_kind : Map FailureKind ℕ

abbrev pub new_recovery_result : RecoveryResult
new_recovery_result = record {
  attempted = 0;
  completed = 0;
  pending = 0;
  skipped = 0;
  pending_by_kind = [];
}

unfoldable pub matches_remote_logout_target : Account → AuthTarget → Bool
matches_remote_logout_target a t =
    a.id == t.account_id
    && same_status a.status disconnecting
    && a.remote_logout_required
    && a.version == t.version

unfoldable pub validate_recovery_snapshot : Account → AuthTarget → Option DisconnectError
validate_recovery_snapshot a t =
    if not (a.id == t.account_id)
    then some account_not_found
    else if a.version == 0
    then some invalid_input
    else if not (valid a.status)
    then some invalid_input
    else none

-- The calls made, the counters, and the error, if any; the counters are the caller's, by pointer.
abbrev pub Recovered : Type 0
Recovered = Trace × RecoveryResult × Option Failure

abbrev complete_one : RecoveryResult → RecoveryResult
complete_one r = record r { completed = r.completed + 1 }

abbrev skip_one : RecoveryResult → RecoveryResult
skip_one r = record r { skipped = r.skipped + 1 }

-- The value of a missing key is zero.
abbrev count_of : FailureKind → Map FailureKind ℕ → ℕ
count_of k m = elim (lookup k m) [ none ↦ 0 | some n ↦ n ]

abbrev delay_one : RemoteLogoutFailure → RecoveryResult → RecoveryResult
delay_one f r =
    let k = kind_of (some f) in
    record r {
      pending = r.pending + 1;
      pending_by_kind = insert k (count_of k r.pending_by_kind + 1) r.pending_by_kind;
    }

-- `recoverTarget` marks and persists the account that it found unchanged.
unfoldable pub finish_recovery : Ports → Trace → AuthTarget → Account → RecoveryResult → Recovered
finish_recovery p t target a r =
    let (b, refusal) = mark_disconnected a in
    let (u, failure) = persist p t target.actor b a.version in
    elim refusal [
      | some e ↦ (t, r, some (domain_error e ∷ []))
      | none ↦ elim failure [ some e ↦ (u, r, some e) | none ↦ (u, complete_one r, none) ]
    ]

-- `recoverTarget` after the account was read again.
unfoldable pub settle :
    Ports → Trace → AuthTarget → Option RemoteLogoutFailure → Account → RecoveryResult → Recovered
settle p t target failure a r = elim (validate_recovery_snapshot a target) [
  | some e ↦ (t, r, some (e ∷ []))
  | none ↦
      if not (matches_remote_logout_target a target)
      then (t, (if same_status a.status disconnected then complete_one r else skip_one r), none)
      else elim failure [
        | some f ↦ (t, delay_one f r, none)
        | none ↦ finish_recovery p t target a r
      ]
]

unfoldable pub reloaded :
    Ports
    → Trace
    → AuthTarget
    → Option RemoteLogoutFailure
    → Result Failure Account
    → RecoveryResult
    → Recovered
reloaded p t target failure (err e) r = (t, r, some e)
reloaded p t target failure (ok a) r = settle p t target failure a r

unfoldable pub reload :
    Ports → Trace → AuthTarget → Option RemoteLogoutFailure → RecoveryResult → Recovered
reload p t target failure r =
    let (u, answer) = load p t target.actor target.account_id in
    reloaded p u target failure answer r

unfoldable pub attempt : Ports → Trace → AuthTarget → RecoveryResult → Recovered
attempt p t target r =
    let (u, o) = revoke p t target in
    elim (validate_outcome o) [
      | some e ↦ (u, r, some (e ∷ []))
      | none ↦ reload p u target (failure_of o) r
    ]

unfoldable pub consider : Ports → Trace → AuthTarget → Account → RecoveryResult → Recovered
consider p t target a r = elim (validate_recovery_snapshot a target) [
  | some e ↦ (t, r, some (e ∷ []))
  | none ↦
      if not (matches_remote_logout_target a target)
      then (t, skip_one r, none)
      else attempt p t target (record r { attempted = r.attempted + 1 })
]

unfoldable pub considered :
    Ports → Trace → AuthTarget → Result Failure Account → RecoveryResult → Recovered
considered p t target (err e) r = (t, r, some e)
considered p t target (ok a) r = consider p t target a r

unfoldable pub recover_target : Ports → Trace → AuthTarget → RecoveryResult → Recovered
recover_target p t target r = elim (validate_runtime_target target) [
  | some e ↦ (t, r, some (e ∷ []))
  | none ↦
      let (u, answer) = load p t target.actor target.account_id in considered p u target answer r
]

-- The loop over the targets: those of an account that was seen are passed over, and the failures
-- are gathered.
abbrev pub noted : Option Failure → List Failure → List Failure
noted none fs = fs
noted (some e) fs = fs ++ (e ∷ [])

unfoldable pub recover_targets :
    Ports
    → Trace
    → Map {0, 0} ℕ Unit
    → List AuthTarget
    → RecoveryResult
    → List Failure
    → Trace × RecoveryResult × List Failure
recover_targets p t seen [] r fs = (t, r, fs)
recover_targets p t seen (target ∷ targets) r fs = elim (lookup target.account_id seen) [
  | some _ ↦ recover_targets p t seen targets r fs
  | none ↦
      let (u, s, failure) = recover_target p t target r in
      recover_targets p u (insert target.account_id tt seen) targets s (noted failure fs)
]

abbrev joined : List Failure → Failure
joined [] = []
joined (f ∷ fs) = f ++ joined fs

abbrev report : List Failure → Option Failure
report [] = none
report (f ∷ fs) = some (startup_recovery ∷ joined (f ∷ fs))

unfoldable pub recover_listed : Ports → Trace → Result Failure (List AuthTarget) → Recovered
recover_listed p t (err e) = (t, new_recovery_result, some (startup_recovery ∷ e))
recover_listed p t (ok targets) =
    let (u, r, fs) = recover_targets p t [] targets new_recovery_result [] in (u, r, report fs)

unfoldable pub recover : Ports → Context → Trace → Recovered
recover p ctx t = elim (context_failure ctx) [
  | some e ↦ (t, new_recovery_result, some e)
  | none ↦ let answer = p.list_remote_logout_intents t in recover_listed p (lists answer ∷ t) answer
]
