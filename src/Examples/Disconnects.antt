-- ===== src/Examples/Disconnects.antt =====
-- Disconnects: internal/application/operatoraccounts.
use cresora.Prelude.{◌≤◌, ◌≡◌, ◌+◌, true, false, none, some, [], ◌∷◌, pos, refl, arith, length}
use cresora.Prelude.Result.{ok}
use cresora.Prelude.Maps.{lookup, insert}
use cresora.Account.{
  Account, active, disconnecting, no_failure, begin_disconnect, mark_disconnected, valid,
}
use cresora.Auth.Errors.{background}
use cresora.Auth.Challenge.{AuthTarget}
use cresora.Disconnect.Outcome.{
  RevokeOutcome, revoke_succeeded, failed, transient, validate_outcome, failure_of,
  validate_failure, unwrap, RemoteLogoutFailure, remote_logout_not_converged,
  remote_logout_transient,
}
use cresora.Disconnect.Ports.{Ports}
use cresora.Disconnect.Service.{
  disconnect, disconnect_read, disconnect_loaded, begin_intent, revoke_and_complete,
  complete_revoked, finish_disconnect, validate_runtime_target, validate_disconnect_input,
}
use cresora.Disconnect.Service.Fence.{IsFenced, disconnect-IsFenced}
use cresora.Disconnect.Service.Replies.{IsHonest, disconnect-IsHonest}
use cresora.Disconnect.Service.Completion.{Completes, Serves, disconnect-Completes}
use cresora.Disconnect.Recovery.{
  recover, recover_targets, new_recovery_result, recover_listed, recover_target, considered,
  consider, attempt, reload, reloaded, settle, finish_recovery, validate_recovery_snapshot,
  matches_remote_logout_target,
}
use cresora.Disconnect.Recovery.Fenced.{recover-IsFenced}
use cresora.Disconnect.Recovery.Count.{revocations, total, firsts, recover_targets-books}
use cresora.Disconnect.Recovery.Once.{asked, recover-asks_once}

abbrev signed_in : Account
signed_in = record {
  id = 7;
  status = active;
  version = 3;
  failure_code = no_failure;
  telegram_user_id = pos 42;
  auth_expires_at = 0;
  remote_logout_required = false;
}

-- An account whose remote logout is wanted.
abbrev leaving : Account
leaving = record signed_in { status = disconnecting; version = 4; remote_logout_required = true }

abbrev intent : AuthTarget
intent = record { actor = 5; account_id = 7; status = disconnecting; version = 4 }

-- Ports that serve the account `a` and answer every revocation alike.
abbrev ports_of : Account → RevokeOutcome → Ports
ports_of a outcome = record {
  load_account = λ t actor id. ok a;
  persist_lifecycle = λ t actor b v. none;
  list_remote_logout_intents = λ t. ok (intent ∷ intent ∷ []);
  revoke_and_stop = λ t target. outcome;
}

abbrev calm : Ports
calm = ports_of signed_in revoke_succeeded

abbrev slow : RemoteLogoutFailure
slow = record { kind = transient; retry_after = pos 0 }

abbrev failing : RevokeOutcome
failing = record { kind = failed; failure = some slow }

-- A disconnect goes through at once; one whose revocation fails is pending, with its class.
disconnect_test : (disconnect calm background [] 5 7).1.account.version ≡ 5
unfolding disconnect disconnect_read disconnect_loaded begin_intent revoke_and_complete
    complete_revoked finish_disconnect validate_runtime_target validate_disconnect_input
    validate_outcome failure_of begin_disconnect mark_disconnected validate_failure
disconnect_test = refl

pending_test :
    (disconnect (ports_of signed_in failing) background [] 5 7).2
    ≡ some (remote_logout_not_converged ∷ remote_logout_transient ∷ [])
unfolding disconnect disconnect_read disconnect_loaded begin_intent revoke_and_complete
    complete_revoked finish_disconnect validate_runtime_target validate_disconnect_input
    validate_outcome failure_of begin_disconnect mark_disconnected validate_failure unwrap
pending_test = refl

-- The second of two equal intents is passed over.
recover_test : (recover (ports_of leaving revoke_succeeded) background []).1.completed ≡ 1
unfolding recover recover_listed recover_targets recover_target considered consider attempt reload
    reloaded settle finish_recovery validate_recovery_snapshot matches_remote_logout_target
    validate_runtime_target validate_outcome failure_of mark_disconnected valid lookup insert
recover_test = refl

disconnect-IsFenced_example : IsFenced (disconnect calm background [] 5 7).0
unfolding IsFenced
disconnect-IsFenced_example = disconnect-IsFenced calm background [] 5 7 tt

recover-IsFenced_example : IsFenced (recover (ports_of leaving revoke_succeeded) background []).0
unfolding IsFenced
recover-IsFenced_example = recover-IsFenced (ports_of leaving revoke_succeeded) background [] tt

disconnect-IsHonest_example :
    IsHonest 5 7 [] (disconnect (ports_of signed_in failing) background [] 5 7)
disconnect-IsHonest_example = disconnect-IsHonest (ports_of signed_in failing) background [] 5 7

calm-Serves : Serves calm 5 signed_in
unfolding validate_outcome failure_of
calm-Serves = record {
  loaded = λ u. refl;
  taken = λ u b v. refl;
  valid = λ u target. refl;
  clean = λ u target. refl;
}

disconnect-Completes_example :
    Completes
      (mark_disconnected (begin_disconnect signed_in).0).0
      (disconnect calm background [] 5 7)
disconnect-Completes_example =
    disconnect-Completes calm [] 5 signed_in calm-Serves (omega arith) (omega arith) (omega arith)
      refl

recover_targets-books_example :
    let (u, s, gs) =
      recover_targets
        (ports_of leaving failing)
        []
        []
        (intent ∷ intent ∷ [])
        new_recovery_result
        [] in
    (s.completed + s.pending + s.skipped + length gs ≡ firsts [] (intent ∷ intent ∷ []))
    × (s.attempted + revocations [] ≡ revocations u)
    × (total s.pending_by_kind ≡ s.pending)
recover_targets-books_example =
    recover_targets-books (ports_of leaving failing) [] (intent ∷ intent ∷ [])

recover-asks_once_example :
    asked 7 (recover (ports_of leaving failing) background []).0 ≤ asked 7 [] + 1
recover-asks_once_example = recover-asks_once (ports_of leaving failing) background [] 7
