-- ===== src/Examples/Signins.antt =====
-- Sign-ins: the authentication service of internal/application/operatoraccountauth.
use cresora.Prelude.{OnSome, false, ◌+◌, ◌≤◌, ◌≡◌, refl, true, some, none, [], ◌∷◌, pos, nat_eq}
use cresora.Prelude.Maps.{lookup}
use cresora.Prelude.Result.{ok, err}
use cresora.Account.{disconnecting}
use cresora.Auth.Errors.{background, runtime_context_error, unauthorized, failure_is}
use cresora.Auth.Challenge.{AuthTarget, validate_target}
use cresora.Auth.Registry.{Registry, store, current, points_to}
use cresora.Auth.Registry.Invariant.{Inv}
use cresora.Auth.Methods.{commit, owned, commit_pointer, attach, capped_expiry}
use cresora.Auth.Methods.Keeps.{commit-Inv}
use cresora.Auth.Diagnosis.{
  classify_hint, classify_retry, new_retry_after_error, as_retry_after, classes_of, class_of_cause,
  sentinel, retry_after, IsSafe, classify_provider_failure, classify_provider_failure-IsSafe,
}
use cresora.Auth.Ports.{AuthPorts, started}
use cresora.Auth.Lifecycle.{
  abort_lifecycle, recover_orphans, recover_found, recover_each, recover_orphan, recover_by_status,
  abort_begun, stop_and_complete, complete_stopped, complete_disconnecting,
}
use cresora.Auth.Lifecycle.Strict.{IsStrict, abort_lifecycle-IsStrict}
use cresora.Auth.Lifecycle.Orphans.{completions}
use cresora.Auth.Lifecycle.Asks.{sign_ins}
use cresora.Auth.Submission.{Readings}
use cresora.Auth.Submission.Keeps.{Sound}
use cresora.Auth.Submission.Attempts.{attempts}
use cresora.Auth.Requests.{serve, submit_code, cancels}
use cresora.Auth.Requests.Orders.{Fine, serve-Fine}
use cresora.Auth.Requests.Attempts.{submit_code_pays}
use cresora.Auth.Start.{StartReadings, start}
use cresora.Auth.Start.Keeps.{start-Fine}
use cresora.Examples.Challenges.{target, admitted, admitted-Inv, view}

abbrev leaving : AuthTarget
leaving = record { actor = 2; account_id = 20; status = disconnecting; version = 5 }

-- Ports whose provider refuses every code and whose other calls succeed.
abbrev ports : AuthPorts
ports = record {
  has_provider = true;
  has_stopper = true;
  begin_or_resume = λ t actor number expires.
      ok (record { account = view; outcome = started; auth_expires_at = 100 });
  finalize_account = λ t actor id version profile. ok view;
  begin_abort = λ t actor id version. ok 3;
  complete_abort = λ t actor id version. none;
  list_orphans = λ t. ok (target ∷ leaving ∷ []);
  stop_account = λ t goal. none;
  send_code =
      λ t goal number. ok (record { phone_code_hash = b'h' ∷ []; delivery = []; expires_at = 0 });
  sign_in = λ t goal number code hash. err (sentinel unauthorized ∷ []);
  password = λ t goal password. err (sentinel unauthorized ∷ []);
}

abbrev readings : Readings
readings = record {
  provider_context = background;
  failure_context = background;
  classified_at = 20;
  finalized_at = 21;
  ended_at = 22;
}

-- The challenge is ready once the code was sent.
abbrev ready : Registry
ready =
    (commit background 6 7 admitted (record { pointer = some 0; challenge = none; created = true })
      (record { phone_code_hash = b'h' ∷ []; delivery = []; expires_at = 90 })).0

ready-Inv : Inv ready
ready-Inv =
    commit-Inv background 6 7 admitted
      (record { pointer = some 0; challenge = none; created = true })
      (record { phone_code_hash = b'h' ∷ []; delivery = []; expires_at = 90 }) admitted-Inv

ready-Sound : Sound [] ready
unfolding IsStrict
ready-Sound = (tt, ready-Inv)

-- A retry hint of a minute is cut to the ten seconds that the challenge has left.
classify_test : classify_provider_failure (retry_after (pos 60) ∷ []) 100 90 ≡ retry_after (pos 10)
unfolding classify_provider_failure classify_hint classify_retry new_retry_after_error
    as_retry_after classes_of class_of_cause failure_is
classify_test = refl

-- Both orphans are brought to an end.
recover_orphans_test : completions (recover_orphans ports background []).0 ≡ 2
unfolding completions recover_orphans recover_found recover_each recover_orphan recover_by_status
    abort_lifecycle abort_begun stop_and_complete complete_stopped complete_disconnecting
    runtime_context_error validate_target
recover_orphans_test = refl

classify_provider_failure-IsSafe_example :
    IsSafe
      (retry_after (pos 60) ∷ [])
      100
      90
      (classify_provider_failure (retry_after (pos 60) ∷ []) 100 90)
classify_provider_failure-IsSafe_example =
    classify_provider_failure-IsSafe (retry_after (pos 60) ∷ []) 100 90

abort_lifecycle-IsStrict_example : IsStrict (abort_lifecycle ports [] target).0
unfolding IsStrict
abort_lifecycle-IsStrict_example = abort_lifecycle-IsStrict ports [] target tt

serve-Fine_example : Fine (serve ports background readings 10 [] ready 1 11 cancels)
serve-Fine_example = serve-Fine ports background readings 10 [] ready 1 11 cancels ready-Sound

owned_there : owned ready 1 11 ≡ some 0
unfolding owned commit commit_pointer attach lookup store current points_to capped_expiry
    runtime_context_error
owned_there = refl

submit_code_pays_example :
    let (u, h, result, fs) =
      submit_code ports background readings 10 [] ready 1 11 (b'1' ∷ b'2' ∷ []) in
    (sign_ins u ≤ sign_ins [] + 1)
    × (sign_ins u + attempts 0 ready ≤ sign_ins [] + attempts 0 h)
    × (attempts 0 h ≤ 5)
submit_code_pays_example =
    submit_code_pays ports background readings 10 [] ready 1 11 0 (b'1' ∷ b'2' ∷ []) ready-Sound
      owned_there

abbrev start_readings : StartReadings
start_readings = record {
  started_at = 1;
  cleaned_at = 1;
  prepared_at = 2;
  drawn = 12 ∷ [];
  sent_context = background;
  committed_before = 3;
  committed_after = 4;
  failed_at = 4;
  failure_context = background;
  classified_at = 5;
}

start-Fine_example : OnSome Fine (
    start ports background start_readings [] ready false 9
      (b'+' ∷ b'4' ∷ b'4' ∷ b'2' ∷ b'0' ∷ b'1' ∷ b'2' ∷ b'3' ∷ b'4' ∷ []))
start-Fine_example =
    start-Fine ports background start_readings [] ready false 9
      (b'+' ∷ b'4' ∷ b'4' ∷ b'2' ∷ b'0' ∷ b'1' ∷ b'2' ∷ b'3' ∷ b'4' ∷ []) ready-Sound
