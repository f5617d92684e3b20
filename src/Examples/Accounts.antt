-- ===== src/Examples/Accounts.antt =====
-- Operator accounts: internal/domain/operatoraccount.
use cresora.Prelude.{◌≡◌, ◌↔◌, true, false, none, some, List, [], ◌∷◌, pos, negsuc, arith, refl}
use cresora.Prelude.Result.{err}
use cresora.Account.{
  Account, active, disconnected, disconnecting, no_failure, max_version, new, validate, restore,
  invalid_state, logout_repeated, begins_authentication, activates, begins_disconnect,
  marks_disconnected, begin_authentication, activate, begin_disconnect, mark_disconnected, call,
  history, Operation,
}
use cresora.Account.Invariant.{IsValid, validate_iff, call-IsValid, validate-history}
use cresora.Account.Graph.{Effect, call-Effect}

abbrev fresh : Account
fresh = record {
  id = 7;
  status = disconnected;
  version = 1;
  failure_code = no_failure;
  telegram_user_id = pos 0;
  auth_expires_at = 0;
  remote_logout_required = false;
}

abbrev signed_in : Account
signed_in = record fresh { status = active; version = 3; telegram_user_id = pos 42 }

abbrev last_version : Account
last_version = record signed_in { version = max_version }

abbrev calls : List Operation
calls =
    begins_authentication 100
    ∷ activates (negsuc 0)
    ∷ activates (pos 42)
    ∷ marks_disconnected
    ∷ begins_disconnect
    ∷ []

abbrev departing : Account
departing = record signed_in { status = disconnecting; version = 4; remote_logout_required = true }

-- The two failing calls leave no trace.
history_runs : history fresh calls ≡ departing
unfolding history call begin_authentication activate begin_disconnect mark_disconnected
history_runs = refl

restore_twice :
    restore 7 disconnected 1 no_failure (pos 0) 0 (false ∷ true ∷ [])
    ≡ err (invalid_state logout_repeated)
unfolding restore
restore_twice = refl

signed_in-IsValid : IsValid signed_in
signed_in-IsValid = ground arith

validate_iff_example : (validate signed_in ≡ none) ↔ IsValid signed_in
validate_iff_example = validate_iff signed_in

call-IsValid_example : IsValid (call signed_in begins_disconnect).0
call-IsValid_example = call-IsValid signed_in begins_disconnect signed_in-IsValid

created : new 7 ≡ some fresh
unfolding new
created = refl

validate-history_example : validate (history fresh calls) ≡ none
validate-history_example = validate-history 7 fresh calls created

call-Effect_example :
    Effect signed_in (call signed_in begins_disconnect).0 (call signed_in begins_disconnect).1
call-Effect_example = call-Effect signed_in begins_disconnect

begin_disconnect_succeeds : (begin_disconnect signed_in).1 ≡ none
unfolding begin_disconnect
begin_disconnect_succeeds = refl
