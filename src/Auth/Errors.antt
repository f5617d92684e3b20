-- ===== src/Auth/Errors.antt =====
-- operatoraccountauth/errors.go, service.go and challenge_registry.go: the package's errors, and the
-- contexts that its functions are called with.
use cresora.Prelude.{ℕ, Option, none, some, List, [], ◌∷◌, Bool, true, false, ◌||◌, ◌==◌}

pub data AuthError : Type 0 where
  invalid_input invalid_result invalid_begin_result invalid_authentication_expiry : AuthError
  invalid_retry_after account_not_found account_version_conflict account_state_conflict : AuthError
  challenge_not_found challenge_expired invalid_code password_required invalid_password : AuthError
  provider_unavailable provider_transient flood_wait unauthorized session_unavailable : AuthError
  authentication_aborted startup_recovery : AuthError
  attempts_exceeded service_closed challenge_capacity : AuthError
  runtime_challenge_expired runtime_challenge_not_found runtime_challenge_already_active : AuthError
  runtime_account_state_conflict runtime_capacity runtime_closed : AuthError
  context_canceled context_deadline_exceeded : AuthError
  foreign : ℕ → AuthError

-- A context as one call sees it: nil, live, or done with an error.
pub data Context : Type 0 where
  nil_context background canceled expired : Context

-- `runtimeContextError`.
unfoldable pub runtime_context_error : Context → Option AuthError
runtime_context_error nil_context = some invalid_input
runtime_context_error background = none
runtime_context_error canceled = some context_canceled
runtime_context_error expired = some context_deadline_exceeded

-- `mapChallengeError`.
unfoldable pub map_challenge_error : AuthError → AuthError
map_challenge_error runtime_challenge_expired = challenge_expired
map_challenge_error runtime_challenge_not_found = challenge_not_found
map_challenge_error runtime_challenge_already_active = account_state_conflict
map_challenge_error runtime_account_state_conflict = account_state_conflict
map_challenge_error runtime_capacity = challenge_capacity
map_challenge_error runtime_closed = service_closed
map_challenge_error e = e

-- A failure as `errors.Is` sees it: the package's errors in its tree, and the foreign ones; `nil` is
-- the empty list. Wrapping adds nothing to it, and `errors.Join` is `++`.
abbrev pub Failures : Type 0
Failures = List AuthError

abbrev pub failures_of : Option AuthError → Failures
failures_of none = []
failures_of (some e) = e ∷ []

abbrev pub is_nil : Failures → Bool
is_nil [] = true
is_nil (_ ∷ _) = false

-- `errors.Is(failure, target)` for the targets that the package asks about.
abbrev pub error_code : AuthError → ℕ
error_code unauthorized = 1
error_code session_unavailable = 2
error_code provider_unavailable = 3
error_code runtime_challenge_expired = 4
error_code runtime_challenge_not_found = 5
error_code authentication_aborted = 6
error_code password_required = 7
error_code runtime_closed = 8
error_code context_canceled = 9
error_code context_deadline_exceeded = 10
error_code invalid_code = 11
error_code invalid_password = 12
error_code provider_transient = 13
error_code flood_wait = 14
error_code challenge_expired = 15
error_code runtime_challenge_already_active = 16
error_code runtime_account_state_conflict = 17
error_code runtime_capacity = 18
error_code _ = 0

unfoldable pub failure_is : AuthError → Failures → Bool
failure_is target [] = false
failure_is target (e ∷ es) = error_code e == error_code target || failure_is target es
