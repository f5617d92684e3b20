-- ===== src/Disconnect/Outcome.antt =====
-- operatoraccounts/errors.go, remote_failure.go and revoke_outcome.go: the errors of the package and
-- the two closed result types of the runtime port.
use cresora.Prelude.{
  ℕ, ◌+◌, ◌-◌, ◌≡◌, ◌↔◌, Bool, true, false, ◌&&◌, ◌||◌, not, Option, none, some, List, ℤ, pos,
  negsuc, is_positive, is_zero, is_none, arith, refl, ◌==◌, Eq, if◌then◌else◌,
}
use cresora.Prelude.Result.{Result, ok, err}
use cresora.Account.{AccountError}

pub data DisconnectError : Type 0 where
  invalid_input account_state_conflict account_not_found account_version_conflict : DisconnectError
  remote_logout_not_converged remote_logout_flood_wait remote_logout_transient : DisconnectError
  remote_logout_ambiguous remote_logout_permanent runtime_unavailable : DisconnectError
  startup_recovery invalid_remote_logout_failure invalid_runtime_outcome : DisconnectError
  context_canceled context_deadline_exceeded : DisconnectError
  domain_error : AccountError → DisconnectError
  foreign : ℕ → DisconnectError

-- A failure as `errors.Is` sees it: wrapping adds nothing, and a second `%w` or `errors.Join` is `++`.
abbrev pub Failure : Type 0
Failure = List DisconnectError

-- `unknown` is the empty text, and `unlisted` numbers the texts that are no constant.
pub data FailureKind : Type 0 where
  unknown flood_wait transient ambiguous permanent unavailable : FailureKind
  unlisted : ℕ → FailureKind

abbrev pub kind_code : FailureKind → ℕ
kind_code unknown = 0
kind_code flood_wait = 1
kind_code transient = 2
kind_code ambiguous = 3
kind_code permanent = 4
kind_code unavailable = 5
kind_code (unlisted n) = n + 6

-- `==` on kinds.
abbrev pub same_kind : FailureKind → FailureKind → Bool
same_kind j k = kind_code j == kind_code k

abbrev kind_of_code : ℕ → FailureKind
kind_of_code n =
    if n == 0
    then unknown
    else if n == 1
    then flood_wait
    else if n == 2
    then transient
    else if n == 3
    then ambiguous
    else if n == 4
    then permanent
    else if n == 5
    then unavailable
    else unlisted (n - 6)

kind_of_code_lem : (k : FailureKind) → kind_of_code (kind_code k) ≡ k
kind_of_code_lem unknown = refl
kind_of_code_lem flood_wait = refl
kind_of_code_lem transient = refl
kind_of_code_lem ambiguous = refl
kind_of_code_lem permanent = refl
kind_of_code_lem unavailable = refl
kind_of_code_lem (unlisted n) = ground arith

pub same_kind_iff : (j k : FailureKind) → (same_kind j k ≡ true) ↔ (j ≡ k)
same_kind_iff j k = ground (arith, kind_of_code_lem j, kind_of_code_lem k)

instance abbrev pub kind_eq : Eq FailureKind
kind_eq = record { beq = same_kind; beq_iff = same_kind_iff }

pub record RemoteLogoutFailure : Type 0 where
  pub kind : FailureKind
  pub retry_after : ℤ

unfoldable pub valid_kind : FailureKind → Bool
valid_kind unknown = false
valid_kind (unlisted _) = false
valid_kind _ = true

-- The methods' receiver may be a nil pointer.
unfoldable pub validate_failure : Option RemoteLogoutFailure → Option DisconnectError
unfolding valid_kind
validate_failure none = some invalid_remote_logout_failure
validate_failure (some f) =
    if not (valid_kind f.kind)
    then some invalid_remote_logout_failure
    else if same_kind f.kind flood_wait
    then (if not (is_positive f.retry_after) then some invalid_remote_logout_failure else none)
    else if not (is_zero f.retry_after)
    then some invalid_remote_logout_failure
    else none

unfoldable pub new_remote_logout_failure :
    FailureKind → ℤ → Result DisconnectError RemoteLogoutFailure
new_remote_logout_failure kind retry_after =
    let failure : RemoteLogoutFailure = record { kind = kind; retry_after = retry_after } in
    elim (validate_failure (some failure)) [ some e ↦ err e | none ↦ ok failure ]

unfoldable pub kind_of : Option RemoteLogoutFailure → FailureKind
unfolding validate_failure
kind_of none = unknown
kind_of (some f) = if not (is_none (validate_failure (some f))) then unknown else f.kind

unfoldable pub retry_after_of : Option RemoteLogoutFailure → ℤ
unfolding kind_of
retry_after_of none = pos 0
retry_after_of (some f) =
    if not (same_kind (kind_of (some f)) flood_wait) then pos 0 else f.retry_after

abbrev pub class_of : FailureKind → DisconnectError
class_of flood_wait = remote_logout_flood_wait
class_of transient = remote_logout_transient
class_of ambiguous = remote_logout_ambiguous
class_of permanent = remote_logout_permanent
class_of unavailable = runtime_unavailable
class_of _ = invalid_remote_logout_failure

unfoldable pub unwrap : Option RemoteLogoutFailure → DisconnectError
unfolding validate_failure
unwrap none = invalid_remote_logout_failure
unwrap (some f) =
    if not (is_none (validate_failure (some f)))
    then invalid_remote_logout_failure
    else class_of f.kind

pub data OutcomeKind : Type 0 where
  invalid succeeded already_complete failed : OutcomeKind

pub record RevokeOutcome : Type 0 where
  pub kind : OutcomeKind
  pub failure : Option RemoteLogoutFailure

abbrev pub revoke_succeeded : RevokeOutcome
revoke_succeeded = record { kind = succeeded; failure = none }

abbrev pub revoke_already_complete : RevokeOutcome
revoke_already_complete = record { kind = already_complete; failure = none }

abbrev pub failed_with : Option RemoteLogoutFailure → RevokeOutcome
failed_with f = record { kind = failed; failure = f }

unfoldable pub new_revoke_failure :
    Option RemoteLogoutFailure → Result DisconnectError RevokeOutcome
new_revoke_failure f = elim (validate_failure f) [ some e ↦ err e | none ↦ ok (failed_with f) ]

abbrev unless : Bool → Option DisconnectError
unless true = none
unless false = some invalid_runtime_outcome

unfoldable pub validate_kind : OutcomeKind → Option RemoteLogoutFailure → Option DisconnectError
unfolding validate_failure
validate_kind succeeded f = unless (is_none f)
validate_kind already_complete f = unless (is_none f)
validate_kind failed none = some invalid_runtime_outcome
validate_kind failed (some f) = unless (is_none (validate_failure (some f)))
validate_kind invalid f = some invalid_runtime_outcome

unfoldable pub validate_outcome : RevokeOutcome → Option DisconnectError
unfolding validate_kind
validate_outcome o = validate_kind o.kind o.failure

abbrev pub is_convergence : OutcomeKind → Bool
is_convergence succeeded = true
is_convergence already_complete = true
is_convergence _ = false

unfoldable pub converged : RevokeOutcome → Bool
converged o = is_none o.failure && is_convergence o.kind

abbrev pub is_failed : OutcomeKind → Bool
is_failed failed = true
is_failed _ = false

-- `Failure`, which copies the failure that it returns.
unfoldable pub failure_of : RevokeOutcome → Option RemoteLogoutFailure
failure_of o =
    if not (is_failed o.kind) || is_none o.failure || not (is_none (validate_failure o.failure))
    then none
    else o.failure

outcome-cases :
    (k : OutcomeKind) (f : Option RemoteLogoutFailure)
    → let o : RevokeOutcome = record { kind = k; failure = f } in
      (validate_kind k f ≡ none) ↔ (converged o ≡ is_none (failure_of o))
unfolding validate_kind converged failure_of
outcome-cases succeeded none = ground arith
outcome-cases succeeded (some f) = ground arith
outcome-cases already_complete none = ground arith
outcome-cases already_complete (some f) = ground arith
outcome-cases failed none = ground arith
outcome-cases failed (some f) = ground arith
outcome-cases invalid none = ground arith
outcome-cases invalid (some f) = ground arith

-- `Validate` accepts an outcome exactly when it is a convergence or holds a failure, and not both.
pub validate_outcome_iff :
    (o : RevokeOutcome) → (validate_outcome o ≡ none) ↔ (converged o ≡ is_none (failure_of o))
unfolding validate_outcome
validate_outcome_iff o = outcome-cases o.kind o.failure

-- The classes that a failure may have and what they demand of its duration.
abbrev pub Fits : FailureKind → ℤ → Type 0
Fits unknown d = ⊥
Fits (unlisted n) d = ⊥
Fits flood_wait d = is_positive d ≡ true
Fits _ d = is_zero d ≡ true

validate_failure-Fits :
    (k : FailureKind) (d : ℤ)
    → (validate_failure (some (record { kind = k; retry_after = d })) ≡ none) ↔ Fits k d
unfolding validate_failure
validate_failure-Fits unknown d = ground arith
validate_failure-Fits flood_wait d = ground arith
validate_failure-Fits transient d = ground arith
validate_failure-Fits ambiguous d = ground arith
validate_failure-Fits permanent d = ground arith
validate_failure-Fits unavailable d = ground arith
validate_failure-Fits (unlisted n) d = ground arith

is_zero_lem : (d : ℤ) → is_zero d ≡ true → d ≡ pos 0
is_zero_lem (pos n) h = ground arith
is_zero_lem (negsuc n) h = cc

-- A failure can be made of a kind and a duration exactly when the kind is one of the five listed
-- classes, with a positive duration for a flood wait and none for the others; what is made has that
-- kind and duration, is unwrapped to the error of its class, and makes a revoke outcome that gives
-- it back.
new_remote_logout_failure_iff :
    (k : FailureKind) (d : ℤ)
    → let f : RemoteLogoutFailure = record { kind = k; retry_after = d } in
      (new_remote_logout_failure k d ≡ ok f) ↔ (
        Fits k d
        × (kind_of (some f) ≡ k)
        × (retry_after_of (some f) ≡ d)
        × (unwrap (some f) ≡ class_of k)
        × (new_revoke_failure (some f) ≡ ok (failed_with (some f)))
        × (failure_of (failed_with (some f)) ≡ some f))
unfolding new_remote_logout_failure kind_of retry_after_of unwrap new_revoke_failure failure_of
    validate_failure
new_remote_logout_failure_iff unknown d = ground arith
new_remote_logout_failure_iff flood_wait d = ground arith
new_remote_logout_failure_iff transient d = ground (arith, is_zero_lem d)
new_remote_logout_failure_iff ambiguous d = ground (arith, is_zero_lem d)
new_remote_logout_failure_iff permanent d = ground (arith, is_zero_lem d)
new_remote_logout_failure_iff unavailable d = ground (arith, is_zero_lem d)
new_remote_logout_failure_iff (unlisted n) d = ground arith
