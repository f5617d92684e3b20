-- ===== src/Account.antt =====
-- internal/domain/operatoraccount: one operator account and its lifecycle operations.
-- A pointer method returns the account that it leaves behind and the error, if any; a UUID is a
-- number whose zero is `uuid.Nil`, and a time is a number whose zero is `time.Time{}`.
pub mod Graph
pub mod Invariant
use cresora.Prelude.{
  ℕ, ◌+◌, ◌-◌, ◌^◌, ◌≡◌, ◌↔◌, Bool, true, false, not, ◌&&◌, ◌||◌, Option, none, some, List, [], ◌∷◌,
  ℤ, pos, is_negative, is_positive, arith, ◌==◌, if◌then◌else◌, refl,
}
use cresora.Prelude.Result.{Result, ok, err, ◌>>=◌}

-- A status read from storage can be any text: `unlisted` numbers the texts that are no constant.
pub data Status : Type 0 where
  authenticating active reauth_required disconnected disconnecting : Status
  unlisted : ℕ → Status

abbrev pub status_code : Status → ℕ
status_code authenticating = 0
status_code active = 1
status_code reauth_required = 2
status_code disconnected = 3
status_code disconnecting = 4
status_code (unlisted n) = n + 5

-- `==` on statuses.
abbrev pub same_status : Status → Status → Bool
same_status s t = status_code s == status_code t

abbrev pub status_of_code : ℕ → Status
status_of_code n =
    if n == 0
    then authenticating
    else if n == 1
    then active
    else if n == 2
    then reauth_required
    else if n == 3
    then disconnected
    else if n == 4
    then disconnecting
    else unlisted (n - 5)

status_of_code_lem : (s : Status) → status_of_code (status_code s) ≡ s
status_of_code_lem authenticating = refl
status_of_code_lem active = refl
status_of_code_lem reauth_required = refl
status_of_code_lem disconnected = refl
status_of_code_lem disconnecting = refl
status_of_code_lem (unlisted n) = ground arith

pub same_status_iff : (s t : Status) → (same_status s t ≡ true) ↔ (s ≡ t)
same_status_iff s t = ground (arith, status_of_code_lem s, status_of_code_lem t)

unfoldable pub valid : Status → Bool
valid (unlisted _) = false
valid _ = true

pub data FailureCode : Type 0 where
  no_failure auth_expired session_invalid authorization_revoked : FailureCode
  unlisted : ℕ → FailureCode

unfoldable pub valid_failure_code : FailureCode → Bool
valid_failure_code auth_expired = true
valid_failure_code session_invalid = true
valid_failure_code authorization_revoked = true
valid_failure_code _ = false

abbrev pub is_no_failure : FailureCode → Bool
is_no_failure no_failure = true
is_no_failure _ = false

-- What `validate` complains of, one for each of its messages.
pub data Complaint : Type 0 where
  identity_required unknown_status logout_misplaced version_not_positive negative_user : Complaint
  identity_missing expiry_missing expiry_misplaced code_missing code_misplaced : Complaint
  logout_repeated : Complaint

pub data AccountError : Type 0 where
  invalid_transition : Status → Status → AccountError
  invalid_state : Complaint → AccountError
  invalid_failure_code invalid_telegram_identity : AccountError
  invalid_authentication_expiry version_exhausted : AccountError

pub record Account : Type 0 where
  pub id : ℕ
  pub status : Status
  pub version : ℕ
  pub failure_code : FailureCode
  pub telegram_user_id : ℤ
  pub auth_expires_at : ℕ
  pub remote_logout_required : Bool

abbrev pub initial_version : ℕ
initial_version = 1

-- `^Version(0)`, the greatest uint64.
abbrev pub max_version : ℕ
max_version = 2 ^ 64 - 1

-- `New` panics on the zero identity: `none`.
unfoldable pub new : ℕ → Option Account
new id =
    if id == 0
    then none
    else some (record {
      id = id;
      status = disconnected;
      version = initial_version;
      failure_code = no_failure;
      telegram_user_id = pos 0;
      auth_expires_at = 0;
      remote_logout_required = false;
    })

unfoldable pub advance_version : Account → Account × Option AccountError
advance_version a =
    if a.version == max_version
    then (a, some version_exhausted)
    else (record a { version = a.version + 1 }, none)

-- The loop over the allowed statuses ends at the first that is the current one.
unfoldable pub move : Account → Status → List Status → Account × Option AccountError
unfolding advance_version
move a next [] = (a, some (invalid_transition a.status next))
move a next (current ∷ allowed) =
    if same_status a.status current
    then (let (b, failure) = advance_version a in
        elim failure [ some e ↦ (b, some e) | none ↦ (record b { status = next }, none) ])
    else move a next allowed

-- `if failure := account.move(...); failure != nil { return failure }`, then the rest.
abbrev pub and_then :
    Account × Option AccountError → (Account → Account) → Account × Option AccountError
and_then (a, some e) f = (a, some e)
and_then (a, none) f = (f a, none)

unfoldable pub begin_authentication : Account → ℕ → Account × Option AccountError
unfolding move
begin_authentication a expires_at =
    if expires_at == 0
    then (a, some invalid_authentication_expiry)
    else and_then (move a authenticating (disconnected ∷ reauth_required ∷ []))
        λ b. record b { auth_expires_at = expires_at; failure_code = no_failure }

unfoldable pub activate : Account → ℤ → Account × Option AccountError
unfolding move
activate a telegram_user_id =
    if not (is_positive telegram_user_id)
    then (a, some invalid_telegram_identity)
    else and_then (move a active (authenticating ∷ [])) λ b. record b {
      telegram_user_id = telegram_user_id;
      auth_expires_at = 0;
      failure_code = no_failure;
    }

unfoldable pub require_reauthentication : Account → FailureCode → Account × Option AccountError
unfolding move valid_failure_code
require_reauthentication a code =
    if not (valid_failure_code code)
    then (a, some invalid_failure_code)
    else if not (is_positive a.telegram_user_id)
    then (a, some invalid_telegram_identity)
    else and_then (move a reauth_required (active ∷ []))
        λ b. record b { auth_expires_at = 0; failure_code = code }

unfoldable pub begin_disconnect : Account → Account × Option AccountError
unfolding move
begin_disconnect a =
    let remote_intent = same_status a.status active || same_status a.status reauth_required in
    and_then (move a disconnecting (authenticating ∷ active ∷ reauth_required ∷ [])) λ b. record b {
      auth_expires_at = 0;
      failure_code = no_failure;
      remote_logout_required = remote_intent;
    }

unfoldable pub mark_disconnected : Account → Account × Option AccountError
unfolding move
mark_disconnected a =
    and_then (move a disconnected (disconnecting ∷ [])) λ b. record b {
      auth_expires_at = 0;
      failure_code = no_failure;
      remote_logout_required = false;
    }

abbrev check : Bool → Complaint → Option AccountError → Option AccountError
check true c rest = some (invalid_state c)
check false c rest = rest

unfoldable pub validate : Account → Option AccountError
unfolding valid valid_failure_code
validate a = check (a.id == 0) identity_required (
    check (not (valid a.status)) unknown_status (
      check (a.remote_logout_required && not (same_status a.status disconnecting)) logout_misplaced
        (check (a.version == 0) version_not_positive (
          check (is_negative a.telegram_user_id) negative_user (
            check
              ((same_status a.status active || same_status a.status reauth_required)
                && not (is_positive a.telegram_user_id))
              identity_missing
              (check (same_status a.status authenticating && a.auth_expires_at == 0) expiry_missing
                (check (not (same_status a.status authenticating) && not (a.auth_expires_at == 0))
                  expiry_misplaced
                  (check
                    (same_status a.status reauth_required
                      && not (valid_failure_code a.failure_code))
                    code_missing
                    (check
                      (not (same_status a.status reauth_required)
                        && not (is_no_failure a.failure_code))
                      code_misplaced none)))))))))

-- The variadic last argument of `Restore`: false if it is left out, and no more than one.
unfoldable pub logout_argument : List Bool → Result AccountError Bool
logout_argument [] = ok false
logout_argument (logout ∷ []) = ok logout
logout_argument (_ ∷ _ ∷ _) = err (invalid_state logout_repeated)

unfoldable pub accept : Account → Option AccountError → Result AccountError Account
accept a none = ok a
accept a (some e) = err e

unfoldable pub restore :
    ℕ → Status → ℕ → FailureCode → ℤ → ℕ → List Bool → Result AccountError Account
unfolding logout_argument accept
restore id status version code user expires remote_logout_required = do
  logout ← logout_argument remote_logout_required
  let account : Account = record {
    id = id;
    status = status;
    version = version;
    failure_code = code;
    telegram_user_id = user;
    auth_expires_at = expires;
    remote_logout_required = logout;
  }
  accept account (validate account)

-- The operations as data, and one call of any of them.
pub data Operation : Type 0 where
  begins_authentication : ℕ → Operation
  activates : ℤ → Operation
  requires_reauthentication : FailureCode → Operation
  begins_disconnect marks_disconnected : Operation

unfoldable pub call : Account → Operation → Account × Option AccountError
call a (begins_authentication expires_at) = begin_authentication a expires_at
call a (activates user) = activate a user
call a (requires_reauthentication code) = require_reauthentication a code
call a begins_disconnect = begin_disconnect a
call a marks_disconnected = mark_disconnected a

-- A history of calls, failing ones included.
unfoldable pub history : Account → List Operation → Account
history a [] = a
history a (o ∷ os) = history (call a o).0 os
