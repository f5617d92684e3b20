-- ===== src/Account/Invariant.antt =====
-- Well-formed accounts: what `validate` accepts, and that every operation keeps it.
use cresora.Prelude.{
  ℕ, ◌<◌, ◌≡◌, ◌≢◌, ◌↔◌, true, false, Option, none, some, List, [], ◌∷◌, ℤ, is_negative,
  is_positive, arith, refl, sym, ap, subst,
}
use cresora.Prelude.Result.{ok}
use cresora.Account.{
  Status, authenticating, active, reauth_required, disconnected, disconnecting, FailureCode,
  no_failure, valid_failure_code, Account, AccountError, new, begin_authentication, activate,
  require_reauthentication, begin_disconnect, mark_disconnected, validate, accept, restore,
  Operation, begins_authentication, activates, requires_reauthentication, begins_disconnect,
  marks_disconnected, call, history,
}

-- What each status asks of the other fields.
abbrev pub Fits : Status → Account → Type 0
Fits authenticating a =
    (a.auth_expires_at ≢ 0)
    × (a.failure_code ≡ no_failure)
    × (is_negative a.telegram_user_id ≡ false)
    × (a.remote_logout_required ≡ false)
Fits active a =
    (a.auth_expires_at ≡ 0)
    × (a.failure_code ≡ no_failure)
    × (is_positive a.telegram_user_id ≡ true)
    × (a.remote_logout_required ≡ false)
Fits reauth_required a =
    (a.auth_expires_at ≡ 0)
    × (valid_failure_code a.failure_code ≡ true)
    × (is_positive a.telegram_user_id ≡ true)
    × (a.remote_logout_required ≡ false)
Fits disconnected a =
    (a.auth_expires_at ≡ 0)
    × (a.failure_code ≡ no_failure)
    × (is_negative a.telegram_user_id ≡ false)
    × (a.remote_logout_required ≡ false)
Fits disconnecting a =
    (a.auth_expires_at ≡ 0)
    × (a.failure_code ≡ no_failure)
    × (is_negative a.telegram_user_id ≡ false)
Fits (Status.unlisted n) a = ⊥

pub record IsValid (a : Account) : Type 0 where
  pub identified : a.id ≢ 0
  pub versioned : 0 < a.version
  pub fits : Fits a.status a

accepts : (a : Account) (s : Status) → a.status ≡ s → validate a ≡ none → IsValid a
unfolding validate
accepts a authenticating e h = ground arith
accepts a active e h = ground arith
accepts a reauth_required e h = ground arith
accepts a disconnected e h = ground arith
accepts a disconnecting e h = ground arith
accepts a (Status.unlisted n) e h = ground arith

is_accepted : (a : Account) (s : Status) → a.status ≡ s → IsValid a → validate a ≡ none
unfolding validate
is_accepted a authenticating e v = ground arith
is_accepted a active e v = ground arith
is_accepted a reauth_required e v = ground arith
is_accepted a disconnected e v = ground arith
is_accepted a disconnecting e v = ground arith
is_accepted a (Status.unlisted n) e v = ground arith

-- `validate` reports nothing exactly when the account is well formed: its identity and its version
-- are set, and its status is a listed one whose demands on the other fields are met.
pub validate_iff : (a : Account) → (validate a ≡ none) ↔ IsValid a
validate_iff a = (accepts a a.status refl, is_accepted a a.status refl)

begin_authentication-IsValid :
    (a : Account) (t : ℕ) → IsValid a → IsValid (begin_authentication a t).0
unfolding begin_authentication
begin_authentication-IsValid a t v = ground arith

activate-IsValid : (a : Account) (u : ℤ) → IsValid a → IsValid (activate a u).0
unfolding activate
activate-IsValid a u v = ground arith

require_reauthentication-IsValid :
    (a : Account) (c : FailureCode) → IsValid a → IsValid (require_reauthentication a c).0
unfolding require_reauthentication
require_reauthentication-IsValid a c v = ground arith

begin_disconnect-IsValid : (a : Account) → IsValid a → IsValid (begin_disconnect a).0
unfolding begin_disconnect
begin_disconnect-IsValid a v = ground arith

mark_disconnected-IsValid : (a : Account) → IsValid a → IsValid (mark_disconnected a).0
unfolding mark_disconnected
mark_disconnected-IsValid a v = ground arith

-- A well-formed account is well formed after any call, whether it succeeds or fails.
pub call-IsValid : (a : Account) (o : Operation) → IsValid a → IsValid (call a o).0
unfolding call
call-IsValid a (begins_authentication t) v = begin_authentication-IsValid a t v
call-IsValid a (activates u) v = activate-IsValid a u v
call-IsValid a (requires_reauthentication c) v = require_reauthentication-IsValid a c v
call-IsValid a begins_disconnect v = begin_disconnect-IsValid a v
call-IsValid a marks_disconnected v = mark_disconnected-IsValid a v

pub history-IsValid : (a : Account) (os : List Operation) → IsValid a → IsValid (history a os)
unfolding history
history-IsValid a [] v = v
history-IsValid a (o ∷ os) v = history-IsValid (call a o).0 os (call-IsValid a o v)

-- Whatever calls are made on a new account, `validate` accepts what they leave behind.
pub validate-history :
    (id : ℕ) (a : Account) (os : List Operation) → new id ≡ some a → validate (history a os) ≡ none
unfolding new
validate-history id a os h = (validate_iff (history a os)).1 (history-IsValid a os (ground arith))

accept-eq-ok : (a b : Account) (o : Option AccountError) → accept a o ≡ ok b → (a ≡ b) × (o ≡ none)
unfolding accept
accept-eq-ok a b o h = ground arith

-- `restore` gives back exactly the accounts that `validate` accepts: read with its own fields, a
-- well-formed account is restored as it was, and no other account is ever restored.
pub restore_iff :
    (a b : Account)
    → (restore a.id a.status a.version a.failure_code a.telegram_user_id a.auth_expires_at
          (a.remote_logout_required ∷ [])
        ≡ ok b)
      ↔ ((a ≡ b) × IsValid b)
unfolding restore
restore_iff a b = (
  λ h.
      let (same, fine) = accept-eq-ok a b (validate a) h in
      (same, subst IsValid same ((validate_iff a).0 fine)),
  λ h. rw ((validate_iff a).1 (subst IsValid (sym h.0) h.1), accept) (ap ok h.0),
)
