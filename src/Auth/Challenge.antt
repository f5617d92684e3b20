-- ===== src/Auth/Challenge.antt =====
-- operatoraccountauth/types.go and challenge_record.go: targets, challenges and their records.
use cresora.Prelude.{
  ℕ, ◌≡◌, ◌↔◌, Bool, true, false, ◌&&◌, ◌||◌, not, Option, none, some, List, [], ◌∷◌, ℤ, arith,
  ◌==◌, Eq, if◌then◌else◌,
}
use cresora.Account.{Status, same_status, same_status_iff, authenticating, disconnecting}
use cresora.Auth.Errors.{AuthError, invalid_input}

abbrev pub max_code_attempts : ℕ
max_code_attempts = 5

abbrev pub max_password_attempts : ℕ
max_password_attempts = 5

-- Texts are their code points; the empty text is `""`.
abbrev pub Text : Type 0
Text = List ℕ

abbrev pub is_blank : Text → Bool
is_blank [] = true
is_blank (_ ∷ _) = false

-- `operatoraccounts.RuntimeTarget`; an actor is its operator's identity.
pub record AuthTarget : Type 0 where
  pub actor : ℕ
  pub account_id : ℕ
  pub status : Status
  pub version : ℕ

unfoldable pub same_target : AuthTarget → AuthTarget → Bool
same_target s t =
    s.actor == t.actor
    && s.account_id == t.account_id
    && same_status s.status t.status
    && s.version == t.version

pub same_target_iff : (s t : AuthTarget) → (same_target s t ≡ true) ↔ (s ≡ t)
unfolding same_target
same_target_iff s t = ground (arith, same_status_iff s.status t.status)

instance abbrev pub target_eq : Eq AuthTarget
target_eq = record { beq = same_target; beq_iff = same_target_iff }

-- `validateTarget`.
unfoldable pub validate_target : AuthTarget → Option AuthError
validate_target t =
    if t.actor == 0
      || t.account_id == 0
      || t.version == 0
      || (not (same_status t.status authenticating) && not (same_status t.status disconnecting))
    then some invalid_input
    else none

-- `no_stage` is the empty text.
pub data Stage : Type 0 where
  no_stage code_stage password_stage : Stage

pub record Profile : Type 0 where
  pub user_id : ℤ
  pub username : Text
  pub first_name : Text
  pub last_name : Text

-- The display projection `Account`.
pub record AccountView : Type 0 where
  pub id : ℕ
  pub phone : Text
  pub profile : Profile
  pub status : Status
  pub version : ℕ
  pub telegram_username : Text
  pub telegram_first_name : Text
  pub telegram_last_name : Text

pub record Challenge : Type 0 where
  pub request_id : ℕ
  pub target : AuthTarget
  pub phone : Text
  pub delivery : Text
  pub stage : Stage
  pub expires_at : ℕ

-- The hash is a text, and zero if it is empty; the cancel function of a running operation is not
-- kept, since a call here runs to its end.
pub record ChallengeRecord : Type 0 where
  pub request_id : ℕ
  pub target : AuthTarget
  pub phone : Text
  pub delivery : Text
  pub stage : Stage
  pub expires : ℕ
  pub hash : Text
  pub ready : Bool
  pub code_attempts : ℕ
  pub password_attempts : ℕ
  pub pending_profile : Option Profile

pub record TerminalResult : Type 0 where
  pub actor_id : ℕ
  pub expires : ℕ
  pub account_result : Option AccountView
  pub aborted : Bool

pub record SendCodeResult : Type 0 where
  pub phone_code_hash : Text
  pub delivery : Text
  pub expires_at : ℕ

unfoldable pub projection : ChallengeRecord → Challenge
projection r = record {
  request_id = r.request_id;
  target = r.target;
  phone = r.phone;
  delivery = r.delivery;
  stage = r.stage;
  expires_at = r.expires;
}
