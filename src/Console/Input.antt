-- ===== src/Console/Input.antt =====
-- mailingconsole/types.go, and the validation of a draft in service.go. A peer identity is the word
-- of its 64 bits.
use cresora.Prelude.{
  ℕ, ◌+◌, Bool, true, false, not, ◌&&◌, ◌||◌, Option, none, some, List, [], ◌∷◌, ◌==◌, ltb,
  if◌then◌else◌, length, Eq, nat_eq, ◌≡◌, ◌↔◌, arith, ap,
}
use cresora.Prelude.Result.{Result, ok, err}
use cresora.Encoding.Text.{Bytes, bytes, same_bytes, same_bytes_iff}
use cresora.Encoding.Utf8.{Text, valid_string, runes, text}
use cresora.Auth.Phone.{trim_space, is_empty}

pub record PrivateTarget : Type 0 where
  pub peer_type : Bytes
  pub peer_id : ℕ

pub record CreateDraftInput : Type 0 where
  pub name : Text
  pub message_text : Text
  pub account_id : ℕ
  pub shared_dialog_ids : List ℕ
  pub private_targets : List PrivateTarget

abbrev same_target : PrivateTarget → PrivateTarget → Bool
same_target a b = same_bytes a.peer_type b.peer_type && a.peer_id == b.peer_id

same_target_lem : (a b : PrivateTarget) → a.peer_type ≡ b.peer_type → a.peer_id ≡ b.peer_id → a ≡ b
same_target_lem a b p q = λ i. record { peer_type = p i; peer_id = q i }

pub same_target_iff : (a b : PrivateTarget) → (same_target a b ≡ true) ↔ (a ≡ b)
same_target_iff a b = (
  λ h.
      let parts : (same_bytes a.peer_type b.peer_type ≡ true) × (a.peer_id ≡ b.peer_id) =
        ground (arith, h) in
      same_target_lem a b ((same_bytes_iff a.peer_type b.peer_type).0 parts.0) parts.1,
  λ h. ground (
    arith,
    same_bytes_iff a.peer_type b.peer_type,
    ap (λ (t : PrivateTarget). t.peer_type) h,
    ap (λ (t : PrivateTarget). t.peer_id) h,
  ),
)

instance abbrev pub target_eq : Eq PrivateTarget
target_eq = record { beq = same_target; beq_iff = same_target_iff }

-- What an error is to `errors.Is`, of the four that the package declares.
pub data Sentinel : Type 0 where
  err_invalid_input err_not_found err_invalid_state err_no_eligible_recipients : Sentinel

-- An error of a port, and which of the errors of a mailing it is.
pub record Failure : Type 0 where
  pub code : ℕ
  pub is_not_found : Bool
  pub is_invalid_state : Bool
  pub is_no_eligible : Bool

-- The sentinel and the error that an error wraps.
pub record ConsoleError : Type 0 where
  pub sentinel : Option Sentinel
  pub cause : Option Failure

abbrev pub invalid_input : ConsoleError
invalid_input = record { sentinel = some err_invalid_input; cause = none }

unfoldable pub valid_peer_type : Bytes → Bool
valid_peer_type t =
    same_bytes t (bytes "user") || same_bytes t (bytes "chat") || same_bytes t (bytes "channel")

abbrev pub is_shared : ℕ → Bool
is_shared dialog_id = not (dialog_id == 0)

abbrev pub is_private : PrivateTarget → Bool
is_private target = not (target.peer_id == 0 || not (valid_peer_type target.peer_type))

module _ {A : Type 0} ⦃e : Eq A⦄ where
  unfoldable pub is_seen : A → List A → Bool
  is_seen x [] = false
  is_seen x (y ∷ ys) = e.beq x y || is_seen x ys

  -- A loop over the recipients with the map of those it has seen; `false` is its early return.
  unfoldable pub accepts : (A → Bool) → List A → List A → Bool
  unfolding is_seen
  accepts is_valid seen [] = true
  accepts is_valid seen (x ∷ xs) =
      let rest = accepts is_valid (x ∷ seen) xs in
      if not (is_valid x) then false else if is_seen x seen then false else rest

abbrev pub trimmed : CreateDraftInput → CreateDraftInput
trimmed i = record i {
  name = text (trim_space (runes i.name));
  message_text = text (trim_space (runes i.message_text));
}

abbrev pub is_bounded : CreateDraftInput → Bool
is_bounded i =
    not (is_empty (runes i.name))
    && not (ltb 255 (length i.name))
    && not (ltb (length i.message_text) 1 || ltb 4096 (length i.message_text))

abbrev pub has_recipients : CreateDraftInput → Bool
has_recipients i = not (length i.shared_dialog_ids + length i.private_targets == 0)

-- The tests in the order of the code; each refusal is an invalid input.
unfoldable pub validate_create_draft_input : CreateDraftInput → Result ConsoleError CreateDraftInput
unfolding accepts
validate_create_draft_input i =
    if not (valid_string i.name) || not (valid_string i.message_text)
    then err invalid_input
    else if not (is_bounded (trimmed i))
    then err invalid_input
    else if i.account_id == 0
    then err invalid_input
    else if not (has_recipients i)
    then err invalid_input
    else if not (accepts is_shared [] i.shared_dialog_ids)
    then err invalid_input
    else if not (accepts is_private [] i.private_targets)
    then err invalid_input
    else ok (trimmed i)
