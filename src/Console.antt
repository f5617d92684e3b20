-- ===== src/Console.antt =====
-- mailingconsole/service.go: what an operator sees and does in the console. A port is a function of
-- its arguments; an operation calls one at most once.
pub mod Input
pub mod Drafts
pub mod Operations
use cresora.Prelude.{
  ℕ, Bool, true, false, not, Option, none, some, List, [], ◌∷◌, ◌==◌, if◌then◌else◌,
}
use cresora.Prelude.Result.{Result, ok, err}
use cresora.Encoding.Text.{Bytes}
use cresora.Console.Input.{
  CreateDraftInput, ConsoleError, Failure, Sentinel, invalid_input, err_not_found,
  err_invalid_state, err_no_eligible_recipients, validate_create_draft_input,
}

pub record Account : Type 0 where
  pub id : ℕ
  pub phone : Bytes
  pub telegram_username : Bytes
  pub telegram_first_name : Bytes
  pub telegram_last_name : Bytes

pub record SharedDialog : Type 0 where
  pub id : ℕ
  pub account_id : ℕ
  pub peer_id : ℕ
  pub kind : Bytes
  pub title : Bytes
  pub canonical_username : Bytes
  pub access_hash : ℕ

pub record PrivateDialog : Type 0 where
  pub account_id : ℕ
  pub peer_type : Bytes
  pub peer_id : ℕ
  pub title : Bytes
  pub username : Bytes
  pub access_hash : Option ℕ

pub record MailingSummary : Type 0 where
  pub id : ℕ
  pub name : Bytes
  pub status : Bytes
  pub account_id : ℕ
  pub recipient_count : ℕ
  pub created_at : ℕ
  pub updated_at : ℕ

pub record Dashboard : Type 0 where
  pub accounts : List Account
  pub shared_dialogs : List SharedDialog
  pub private_dialogs : List PrivateDialog
  pub mailings : List MailingSummary

-- `has_mailings` says that the mailings of an operator are no nil interface.
pub record Ports : Type 0 where
  pub operator_exists : ℕ → Result Failure Bool
  pub dashboard : ℕ → Result Failure Dashboard
  pub has_mailings : ℕ → Bool
  pub create_draft : ℕ → CreateDraftInput → Result Failure ℕ
  pub queue : ℕ → ℕ → Option Failure

-- The calls that change something, with the operator they are made for.
pub data Call : Type 0 where
  drafted : ℕ → CreateDraftInput → Call
  queued : ℕ → ℕ → Call

abbrev pub Answer : Type 0 → Type 0
Answer A = Result ConsoleError A

abbrev pub not_found : ConsoleError
not_found = record { sentinel = some err_not_found; cause = none }

-- An error that adds a text to the port's own.
abbrev pub wrapped : Option Sentinel → Failure → ConsoleError
wrapped s f = record { sentinel = s; cause = some f }

abbrev pub lifted : {A : Type 0} → Result Failure A → Answer A
lifted (ok a) = ok a
lifted (err f) = err (wrapped none f)

unfoldable pub validate_actor : ℕ → Option ConsoleError
validate_actor operator_id = if operator_id == 0 then some invalid_input else none

unfoldable pub translate_lifecycle_failure : Failure → ConsoleError
translate_lifecycle_failure f =
    if f.is_not_found
    then wrapped (some err_not_found) f
    else if f.is_invalid_state
    then wrapped (some err_invalid_state) f
    else if f.is_no_eligible
    then wrapped (some err_no_eligible_recipients) f
    else wrapped none f

abbrev pub translated : Option Failure → Option ConsoleError
translated none = none
translated (some f) = some (translate_lifecycle_failure f)

-- The loop that keeps the dialogs of one account.
unfoldable pub dialogs_of : ℕ → List SharedDialog → List SharedDialog
dialogs_of account_id [] = []
dialogs_of account_id (d ∷ ds) =
    let rest = dialogs_of account_id ds in if d.account_id == account_id then d ∷ rest else rest

abbrev map_ok : {A B : Type 0} → (A → B) → Answer A → Answer B
map_ok f (ok a) = ok (f a)
map_ok f (err e) = err e

module _ (ports : Ports) where
  unfoldable pub dashboard : ℕ → Answer Dashboard
  unfolding validate_actor
  dashboard actor = elim (validate_actor actor) [
    | some e ↦ err e
    | none ↦ lifted (ports.dashboard actor)
  ]

  unfoldable pub list_accounts : ℕ → Answer (List Account)
  unfolding validate_actor
  list_accounts actor = elim (validate_actor actor) [
    | some e ↦ err e
    | none ↦ map_ok (λ d. d.accounts) (lifted (ports.dashboard actor))
  ]

  unfoldable pub list_shared_dialogs : ℕ → ℕ → Answer (List SharedDialog)
  unfolding validate_actor
  list_shared_dialogs actor account_id = elim (validate_actor actor) [
    | some e ↦ err e
    | none ↦
        if account_id == 0
        then err invalid_input
        else map_ok (λ d. dialogs_of account_id d.shared_dialogs) (lifted (ports.dashboard actor))
  ]

  unfoldable pub list_mailings : ℕ → Answer (List MailingSummary)
  unfolding validate_actor
  list_mailings actor = elim (validate_actor actor) [
    | some e ↦ err e
    | none ↦ map_ok (λ d. d.mailings) (lifted (ports.dashboard actor))
  ]

  -- A valid draft of an operator.
  abbrev pub draft : ℕ → CreateDraftInput → List Call × Answer ℕ
  draft actor v =
      if not (ports.has_mailings actor)
      then ([], err not_found)
      else (drafted actor v ∷ [], lifted (ports.create_draft actor v))

  abbrev pub draft_validated : ℕ → Result ConsoleError CreateDraftInput → List Call × Answer ℕ
  draft_validated actor (err e) = ([], err e)
  draft_validated actor (ok v) = draft actor v

  unfoldable pub create_draft : ℕ → CreateDraftInput → List Call × Answer ℕ
  unfolding validate_actor validate_create_draft_input
  create_draft actor input = elim (validate_actor actor) [
    | some e ↦ ([], err e)
    | none ↦ draft_validated actor (validate_create_draft_input input)
  ]

  abbrev known : Answer Bool → Option ConsoleError
  known (err e) = some e
  known (ok exists) = if exists then none else some not_found

  -- The error, if any.
  unfoldable pub verify_operator : ℕ → Option ConsoleError
  unfolding validate_actor
  verify_operator actor = elim (validate_actor actor) [
    | some e ↦ some e
    | none ↦ known (lifted (ports.operator_exists actor))
  ]

  unfoldable pub queue : ℕ → ℕ → List Call × Option ConsoleError
  unfolding validate_actor translate_lifecycle_failure
  queue actor mailing_id = elim (validate_actor actor) [
    | some e ↦ ([], some e)
    | none ↦
        if mailing_id == 0
        then ([], some invalid_input)
        else if not (ports.has_mailings actor)
        then ([], some not_found)
        else (queued actor mailing_id ∷ [], translated (ports.queue actor mailing_id))
  ]
