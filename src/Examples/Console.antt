-- ===== src/Examples/Console.antt =====
-- The mailing console: internal/application/services/mailingconsole/service.go.
use cresora.Prelude.{◌≡◌, ◌↔◌, refl, true, false, none, some, [], ◌∷◌, ◌==◌, if◌then◌else◌}
use cresora.Prelude.Result.{ok, err}
use cresora.Encoding.Text.{bytes, same_bytes}
use cresora.Encoding.Utf8.{text, bad, rune, runes, valid_string}
use cresora.Auth.Phone.{trim_space, trim_left, is_space}
use cresora.Console.{Ports, SharedDialog, create_draft, queue, list_shared_dialogs, dialogs_of}
use cresora.Console.Input.{
  CreateDraftInput, PrivateTarget, Failure, invalid_input, trimmed, accepts, is_seen,
  valid_peer_type, validate_create_draft_input,
}
use cresora.Console.Drafts.{IsDraft, validate_create_draft_input_iff, validated_again}
use cresora.Console.Operations.{Outcome, QueueEnds, create_draft-Outcome, queue-QueueEnds}

abbrev target : PrivateTarget
target = record { peer_type = bytes "channel"; peer_id = 77 }

-- A name with white space around it, and a message of one emoji.
abbrev input : CreateDraftInput
input = record {
  name = text (0x20 ∷ 0xa0 ∷ b'H' ∷ b'i' ∷ 0x0a ∷ []);
  message_text = text (0x1f600 ∷ []);
  account_id = 5;
  shared_dialog_ids = 1 ∷ 2 ∷ [];
  private_targets = target ∷ record target { peer_id = 78 } ∷ [];
}

abbrev stored_input : CreateDraftInput
stored_input = record input { name = text (b'H' ∷ b'i' ∷ []) }

abbrev failure : Failure
failure = record { code = 3; is_not_found = false; is_invalid_state = true; is_no_eligible = true }

abbrev shared : SharedDialog
shared = record {
  id = 1;
  account_id = 5;
  peer_id = 900;
  kind = bytes "channel";
  title = bytes "News";
  canonical_username = [];
  access_hash = 4;
}

-- The mailing 8 is in a state that cannot be queued; no other operator than 6 has mailings.
abbrev ports : Ports
ports = record {
  operator_exists = λ i. ok true;
  dashboard = λ i. ok (record {
    accounts = [];
    shared_dialogs = shared ∷ record shared { id = 2; account_id = 9 } ∷ [];
    private_dialogs = [];
    mailings = [];
  });
  has_mailings = λ i. i == 6;
  create_draft = λ i v. ok 40;
  queue = λ i m. if m == 8 then some failure else none;
}

accepted_test : validate_create_draft_input input ≡ ok stored_input
unfolding validate_create_draft_input accepts is_seen valid_peer_type same_bytes valid_string runes
    text trim_space trim_left is_space
accepted_test = refl

duplicate_test :
    validate_create_draft_input (record input { shared_dialog_ids = 1 ∷ 2 ∷ 1 ∷ [] })
    ≡ err invalid_input
unfolding validate_create_draft_input accepts is_seen valid_peer_type same_bytes valid_string runes
    text trim_space trim_left is_space
duplicate_test = refl

invalid_text_test :
    validate_create_draft_input (record input { name = rune b'H' ∷ bad ∷ [] }) ≡ err invalid_input
unfolding validate_create_draft_input accepts is_seen valid_peer_type same_bytes valid_string runes
    text trim_space trim_left is_space
invalid_text_test = refl

dialogs_test : list_shared_dialogs ports 6 5 ≡ ok (shared ∷ [])
unfolding list_shared_dialogs dialogs_of
dialogs_test = refl

validate_create_draft_input_iff_example :
    ((validate_create_draft_input input ≡ ok (trimmed input)) ↔ IsDraft input)
    × ((validate_create_draft_input input ≡ err invalid_input) ↔ ¬ IsDraft input)
validate_create_draft_input_iff_example = validate_create_draft_input_iff input

-- A draft that was accepted is accepted again, as it is.
accepted_again_test : validate_create_draft_input stored_input ≡ ok stored_input
accepted_again_test = validated_again input stored_input accepted_test

create_draft-Outcome_example : Outcome ports 6 input (create_draft ports 6 input)
create_draft-Outcome_example = create_draft-Outcome ports 6 input

queue-QueueEnds_example : QueueEnds 6 8 true (some failure) (queue ports 6 8)
queue-QueueEnds_example = queue-QueueEnds ports 6 8
