-- ===== src/Console/Drafts.antt =====
-- The drafts that service.go lets through, said without its loops.
use cresora.Prelude.{
  ℕ, suc, ◌+◌, ◌≤◌, ◌<◌, ◌≡◌, ◌≢◌, ◌↔◌, ◌⊎◌, refl, ap, ◌∙◌, Bool, true, false, not, ◌&&◌, List, [],
  ◌∷◌, ◌==◌, if◌then◌else◌, length, Eq, nat_eq, All, All-map, arith, Bool-cases, inl, inr,
}
use cresora.Prelude.Result.{Result, ok, err}
use cresora.Encoding.Text.{Bytes, bytes, same_bytes_iff}
use cresora.Encoding.Utf8.{valid_string, runes, text, runes-text, valid_string-text}
use cresora.Auth.Phone.{trim_space, is_empty}
use cresora.Auth.Phone.Trim.{trim_space-trim_space}
use cresora.Console.Input.{
  CreateDraftInput, PrivateTarget, ConsoleError, target_eq, is_shared, is_private, valid_peer_type,
  is_seen, accepts, trimmed, is_bounded, has_recipients, invalid_input, validate_create_draft_input,
}

-- No element stands twice.
abbrev pub Distinct : {A : Type 0} → List A → Type 0
Distinct [] = Unit
Distinct (x ∷ xs) = All (λ y. x ≢ y) xs × Distinct xs

module _ {A : Type 0} ⦃e : Eq A⦄ where
  abbrev IsNew : List A → A → Type 0
  IsNew seen x = is_seen x seen ≡ false

  -- The elements that are not `x`, and not seen before.
  IsNew-iff :
      (x : A) (seen xs : List A)
      → All (IsNew (x ∷ seen)) xs ↔ (All (λ y. x ≢ y) xs × All (IsNew seen) xs)
  unfolding is_seen
  IsNew-iff x seen [] = ground arith
  IsNew-iff x seen (y ∷ ys) = ground (arith, IsNew-iff x seen ys, e.beq_iff y x)

  All-IsNew : (xs : List A) → All (IsNew []) xs
  unfolding is_seen
  All-IsNew [] = tt
  All-IsNew (x ∷ xs) = (refl, All-IsNew xs)

  accepts_iff :
      (is_valid : A → Bool) (seen xs : List A)
      → (accepts is_valid seen xs ≡ true)
        ↔ (All (λ x. is_valid x ≡ true) xs × Distinct xs × All (IsNew seen) xs)
  unfolding accepts
  accepts_iff is_valid seen [] = ground arith
  accepts_iff is_valid seen (x ∷ xs) =
      ground (arith, accepts_iff is_valid (x ∷ seen) xs, IsNew-iff x seen xs)

abbrev IsPeerType : Bytes → Type 0
IsPeerType t = (t ≡ bytes "user") ⊎ (t ≡ bytes "chat") ⊎ (t ≡ bytes "channel")

IsPeerType-iff : (t : Bytes) → (valid_peer_type t ≡ true) ↔ IsPeerType t
unfolding valid_peer_type
IsPeerType-iff t = ground (
  arith,
  same_bytes_iff t (bytes "user"),
  same_bytes_iff t (bytes "chat"),
  same_bytes_iff t (bytes "channel"),
)

abbrev pub IsPrivate : PrivateTarget → Type 0
IsPrivate t = (t.peer_id ≢ 0) × IsPeerType t.peer_type

All-iff :
    {A : Type 0} (P Q : A → Type 0) (xs : List A) → ((x : A) → P x ↔ Q x) → All P xs ↔ All Q xs
All-iff P Q xs h = (All-map P Q xs (λ x. (h x).0), All-map Q P xs (λ x. (h x).1))

shared_iff :
    (ids : List ℕ) → (accepts is_shared [] ids ≡ true) ↔ (All (λ i. i ≢ 0) ids × Distinct ids)
shared_iff ids = ground (
  arith,
  accepts_iff is_shared [] ids,
  All-iff (λ i. is_shared i ≡ true) (λ i. i ≢ 0) ids (λ i. ground arith),
  All-IsNew ids,
)

IsPrivate-iff :
    (ts : List PrivateTarget) → (accepts is_private [] ts ≡ true) ↔ (All IsPrivate ts × Distinct ts)
IsPrivate-iff ts = ground (
  arith,
  accepts_iff is_private [] ts,
  All-iff (λ t. is_private t ≡ true) IsPrivate ts (λ t. ground (arith, IsPeerType-iff t.peer_type)),
  All-IsNew ts,
)

abbrev Within : ℕ → ℕ → List ℕ → Type 0
Within lo hi rs = (lo ≤ length rs) × (length rs ≤ hi)

-- What a draft must be, in its own words.
pub record IsDraft (i : CreateDraftInput) : Type 0 where
  pub valid_name : valid_string i.name ≡ true
  pub valid_message : valid_string i.message_text ≡ true
  pub name_length : Within 1 255 (trim_space (runes i.name))
  pub message_length : Within 1 4096 (trim_space (runes i.message_text))
  pub has_account : i.account_id ≢ 0
  pub has_recipient : 0 < length i.shared_dialog_ids + length i.private_targets
  pub shared_valid : All (λ d. d ≢ 0) i.shared_dialog_ids
  pub shared_distinct : Distinct i.shared_dialog_ids
  pub private_valid : All IsPrivate i.private_targets
  pub private_distinct : Distinct i.private_targets

length-text : (rs : List ℕ) → length (text rs) ≡ length rs
unfolding text
length-text [] = refl
length-text (r ∷ rs) = ap suc (length-text rs)

empty_iff : (rs : List ℕ) → (is_empty rs ≡ false) ↔ (1 ≤ length rs)
empty_iff [] = ground arith
empty_iff (r ∷ rs) = ground arith

bounded_iff :
    (i : CreateDraftInput)
    → (is_bounded (trimmed i) ≡ true) ↔ (
        Within 1 255 (trim_space (runes i.name))
        × Within 1 4096 (trim_space (runes i.message_text)))
bounded_iff i =
    let n = trim_space (runes i.name) in
    let m = trim_space (runes i.message_text) in
    rw (runes-text n) (rw (length-text n) (rw (length-text m) (ground (arith, empty_iff n))))

-- The six tests.
abbrev passes : CreateDraftInput → Bool
passes i =
    valid_string i.name
    && valid_string i.message_text
    && is_bounded (trimmed i)
    && not (i.account_id == 0)
    && has_recipients i
    && accepts is_shared [] i.shared_dialog_ids
    && accepts is_private [] i.private_targets

validate_passes :
    (i : CreateDraftInput)
    → validate_create_draft_input i ≡ (if passes i then ok (trimmed i) else err invalid_input)
unfolding validate_create_draft_input
validate_passes i = ground arith

passes_iff : (i : CreateDraftInput) → (passes i ≡ true) ↔ IsDraft i
passes_iff i = (
  λ h. record {
    valid_name = ground (arith, h);
    valid_message = ground (arith, h);
    name_length = ground (arith, h, bounded_iff i);
    message_length = ground (arith, h, bounded_iff i);
    has_account = ground (arith, h);
    has_recipient = ground (arith, h);
    shared_valid = ground (arith, h, shared_iff i.shared_dialog_ids);
    shared_distinct = ground (arith, h, shared_iff i.shared_dialog_ids);
    private_valid = ground (arith, h, IsPrivate-iff i.private_targets);
    private_distinct = ground (arith, h, IsPrivate-iff i.private_targets);
  },
  λ d. ground (
    arith,
    bounded_iff i,
    shared_iff i.shared_dialog_ids,
    IsPrivate-iff i.private_targets,
    d.valid_name,
    d.valid_message,
    d.name_length,
    d.message_length,
    d.has_account,
    d.has_recipient,
    d.shared_valid,
    d.shared_distinct,
    d.private_valid,
    d.private_distinct,
  ),
)

decided :
    (b : Bool) (D : Type 0) (v : CreateDraftInput) (r : Result ConsoleError CreateDraftInput)
    → r ≡ (if b then ok v else err invalid_input)
    → (b ≡ true) ↔ D
    → ((r ≡ ok v) ↔ D) × ((r ≡ err invalid_input) ↔ ¬ D)
decided true D v r e d = ground (arith, e, d)
decided false D v r e d = ground (arith, e, d)

-- A draft is accepted, with its texts trimmed, exactly if its texts are valid, 1 to 255 and 1 to 4096
-- code points long without the white space around them, it has an account and a recipient, no
-- recipient is invalid, and none stands twice; otherwise the error is that of an invalid input.
pub validate_create_draft_input_iff :
    (i : CreateDraftInput)
    → ((validate_create_draft_input i ≡ ok (trimmed i)) ↔ IsDraft i)
      × ((validate_create_draft_input i ≡ err invalid_input) ↔ ¬ IsDraft i)
validate_create_draft_input_iff i =
    decided (passes i) (IsDraft i) (trimmed i) (validate_create_draft_input i) (validate_passes i)
      (passes_iff i)

pub accepted_or_not :
    (i : CreateDraftInput)
    → (IsDraft i × (validate_create_draft_input i ≡ ok (trimmed i)))
      ⊎ ((¬ IsDraft i) × (validate_create_draft_input i ≡ err invalid_input))
accepted_or_not i =
    let (good, ill) = validate_create_draft_input_iff i in
    elim (Bool-cases (passes i)) [
      | inl y ↦ inl ((passes_iff i).0 y, good.1 ((passes_iff i).0 y))
      | inr n ↦ inr (
        λ d. ground (arith, n, (passes_iff i).1 d),
        ill.1 (λ d. ground (arith, n, (passes_iff i).1 d)),
      )
    ]

trimmed-trimmed : (i : CreateDraftInput) → trimmed (trimmed i) ≡ trimmed i
trimmed-trimmed i =
    let n = trim_space (runes i.name) in
    let m = trim_space (runes i.message_text) in
    rw (runes-text n) (
      rw (runes-text m) (
        rw (trim_space-trim_space (runes i.name))
          (rw (trim_space-trim_space (runes i.message_text)) refl)))

passes_again : (i : CreateDraftInput) → passes i ≡ true → passes (trimmed i) ≡ true
passes_again i h = ground (
  arith,
  h,
  ap is_bounded (trimmed-trimmed i),
  valid_string-text (trim_space (runes i.name)),
  valid_string-text (trim_space (runes i.message_text)),
)

accepted_cases :
    (i v : CreateDraftInput)
    → validate_create_draft_input i ≡ ok v
    → (passes i ≡ true) × (trimmed i ≡ v)
accepted_cases i v h = ground (arith, validate_passes i, h)

-- What an accepted draft has become is accepted again, and stays as it is.
pub validated_again :
    (i v : CreateDraftInput)
    → validate_create_draft_input i ≡ ok v
    → validate_create_draft_input v ≡ ok v
validated_again i v h =
    let (p, e) = accepted_cases i v h in
    rw (← e) (validate_passes (trimmed i) ∙ rw (passes_again i p) (ap ok (trimmed-trimmed i)))
