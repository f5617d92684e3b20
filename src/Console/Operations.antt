-- ===== src/Console/Operations.antt =====
-- What the console's operations change, and with which error they end: service.go.
use cresora.Prelude.{
  ℕ, ◌≡◌, ◌≢◌, ◌≤◌, length, ◌↔◌, ◌⊎◌, refl, Bool, true, false, not, ◌||◌, Option, none, some, List,
  [], ◌∷◌, ◌==◌, if◌then◌else◌, arith, inl, inr, Some, Bool-cases,
}
use cresora.Prelude.Result.{ok, err, Result-cases}
use cresora.Console.{
  Ports, Call, drafted, queued, validate_actor, translate_lifecycle_failure, Answer, lifted, draft,
  draft_validated, create_draft, queue, translated, not_found,
}
use cresora.Console.Input.{
  CreateDraftInput, ConsoleError, Failure, Sentinel, err_invalid_input, err_not_found,
  err_invalid_state, err_no_eligible_recipients, trimmed, invalid_input,
  validate_create_draft_input,
}
use cresora.Console.Drafts.{IsDraft, accepted_or_not}

-- What must hold for a draft to be stored.
pub record Stores (ports : Ports) (actor : ℕ) (input : CreateDraftInput) : Type 0 where
  pub identified : actor ≢ 0
  pub valid : IsDraft input
  pub available : ports.has_mailings actor ≡ true

abbrev pub sentinel_of : Option ConsoleError → Option Sentinel
sentinel_of none = none
sentinel_of (some e) = e.sentinel

abbrev pub cause_of : Option ConsoleError → Option Failure
cause_of none = none
cause_of (some e) = e.cause

-- A property of the failure, if there is one.
abbrev pub Fails : (Failure → Type 0) → Option Failure → Type 0
Fails P none = ⊥
Fails P (some f) = P f

-- The calls and the answer, without their order of tests.
abbrev pub Outcome : Ports → ℕ → CreateDraftInput → List Call × Answer ℕ → Type 0
Outcome ports actor input (calls, answer) =
    (length calls ≤ 1)
    × ((call : Call)
        → Some (λ c. c ≡ call) calls
          ↔ (Stores ports actor input × (call ≡ drafted actor (trimmed input))))
    × ((id : ℕ)
        → (answer ≡ ok id)
          ↔ (Stores ports actor input × (ports.create_draft actor (trimmed input) ≡ ok id)))

module _ (ports : Ports) (actor : ℕ) (input : CreateDraftInput) where
  refused : (e : ConsoleError) → ¬ Stores ports actor input → Outcome ports actor input ([], err e)
  refused e not_so = (
    omega arith,
    λ call. (λ h. absurd h, λ h. absurd (not_so h.0)),
    λ id. (λ h. ground (arith, h), λ h. absurd (not_so h.0)),
  )

  stored :
      Stores ports actor input
      → Outcome ports actor input
          (drafted actor (trimmed input) ∷ [], lifted (ports.create_draft actor (trimmed input)))
  stored s = elim (Result-cases (ports.create_draft actor (trimmed input))) [
    | inl (i, h) ↦ (omega arith, λ call. ground arith, λ id. rw h (ground (arith, s)))
    | inr (f, h) ↦ (omega arith, λ call. ground arith, λ id. rw h (ground (arith, s)))
  ]

  available_or_not :
      (r : Bool)
      → ports.has_mailings actor ≡ r
      → actor ≢ 0
      → IsDraft input
      → Outcome ports actor input (draft ports actor (trimmed input))
  available_or_not true h n d = rw h (stored record { identified = n; valid = d; available = h })
  available_or_not false h n d = rw h (refused not_found (λ s. ground (arith, h, s.available)))

  create_draft_lem : create_draft ports actor input ≡ (
      if actor == 0
      then ([], err invalid_input)
      else draft_validated ports actor (validate_create_draft_input input))
  unfolding create_draft validate_actor
  create_draft_lem = ground arith

  -- `CreateDraft` makes at most one call to store a draft, and makes it for the actor it is given,
  -- with the draft in its trimmed form, exactly if the actor is identified, the draft is valid and
  -- the actor has mailings; it succeeds exactly if that storing does, with its identity.
  pub create_draft-Outcome : Outcome ports actor input (create_draft ports actor input)
  create_draft-Outcome = rw create_draft_lem (elim (Bool-cases (actor == 0)) [
    | inl z ↦ rw z (refused invalid_input (λ s. ground (arith, z, s.identified)))
    | inr n ↦ rw n (elim (accepted_or_not input) [
      | inl (d, e) ↦
          rw e (available_or_not (ports.has_mailings actor) refl (λ z. ground (arith, z, n)) d)
      | inr (ill, e) ↦ rw e (refused invalid_input (λ s. ill s.valid))
    ])
  ])

abbrev Named : ℕ → ℕ → Type 0
Named actor mailing_id = (actor ≢ 0) × (mailing_id ≢ 0)

-- How a queueing may end, by what it is given, whether the actor has mailings, and the failure.
pub record QueueEnds (actor mailing_id : ℕ) (has : Bool) (failure : Option Failure)
    (outcome : List Call × Option ConsoleError) : Type 0 where
  pub called : (outcome.0 ≡ queued actor mailing_id ∷ []) ↔ (Named actor mailing_id × (has ≡ true))
  pub uncalled : (outcome.0 ≡ []) ↔ ((actor ≡ 0) ⊎ (mailing_id ≡ 0) ⊎ (has ≡ false))
  pub succeeds : (outcome.1 ≡ none) ↔ (Named actor mailing_id × (has ≡ true) × (failure ≡ none))
  pub is_invalid_input :
      (sentinel_of outcome.1 ≡ some err_invalid_input) ↔ ((actor ≡ 0) ⊎ (mailing_id ≡ 0))
  pub is_not_found :
      (sentinel_of outcome.1 ≡ some err_not_found)
      ↔ (Named actor mailing_id × ((has ≡ false) ⊎ Fails (λ f. f.is_not_found ≡ true) failure))
  pub is_invalid_state : (sentinel_of outcome.1 ≡ some err_invalid_state) ↔ (
      Named actor mailing_id
      × (has ≡ true)
      × Fails (λ f. (f.is_not_found ≡ false) × (f.is_invalid_state ≡ true)) failure)
  pub is_no_eligible : (sentinel_of outcome.1 ≡ some err_no_eligible_recipients) ↔ (
      Named actor mailing_id
      × (has ≡ true)
      × Fails
          (λ f. (f.is_not_found ≡ false) × (f.is_invalid_state ≡ false) × (f.is_no_eligible ≡ true))
          failure)
  pub cause :
      cause_of outcome.1 ≡ (if actor == 0 || mailing_id == 0 || not has then none else failure)

-- The outcome by the same things.
abbrev outcome_of : ℕ → ℕ → Bool → Option Failure → List Call × Option ConsoleError
outcome_of actor mailing_id has failure =
    if actor == 0 || mailing_id == 0
    then ([], some invalid_input)
    else if not has
    then ([], some not_found)
    else (queued actor mailing_id ∷ [], translated failure)

queue_lem :
    (ports : Ports) (actor mailing_id : ℕ)
    → queue ports actor mailing_id
      ≡ outcome_of actor mailing_id (ports.has_mailings actor) (ports.queue actor mailing_id)
unfolding queue validate_actor
queue_lem ports actor mailing_id = ground arith

outcome_ends :
    (actor mailing_id : ℕ) (has : Bool) (failure : Option Failure)
    → QueueEnds actor mailing_id has failure (outcome_of actor mailing_id has failure)
unfolding translate_lifecycle_failure
outcome_ends actor mailing_id has none = record {
  called = ground arith;
  uncalled = ground arith;
  succeeds = ground arith;
  is_invalid_input = ground arith;
  is_not_found = ground arith;
  is_invalid_state = ground arith;
  is_no_eligible = ground arith;
  cause = ground arith;
}
outcome_ends actor mailing_id has (some f) = record {
  called = ground arith;
  uncalled = ground arith;
  succeeds = ground arith;
  is_invalid_input = ground arith;
  is_not_found = ground arith;
  is_invalid_state = ground arith;
  is_no_eligible = ground arith;
  cause = ground arith;
}

-- A queueing calls the mailing exactly if both identities are given and the actor has mailings, and
-- succeeds exactly if the mailing then does; every other end is an error with the sentinel of its
-- reason, where the first of the mailing's sentinels counts, and the mailing's failure is kept.
pub queue-QueueEnds :
    (ports : Ports) (actor mailing_id : ℕ)
    → QueueEnds actor mailing_id
        (ports.has_mailings actor)
        (ports.queue actor mailing_id)
        (queue ports actor mailing_id)
queue-QueueEnds ports actor mailing_id =
    rw (queue_lem ports actor mailing_id)
      (outcome_ends actor mailing_id (ports.has_mailings actor) (ports.queue actor mailing_id))
