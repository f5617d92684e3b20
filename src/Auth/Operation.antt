-- ===== src/Auth/Operation.antt =====
-- operatoraccountauth/challenge_operation.go and `Operation` of challenge_registry.go: one operation
-- on a challenge, between the lock and the unlock of its record.
pub mod Keeps
pub mod Recall
use cresora.Prelude.{
  ℕ, ◌+◌, Bool, true, false, not, ◌&&◌, ◌||◌, Option, none, some, List, [], ◌∷◌, ltb, leb, ◌==◌,
  nat_eq, if◌then◌else◌, is_none,
}
use cresora.Prelude.Maps.{lookup}
use cresora.Auth.Errors.{
  AuthError, Failures, invalid_input, provider_unavailable, authentication_aborted,
  runtime_challenge_expired, runtime_challenge_not_found, runtime_closed, Context,
  runtime_context_error,
}
use cresora.Auth.Challenge.{
  max_code_attempts, max_password_attempts, Text, AuthTarget, Stage, no_stage, code_stage,
  password_stage, Profile, AccountView, Challenge, ChallengeRecord, TerminalResult, projection,
}
use cresora.Auth.Registry.{Registry, store, remove_with_tombstone}
use cresora.Auth.Methods.{owned}

-- The registry rides along, since an operation writes to it; `account` is set with `completed`.
pub record ChallengeOperation : Type 0 where
  pub registry : Registry
  pub pointer : ℕ
  pub completed : Bool
  pub aborted : Bool
  pub account : Option AccountView

-- The record that the operation holds.
abbrev pub held : ChallengeOperation → ChallengeRecord
held o = o.registry.heap o.pointer

abbrev pub write : ChallengeOperation → ChallengeRecord → ChallengeOperation
write o r = record o { registry = store o.registry o.pointer r }

unfoldable pub reserve_code_attempt : ChallengeOperation → ChallengeOperation × Bool
unfolding store
reserve_code_attempt o =
    if leb max_code_attempts (held o).code_attempts
    then (o, false)
    else (write o (record (held o) { code_attempts = (held o).code_attempts + 1 }), true)

unfoldable pub reserve_password_attempt : ChallengeOperation → ChallengeOperation × Bool
unfolding store
reserve_password_attempt o =
    if leb max_password_attempts (held o).password_attempts
    then (o, false)
    else (write o (record (held o) { password_attempts = (held o).password_attempts + 1 }), true)

unfoldable pub set_pending_profile : ChallengeOperation → Profile → ChallengeOperation
unfolding store
set_pending_profile o profile =
    write o (record (held o) { pending_profile = some profile; hash = []; ready = false })

unfoldable pub set_stage : ChallengeOperation → Stage → ChallengeOperation × Option AuthError
unfolding store
set_stage o no_stage = (o, some invalid_input)
set_stage o stage = (write o (record (held o) { stage = stage }), none)

unfoldable pub complete : ℕ → ChallengeOperation → AccountView → ChallengeOperation
complete now o account = if o.completed || o.aborted then o else record o {
  registry = remove_with_tombstone now o.registry o.pointer (some account) false;
  completed = true;
  account = some account;
}

unfoldable pub abort : ℕ → ChallengeOperation → ChallengeOperation
abort now o = if o.completed || o.aborted then o else record o {
  registry = remove_with_tombstone now o.registry o.pointer none true;
  aborted = true;
}

-- `Result`: an account, a challenge, or (the zero value) neither.
pub record Result : Type 0 where
  pub account : Option AccountView
  pub challenge : Option Challenge

abbrev pub no_result : Result
no_result = record { account = none; challenge = none }

abbrev pub account_result : AccountView → Result
account_result a = record { account = some a; challenge = none }

abbrev pub challenge_result : ChallengeRecord → Result
challenge_result r = record { account = none; challenge = some (projection r) }

-- What a duplicate of a finished request learns, for the time that its result is kept.
unfoldable pub recall : ℕ → ℕ → Option TerminalResult → Result × Failures
recall now actor none = (no_result, runtime_challenge_not_found ∷ [])
recall now actor (some stone) =
    let missing : Result × Failures = (no_result, runtime_challenge_not_found ∷ []) in
    if stone.actor_id == actor && ltb now stone.expires
    then elim stone.account_result [
      | some account ↦ (account_result account, [])
      | none ↦ if stone.aborted then (no_result, authentication_aborted ∷ []) else missing
    ]
    else missing

unfoldable pub begin : Registry → ℕ → ChallengeOperation
begin g p = record { registry = g; pointer = p; completed = false; aborted = false; account = none }

-- The result of `Operation`, from what the action left behind.
unfoldable pub conclude : ChallengeOperation → Result
conclude o =
    if o.completed
    then record { account = o.account; challenge = none }
    else if o.aborted
    then no_result
    else challenge_result (held o)

-- What an operation does to a challenge by its methods, to the world outside (`W`), and the failure
-- that it ends with.
abbrev pub Action : Type 0 → Type 0
Action W = W → ChallengeOperation → W × ChallengeOperation × Failures

abbrev pub Answer : Type 0 → Type 0
Answer W = W × Registry × Result × Failures

module _ {W : Type 0} where
  abbrev finished : W × ChallengeOperation × Failures → Answer W
  finished (w, o, failure) = (w, o.registry, conclude o, failure)

  -- `Operation` once the record is locked.
  unfoldable pub act : ℕ → W → Registry → ℕ → Action W → Answer W
  unfolding begin conclude
  act now w g p action =
      let r = g.heap p in
      if not (ltb now r.expires)
      then (w, g, challenge_result r, runtime_challenge_expired ∷ [])
      else if not r.ready && is_none r.pending_profile
      then (w, g, challenge_result r, provider_unavailable ∷ [])
      else finished (action w (begin g p))

  unfoldable pub dispatch : ℕ → W → Registry → ℕ → ℕ → Action W → Option ℕ → Answer W
  dispatch now w g actor request_id action none =
      let (result, failure) = recall now actor (lookup request_id g.tombstones) in
      (w, g, result, failure)
  dispatch now w g actor request_id action (some p) = act now w g p action

  unfoldable pub operation : Context → ℕ → W → Registry → ℕ → ℕ → Action W → Answer W
  operation ctx now w g actor request_id action = elim (runtime_context_error ctx) [
    | some e ↦ (w, g, no_result, e ∷ [])
    | none ↦
        if g.closed
        then (w, g, no_result, runtime_closed ∷ [])
        else dispatch now w g actor request_id action (owned g actor request_id)
  ]
