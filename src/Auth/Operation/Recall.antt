-- ===== src/Auth/Operation/Recall.antt =====
-- What a repeated request learns after its challenge has ended.
use cresora.Prelude.{
  ℕ, ◌+◌, ◌≡◌, refl, ◌∙◌, Bool, true, false, ◌&&◌, Option, none, some, List, [], ◌∷◌, arith, nat_eq,
  ltb, if◌then◌else◌, ◌==◌,
}
use cresora.Prelude.Maps.{lookup, lookup-insert, lookup-delete}
use cresora.Auth.Errors.{
  AuthError, background, runtime_context_error, runtime_challenge_not_found, authentication_aborted,
}
use cresora.Auth.Challenge.{AccountView, TerminalResult}
use cresora.Auth.Registry.{Registry, points_to, remove_with_tombstone}
use cresora.Auth.Methods.{owned}
use cresora.Auth.Operation.{Action, Result, no_result, account_result, recall, dispatch, operation}

-- The end of a live challenge at `now`, with an account or by an abort.
abbrev pub ended : ℕ → Registry → ℕ → Option AccountView → Registry
ended now g p none = remove_with_tombstone now g p none true
ended now g p (some account) = remove_with_tombstone now g p (some account) false

abbrev pub outcome : Option AccountView → Result × List AuthError
outcome none = (no_result, authentication_aborted ∷ [])
outcome (some account) = (account_result account, [])

-- The result that is kept.
abbrev stone_of : ℕ → Registry → ℕ → Option AccountView → Bool → TerminalResult
stone_of now g p account aborted = record {
  actor_id = (g.heap p).target.actor;
  expires = now + g.ttl;
  account_result = account;
  aborted = aborted;
}

tombstone_remains :
    (now : ℕ) (g : Registry) (p : ℕ) (account : Option AccountView) (aborted : Bool)
    → lookup (g.heap p).request_id g.challenges ≡ some p
    → let h = remove_with_tombstone now g p account aborted in
      (h.closed ≡ g.closed)
      × (lookup (g.heap p).request_id h.challenges ≡ none)
      × (lookup (g.heap p).request_id h.tombstones ≡ some (stone_of now g p account aborted))
unfolding remove_with_tombstone points_to
tombstone_remains now g p account aborted there =
    let id = (g.heap p).request_id in
    ground (
      arith,
      lookup-delete id id g.challenges,
      lookup-insert id id (stone_of now g p account aborted) g.tombstones,
    )

-- A request that has only a terminal result is answered from it.
operation-recall :
    {W : Type 0} (now : ℕ) (w : W) (h : Registry) (actor id : ℕ) (s : TerminalResult)
    (action : Action W)
    → h.closed ≡ false
    → lookup id h.challenges ≡ none
    → lookup id h.tombstones ≡ some s
    → operation background now w h actor id action
      ≡ (w, h, (recall now actor (some s)).0, (recall now actor (some s)).1)
unfolding operation runtime_context_error dispatch owned
operation-recall now w h actor id s action unclosed gone kept =
    rw (unclosed) (rw (gone, owned) (rw kept refl))

-- Once a live challenge has ended, a request for it by any actor at any later time is answered
-- without a step of its action: with the account, or the abort, for its own actor as long as the
-- result is kept, and with "not found" for anybody else and afterwards.
pub operation_recalls :
    {W : Type 0} (ended_at now : ℕ) (w : W) (g : Registry) (actor id p : ℕ)
    (account : Option AccountView) (action : Action W)
    → g.closed ≡ false
    → (g.heap p).request_id ≡ id
    → lookup id g.challenges ≡ some p
    → let h = ended ended_at g p account in
      let (result, failure) =
        if (g.heap p).target.actor == actor && ltb now (ended_at + g.ttl)
        then outcome account
        else (no_result, runtime_challenge_not_found ∷ []) in
      operation background now w h actor id action ≡ (w, h, result, failure)
unfolding recall
operation_recalls ended_at now w g actor id p none action unclosed mine there =
    let f = tombstone_remains ended_at g p none true (rw mine there) in
    rw
      (operation-recall now w (ended ended_at g p none) actor id (stone_of ended_at g p none true)
        action (f.0 ∙ unclosed) (rw (← mine) f.1) (rw (← mine) f.2))
      (ground arith)
operation_recalls ended_at now w g actor id p (some account) action unclosed mine there =
    let f = tombstone_remains ended_at g p (some account) false (rw mine there) in
    rw
      (operation-recall now w (ended ended_at g p (some account)) actor id
        (stone_of ended_at g p (some account) false) action (f.0 ∙ unclosed) (rw (← mine) f.1)
        (rw (← mine) f.2))
      (ground arith)
