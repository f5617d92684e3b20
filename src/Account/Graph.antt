-- ===== src/Account/Graph.antt =====
-- The lifecycle graph that status.go documents, against the operations.
use cresora.Prelude.{
  ℕ, ◌+◌, ◌≤◌, ◌≡◌, ◌≢◌, Bool, true, false, Option, none, some, List, [], ◌∷◌, pos, arith, not,
}
use cresora.Account.{
  Status, authenticating, active, reauth_required, disconnected, disconnecting, session_invalid,
  Account, AccountError, max_version, begin_authentication, activate, require_reauthentication,
  begin_disconnect, mark_disconnected, Operation, begins_authentication, activates,
  requires_reauthentication, begins_disconnect, marks_disconnected, call, history, same_status,
}
use cresora.Account.Invariant.{IsValid}

-- "The only transitions are": authenticating -> active or disconnecting, active -> reauth_required
-- or disconnecting, reauth_required -> authenticating or disconnecting, disconnected ->
-- authenticating, and disconnecting -> disconnected.
abbrev pub is_edge : Status → Status → Bool
is_edge authenticating active = true
is_edge authenticating disconnecting = true
is_edge active reauth_required = true
is_edge active disconnecting = true
is_edge reauth_required authenticating = true
is_edge reauth_required disconnecting = true
is_edge disconnected authenticating = true
is_edge disconnecting disconnected = true
is_edge _ _ = false

-- What a call that returned (b, e) did to `a`: nothing at all if it failed; otherwise it followed
-- one edge of the graph and advanced the version by one, for the same identity.
abbrev pub Effect : Account → Account → Option AccountError → Type 0
Effect a b (some e) = b ≡ a
Effect a b none = (is_edge a.status b.status ≡ true) × (b.version ≡ a.version + 1) × (b.id ≡ a.id)

-- Every call either fails and leaves the account exactly as it was, or follows one edge of the
-- documented graph and raises the version by one, keeping the identity.
pub call-Effect : (a : Account) (o : Operation) → Effect a (call a o).0 (call a o).1
unfolding call
call-Effect a (begins_authentication t) = unfold begin_authentication in ground arith
call-Effect a (activates u) = unfold activate in ground arith
call-Effect a (requires_reauthentication c) = unfold require_reauthentication in ground arith
call-Effect a begins_disconnect = unfold begin_disconnect in ground arith
call-Effect a marks_disconnected = unfold mark_disconnected in ground arith

-- The call that follows an edge from a given status, with arguments that are accepted.
abbrev pub operation_for : Status → Operation
operation_for authenticating = begins_authentication 1
operation_for active = activates (pos 1)
operation_for reauth_required = requires_reauthentication session_invalid
operation_for disconnecting = begins_disconnect
operation_for _ = marks_disconnected

-- Every documented edge can be followed: from a well-formed account whose version is not the
-- greatest, the operation named for the edge's end succeeds and arrives there.
call-operation_for :
    (a : Account) (t : Status)
    → IsValid a
    → a.version ≢ max_version
    → is_edge a.status t ≡ true
    → ((call a (operation_for t)).1 ≡ none) × ((call a (operation_for t)).0.status ≡ t)
unfolding call
call-operation_for a authenticating v room e = unfold begin_authentication in ground arith
call-operation_for a active v room e = unfold activate in ground arith
call-operation_for a reauth_required v room e = unfold require_reauthentication in ground arith
call-operation_for a disconnecting v room e = unfold begin_disconnect in ground arith
call-operation_for a disconnected v room e = unfold mark_disconnected in ground arith
call-operation_for a (Status.unlisted n) v room e = ground arith

-- At the greatest version no call succeeds, and the version never wraps.
pub call_exhausted : (a : Account) (o : Operation) → a.version ≡ max_version → (call a o).1 ≢ none
unfolding call
call_exhausted a (begins_authentication t) h = unfold begin_authentication in ground arith
call_exhausted a (activates u) h = unfold activate in ground arith
call_exhausted a (requires_reauthentication c) h = unfold require_reauthentication in ground arith
call_exhausted a begins_disconnect h = unfold begin_disconnect in ground arith
call_exhausted a marks_disconnected h = unfold mark_disconnected in ground arith

-- The calls of a history that succeeded.
abbrev pub succeeded : Option AccountError → ℕ
succeeded none = 1
succeeded (some e) = 0

pub successes : Account → List Operation → ℕ
successes a [] = 0
successes a (o ∷ os) = succeeded (call a o).1 + successes (call a o).0 os

version-Effect :
    (a b : Account) (e : Option AccountError) → Effect a b e → b.version ≡ a.version + succeeded e
version-Effect a b none h = h.1
version-Effect a b (some e) h = rw h (omega arith)

succeeded-le-room :
    (v : ℕ) (e : Option AccountError)
    → v ≤ max_version
    → (v ≡ max_version → e ≢ none)
    → v + succeeded e ≤ max_version
succeeded-le-room v none h full = ground (arith, full)
succeeded-le-room v (some e) h full = omega arith

-- The version counts the successful calls, without wrap: after any history it is the version at the
-- start plus their number, and it stays within 64 bits.
version-history :
    (a : Account) (os : List Operation)
    → a.version ≤ max_version
    → ((history a os).version ≡ a.version + successes a os) × ((history a os).version ≤ max_version)
unfolding history successes
version-history a [] h = omega arith
version-history a (o ∷ os) h =
    let one = version-Effect a (call a o).0 (call a o).1 (call-Effect a o) in
    let room = succeeded-le-room a.version (call a o).1 h (call_exhausted a o) in
    omega (arith, one, room, version-history (call a o).0 os (omega (arith, one, room)))

-- A successful `BeginDisconnect` of a well-formed account requires a remote logout exactly if the
-- account was not authenticating, and a `MarkDisconnected` after it keeps the Telegram identity.
pub disconnect_remembers :
    (a : Account)
    → IsValid a
    → (begin_disconnect a).1 ≡ none
    → ((begin_disconnect a).0.remote_logout_required ≡ not (same_status a.status authenticating))
      × ((mark_disconnected (begin_disconnect a).0).0.telegram_user_id ≡ a.telegram_user_id)
unfolding begin_disconnect mark_disconnected
disconnect_remembers a v h = ground arith
