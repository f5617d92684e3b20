-- ===== src/Disconnect/Service/Completion.antt =====
-- When a disconnect goes through.
use cresora.Prelude.{ℕ, ◌+◌, ◌<◌, ◌≡◌, ◌≢◌, refl, true, none, ◌∷◌, arith, nat_eq, ◌||◌}
use cresora.Prelude.Result.{ok}
use cresora.Account.{
  Account, Status, active, reauth_required, authenticating, disconnected, disconnecting,
  begin_disconnect, mark_disconnected, same_status, max_version,
}
use cresora.Auth.Errors.{background}
use cresora.Auth.Challenge.{AuthTarget}
use cresora.Disconnect.Outcome.{validate_outcome, failure_of}
use cresora.Disconnect.Ports.{Ports, Trace, loads, persists, revokes}
use cresora.Disconnect.Service.{
  completed, Reply, target_of, validate_disconnect_input, validate_runtime_target,
  finish_disconnect, complete_revoked, revoke_and_complete, begin_intent, disconnect_loaded,
  disconnect_read, disconnect,
}
use cresora.Disconnect.Service.Fence.{begin_disconnect-Marks}

-- The reply is "completed", for this account.
abbrev pub Completes : Account → Reply → Type 0
Completes a (u, r, e) = (e ≡ none) × (r.outcome ≡ completed) × (r.account ≡ a)

-- The ports serve the actor: the account is loaded, writes are taken and revocations converge.
pub record Serves (p : Ports) (actor : ℕ) (a : Account) : Type 0 where
  pub loaded : (u : Trace) → p.load_account u actor a.id ≡ ok a
  pub taken : (u : Trace) (b : Account) (v : ℕ) → p.persist_lifecycle u actor b v ≡ none
  pub valid :
      (u : Trace) (target : AuthTarget) → validate_outcome (p.revoke_and_stop u target) ≡ none
  pub clean : (u : Trace) (target : AuthTarget) → failure_of (p.revoke_and_stop u target) ≡ none

begin_disconnect-can :
    (a : Account)
    → a.version + 1 < max_version
    → same_status a.status active || same_status a.status reauth_required ≡ true
    → (begin_disconnect a).1 ≡ none
unfolding begin_disconnect
begin_disconnect-can a room remote = ground arith

mark_disconnected-can :
    (b : Account)
    → b.version < max_version
    → b.status ≡ disconnecting
    → (mark_disconnected b).1 ≡ none
unfolding mark_disconnected
mark_disconnected-can b room s = ground arith

revoke_and_complete-Completes :
    (p : Ports) (t : Trace) (actor : ℕ) (a b : Account)
    → Serves p actor a
    → actor ≢ 0
    → b.id ≢ 0
    → b.version ≢ 0
    → b.status ≡ disconnecting
    → (mark_disconnected b).1 ≡ none
    → Completes (mark_disconnected b).0 (revoke_and_complete p t actor b)
unfolding revoke_and_complete complete_revoked finish_disconnect validate_runtime_target
revoke_and_complete-Completes p t actor a b serves ha hi hv s can =
    let target = target_of actor b in
    let u : Trace = revokes target (p.revoke_and_stop t target) ∷ t in
    ground (
      arith,
      serves.valid t target,
      serves.clean t target,
      serves.taken u (mark_disconnected b).0 b.version,
    )

begin_intent-Completes :
    (p : Ports) (t : Trace) (actor : ℕ) (a : Account)
    → Serves p actor a
    → actor ≢ 0
    → a.id ≢ 0
    → a.version + 1 < max_version
    → same_status a.status active || same_status a.status reauth_required ≡ true
    → Completes (mark_disconnected (begin_disconnect a).0).0 (begin_intent p t actor a)
unfolding begin_intent
begin_intent-Completes p t actor a serves ha hi room remote =
    let b = (begin_disconnect a).0 in
    let answer = p.persist_lifecycle t actor b a.version in
    let can = begin_disconnect-can a room remote in
    let (i, s, l, v) = begin_disconnect-Marks a remote can in
    let next =
      revoke_and_complete-Completes p (persists actor b a.version answer ∷ t) actor a b serves ha
        (rw i hi) (omega (arith, v)) s (mark_disconnected-can b (rw v room) s) in
    ground (arith, can, serves.taken t b a.version, next)

loaded-Completes :
    (p : Ports) (t : Trace) (actor : ℕ) (a : Account) (s : Status)
    → Serves p actor a
    → actor ≢ 0
    → a.id ≢ 0
    → a.version + 1 < max_version
    → same_status a.status active || same_status a.status reauth_required ≡ true
    → a.status ≡ s
    → Completes (mark_disconnected (begin_disconnect a).0).0 (disconnect_loaded p t actor a s)
unfolding disconnect_loaded
loaded-Completes p t actor a active serves ha hi room remote e =
    begin_intent-Completes p t actor a serves ha hi room remote
loaded-Completes p t actor a reauth_required serves ha hi room remote e =
    begin_intent-Completes p t actor a serves ha hi room remote
loaded-Completes p t actor a authenticating serves ha hi room remote e = ground arith
loaded-Completes p t actor a disconnected serves ha hi room remote e = ground arith
loaded-Completes p t actor a disconnecting serves ha hi room remote e = ground arith
loaded-Completes p t actor a (Status.unlisted n) serves ha hi room remote e = ground arith

read-Completes :
    (p : Ports) (t : Trace) (actor : ℕ) (a : Account)
    → Serves p actor a
    → actor ≢ 0
    → a.id ≢ 0
    → a.version + 1 < max_version
    → same_status a.status active || same_status a.status reauth_required ≡ true
    → Completes (mark_disconnected (begin_disconnect a).0).0 (disconnect_read p t actor a.id (ok a))
unfolding disconnect_read
read-Completes p t actor a serves ha hi room remote =
    ground (arith, loaded-Completes p t actor a a.status serves ha hi room remote refl)

-- A disconnect of a signed-in account goes through if the ports serve it: when the load gives the
-- account, writes are taken and revocations converge, and two versions are left, the reply is
-- "completed" without an error, for what `MarkDisconnected` makes of what `BeginDisconnect` makes of
-- the account.
pub disconnect-Completes :
    (p : Ports) (t : Trace) (actor : ℕ) (a : Account)
    → Serves p actor a
    → actor ≢ 0
    → a.id ≢ 0
    → a.version + 1 < max_version
    → same_status a.status active || same_status a.status reauth_required ≡ true
    → Completes (mark_disconnected (begin_disconnect a).0).0 (disconnect p background t actor a.id)
unfolding disconnect validate_disconnect_input
disconnect-Completes p t actor a serves ha hi room remote =
    let answer = p.load_account t actor a.id in
    let next = read-Completes p (loads actor a.id answer ∷ t) actor a serves ha hi room remote in
    ground (arith, serves.loaded t, next)
