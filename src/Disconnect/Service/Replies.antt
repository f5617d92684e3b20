-- ===== src/Disconnect/Service/Replies.antt =====
-- What a reply of the disconnect command says about the stored account.
use cresora.Prelude.{
  ℕ, ◌≡◌, ◌≢◌, inl, inr, refl, true, Option, none, some, [], ◌∷◌, Some, arith, nat_eq, ◌||◌,
}
use cresora.Prelude.Result.{Result, ok, err}
use cresora.Account.{
  Account, Status, active, reauth_required, authenticating, disconnected, disconnecting,
  begin_disconnect, mark_disconnected, same_status,
}
use cresora.Auth.Errors.{Context}
use cresora.Disconnect.Outcome.{Failure, account_state_conflict, account_not_found, RevokeOutcome}
use cresora.Disconnect.Ports.{Ports, Trace, Call, loads, persists, revokes}
use cresora.Disconnect.Service.{
  DisconnectOutcome, completed, already_disconnected, pending, rejected, Reply, reply, nothing,
  target_of, finish_disconnect, complete_revoked, revoke_and_complete, begin_intent,
  disconnect_loaded, disconnect_read, disconnect,
}
use cresora.Disconnect.Service.Fence.{
  Marks, IsIntent, begin_disconnect-Marks, mark_disconnected-Marks,
}
use cresora.Disconnect.Recovery.Count.{revocations}

-- The actor's store took this account as disconnected.
abbrev pub IsStored : ℕ → Account → Call → Type 0
IsStored actor a (persists by b _ none) = (by ≡ actor) × (b.status ≡ disconnected) × (b ≡ a)
IsStored actor a _ = ⊥

-- The only call after `t` was the load of this identity, which gave this account.
abbrev pub IsReading : ℕ → ℕ → Trace → Trace → Account → Type 0
IsReading actor id t u a = (u ≡ loads actor id (ok a) ∷ t) × (a.id ≡ id)

abbrev OfOutcome : ℕ → ℕ → Trace → Trace → Account → Option Failure → DisconnectOutcome → Type 0
OfOutcome actor id t u a e completed = (e ≡ none) × Some (IsStored actor a) u
OfOutcome actor id t u a e already_disconnected =
    (e ≡ none)
    × (a.status ≡ disconnected)
    × IsReading actor id t u a
    × (revocations u ≡ revocations t)
OfOutcome actor id t u a e pending = (e ≢ none) × Some (IsIntent actor a.id a.version) u
OfOutcome actor id t u a e _ = (e ≢ none) × (revocations u ≡ revocations t)

-- What a reply about the account `id` means, after the calls `t`.
unfoldable pub IsHonest : ℕ → ℕ → Trace → Reply → Type 0
IsHonest actor id t (u, r, e) = OfOutcome actor id t u r.account e r.outcome

pending_lem :
    (actor id : ℕ) (t u : Trace) (a : Account)
    → Some (IsIntent actor a.id a.version) u
    → (e : Failure) → IsHonest actor id t (reply u a pending (some e))
unfolding IsHonest
pending_lem actor id t u a intent e = (λ h. cc, intent)

-- A result without a promise, before any call of the runtime.
refused_lem :
    (actor id : ℕ) (t u : Trace)
    → revocations u ≡ revocations t
    → (a : Account) (e : Failure) → IsHonest actor id t (reply u a rejected (some e))
unfolding IsHonest
refused_lem actor id t u same a e = (λ h. cc, same)

nothing_lem :
    (actor id : ℕ) (t u : Trace)
    → revocations u ≡ revocations t
    → (e : Failure) → IsHonest actor id t (nothing u e)
unfolding IsHonest
nothing_lem actor id t u same e = (λ h. cc, same)

stored_lem :
    (actor id : ℕ) (t u : Trace) (b : Account) (v : ℕ) (answer : Option Failure)
    → answer ≡ none
    → b.status ≡ disconnected
    → IsHonest actor id t (reply (persists actor b v answer ∷ u) b completed none)
unfolding IsHonest
stored_lem actor id t u b v none h e = (refl, inl (refl, e, refl))
stored_lem actor id t u b v (some x) h e = cc

finish_disconnect-IsHonest :
    (p : Ports) (t u : Trace) (actor id : ℕ) (a : Account)
    → Some (IsIntent actor a.id a.version) u
    → IsHonest actor id t (finish_disconnect p u actor a)
unfolding finish_disconnect
finish_disconnect-IsHonest p t u actor id a intent =
    let b = (mark_disconnected a).0 in
    let answer = p.persist_lifecycle u actor b a.version in
    grind (
      arith,
      pending_lem actor id t u a intent,
      pending_lem actor id t (persists actor b a.version answer ∷ u) a (inr intent),
      mark_disconnected-Marks a,
      stored_lem actor id t u b a.version answer,
    )

complete_revoked-IsHonest :
    (p : Ports) (t u : Trace) (actor id : ℕ) (a : Account) (o : RevokeOutcome)
    → Some (IsIntent actor a.id a.version) u
    → IsHonest actor id t (complete_revoked p u actor a o)
unfolding complete_revoked
complete_revoked-IsHonest p t u actor id a o intent =
    grind
      (arith, pending_lem actor id t u a intent, finish_disconnect-IsHonest p t u actor id a intent)

revoke_and_complete-IsHonest :
    (p : Ports) (t u : Trace) (actor id : ℕ) (a : Account)
    → Some (IsIntent actor a.id a.version) u
    → IsHonest actor id t (revoke_and_complete p u actor a)
unfolding revoke_and_complete
revoke_and_complete-IsHonest p t u actor id a intent =
    let o = p.revoke_and_stop u (target_of actor a) in
    let v : Trace = revokes (target_of actor a) o ∷ u in
    grind (
      arith,
      pending_lem actor id t u a intent,
      complete_revoked-IsHonest p t v actor id a o (inr intent),
    )

stored-IsHonest :
    (p : Ports) (t u : Trace) (actor id : ℕ) (b : Account) (v : ℕ) (answer : Option Failure)
    → answer ≡ none
    → Marks b b.id b.version
    → IsHonest actor id t (revoke_and_complete p (persists actor b v answer ∷ u) actor b)
stored-IsHonest p t u actor id b v none h marks =
    revoke_and_complete-IsHonest p t (persists actor b v none ∷ u) actor id b (inl (refl, marks))
stored-IsHonest p t u actor id b v (some e) h marks = cc

begin_intent-IsHonest :
    (p : Ports) (t u : Trace) (actor id : ℕ) (a : Account)
    → same_status a.status active || same_status a.status reauth_required ≡ true
    → revocations u ≡ revocations t
    → IsHonest actor id t (begin_intent p u actor a)
unfolding begin_intent revocations
begin_intent-IsHonest p t u actor id a remote same =
    let b = (begin_disconnect a).0 in
    let answer = p.persist_lifecycle u actor b a.version in
    grind (
      arith,
      begin_disconnect-Marks a remote,
      refused_lem actor id t u same b,
      nothing_lem actor id t (persists actor b a.version answer ∷ u) same,
      stored-IsHonest p t u actor id b a.version answer,
    )

disconnect_loaded-IsHonest :
    (p : Ports) (t u : Trace) (actor id : ℕ) (a : Account) (s : Status)
    → a.status ≡ s
    → revocations u ≡ revocations t
    → (Marks a a.id a.version → Some (IsIntent actor a.id a.version) u)
    → IsReading actor id t u a
    → IsHonest actor id t (disconnect_loaded p u actor a s)
unfolding disconnect_loaded IsHonest
disconnect_loaded-IsHonest p t u actor id a disconnected e same intent read = (refl, e, read, same)
disconnect_loaded-IsHonest p t u actor id a active e same intent read =
    begin_intent-IsHonest p t u actor id a (rw e refl) same
disconnect_loaded-IsHonest p t u actor id a reauth_required e same intent read =
    begin_intent-IsHonest p t u actor id a (rw e refl) same
disconnect_loaded-IsHonest p t u actor id a disconnecting e same intent read = ground (
  arith,
  refused_lem actor id t u same a (account_state_conflict ∷ []),
  revoke_and_complete-IsHonest p t u actor id a,
)
disconnect_loaded-IsHonest p t u actor id a authenticating e same intent read = (λ h. cc, same)
disconnect_loaded-IsHonest p t u actor id a (Status.unlisted n) e same intent read = (λ h. cc, same)

read-IsHonest :
    (p : Ports) (t : Trace) (actor id : ℕ) (answer : Result Failure Account)
    → IsHonest actor id t (disconnect_read p (loads actor id answer ∷ t) actor id answer)
unfolding disconnect_read revocations
read-IsHonest p t actor id (err e) = nothing_lem actor id t (loads actor id (err e) ∷ t) refl e
read-IsHonest p t actor id (ok a) =
    let u : Trace = loads actor id (ok a) ∷ t in
    ground (
      arith,
      nothing_lem actor id t u refl (account_not_found ∷ []),
      disconnect_loaded-IsHonest p t u actor id a a.status refl refl (λ marks. inl (refl, marks)),
    )

-- The reply of `Disconnect` has no error exactly if it is completed, for an account that the store
-- took as disconnected, or already disconnected, with no other call than the load of the account,
-- for the account of that identity which the load gave and whose status is disconnected; a pending
-- reply has an error and an account whose remote logout intent was read or stored at that version;
-- any other reply has an error and comes without a call of the runtime.
pub disconnect-IsHonest :
    (p : Ports) (ctx : Context) (t : Trace) (actor id : ℕ)
    → IsHonest actor id t (disconnect p ctx t actor id)
unfolding disconnect
disconnect-IsHonest p ctx t actor id =
    grind
      (arith, nothing_lem actor id t t refl, read-IsHonest p t actor id (p.load_account t actor id))
