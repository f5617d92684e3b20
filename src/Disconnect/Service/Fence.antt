-- ===== src/Disconnect/Service/Fence.antt =====
-- What the calls of a disconnect may do to the account and its remote session.
use cresora.Prelude.{
  ℕ, ◌+◌, ◌≡◌, inl, refl, true, Option, none, some, [], ◌∷◌, Some, arith, nat_eq, ◌||◌,
}
use cresora.Prelude.Result.{Result, ok, err}
use cresora.Account.{
  Account, Status, active, reauth_required, authenticating, disconnected, disconnecting,
  begin_disconnect, mark_disconnected, same_status,
}
use cresora.Auth.Errors.{Context}
use cresora.Disconnect.Outcome.{
  Failure, RevokeOutcome, converged, validate_outcome, failure_of, validate_outcome_iff,
}
use cresora.Disconnect.Ports.{Ports, Trace, Call, loads, persists, revokes}
use cresora.Disconnect.Service.{
  target_of, finish_disconnect, complete_revoked, revoke_and_complete, begin_intent,
  disconnect_loaded, disconnect_read, disconnect,
}

-- The snapshot `a` asks for the remote logout of this account at this version.
abbrev pub Marks : Account → ℕ → ℕ → Type 0
Marks a id version =
    (a.id ≡ id)
    × (a.status ≡ disconnecting)
    × (a.remote_logout_required ≡ true)
    × (a.version ≡ version)

-- The actor read or wrote such a snapshot.
abbrev pub IsIntent : ℕ → ℕ → ℕ → Call → Type 0
IsIntent actor id version (loads by _ (ok a)) = (by ≡ actor) × Marks a id version
IsIntent actor id version (persists by a _ none) = (by ≡ actor) × Marks a id version
IsIntent actor id version _ = ⊥

-- The runtime revoked the actor's account at this version, and it converged.
abbrev pub IsRevoked : ℕ → ℕ → ℕ → Call → Type 0
IsRevoked actor id version (revokes target o) =
    (target.actor ≡ actor)
    × (target.account_id ≡ id)
    × (target.version ≡ version)
    × (converged o ≡ true)
IsRevoked actor id version _ = ⊥

-- The actor read the account at this version.
abbrev pub IsRead : ℕ → ℕ → ℕ → Call → Type 0
IsRead actor id version (loads by _ (ok a)) = (by ≡ actor) × (a.id ≡ id) × (a.version ≡ version)
IsRead actor id version _ = ⊥

-- What may be written over the version `v`, by the status that is written.
abbrev pub MayWrite : Trace → ℕ → Account → ℕ → Status → Type 0
MayWrite t actor a v disconnected = (a.version ≡ v + 1) × Some (IsRevoked actor a.id v) t
MayWrite t actor a v disconnecting =
    (a.version ≡ v + 1) × (a.remote_logout_required ≡ true) × Some (IsRead actor a.id v) t
MayWrite t actor a v _ = ⊥

-- What the calls before it allow a call to do.
abbrev pub MayCall : Trace → Call → Type 0
MayCall t (revokes target _) = Some (IsIntent target.actor target.account_id target.version) t
MayCall t (persists actor a v _) = MayWrite t actor a v a.status
MayCall t _ = Unit

unfoldable pub IsFenced : Trace → Type 0
IsFenced [] = Unit
IsFenced (c ∷ t) = MayCall t c × IsFenced t

pub mark_disconnected-Marks :
    (a : Account)
    → (mark_disconnected a).1 ≡ none
    → let b = (mark_disconnected a).0 in
      (b.status ≡ disconnected) × (b.id ≡ a.id) × (b.version ≡ a.version + 1)
unfolding mark_disconnected
mark_disconnected-Marks a h = ground arith

-- A write of what `MarkDisconnected` left behind is allowed after a revocation that converged.
pub disconnected-MayWrite :
    (t : Trace) (actor : ℕ) (a : Account)
    → (mark_disconnected a).1 ≡ none
    → Some (IsRevoked actor a.id a.version) t
    → let b = (mark_disconnected a).0 in MayWrite t actor b a.version b.status
disconnected-MayWrite t actor a h revoked =
    let (s, i, v) = mark_disconnected-Marks a h in rw s (v, rw i revoked)

pub finish_disconnect-IsFenced :
    (p : Ports) (t : Trace) (actor : ℕ) (a : Account)
    → Some (IsRevoked actor a.id a.version) t
    → IsFenced t
    → IsFenced (finish_disconnect p t actor a).0
unfolding finish_disconnect IsFenced
finish_disconnect-IsFenced p t actor a revoked fenced =
    ground (arith, disconnected-MayWrite t actor a)

-- A valid outcome without a failure is a convergence.
pub converged_lem :
    (o : RevokeOutcome) → validate_outcome o ≡ none → failure_of o ≡ none → converged o ≡ true
converged_lem o valid clean = ground (arith, validate_outcome_iff o)

complete_revoked-IsFenced :
    (p : Ports) (t : Trace) (actor : ℕ) (a : Account) (o : RevokeOutcome)
    → (validate_outcome o ≡ none → failure_of o ≡ none → Some (IsRevoked actor a.id a.version) t)
    → IsFenced t
    → IsFenced (complete_revoked p t actor a o).0
unfolding complete_revoked
complete_revoked-IsFenced p t actor a o revoked fenced =
    ground (arith, finish_disconnect-IsFenced p t actor a)

revoke_and_complete-IsFenced :
    (p : Ports) (t : Trace) (actor : ℕ) (a : Account)
    → Some (IsIntent actor a.id a.version) t
    → IsFenced t
    → IsFenced (revoke_and_complete p t actor a).0
unfolding revoke_and_complete IsFenced
revoke_and_complete-IsFenced p t actor a intent fenced =
    let o = p.revoke_and_stop t (target_of actor a) in
    let u : Trace = revokes (target_of actor a) o ∷ t in
    let next =
      complete_revoked-IsFenced p u actor a o
        (λ valid clean. inl (refl, refl, refl, converged_lem o valid clean)) (intent, fenced) in
    ground (arith, next)

-- What a successful `BeginDisconnect` leaves behind, if a remote session exists.
pub begin_disconnect-Marks :
    (a : Account)
    → same_status a.status active || same_status a.status reauth_required ≡ true
    → (begin_disconnect a).1 ≡ none
    → Marks (begin_disconnect a).0 a.id (a.version + 1)
unfolding begin_disconnect
begin_disconnect-Marks a remote h = ground arith

-- A write of what it left behind is allowed after the read of the account.
begin_disconnect-MayWrite :
    (t : Trace) (actor : ℕ) (a : Account)
    → same_status a.status active || same_status a.status reauth_required ≡ true
    → Some (IsRead actor a.id a.version) t
    → (begin_disconnect a).1 ≡ none
    → let b = (begin_disconnect a).0 in MayWrite t actor b a.version b.status
begin_disconnect-MayWrite t actor a remote read h =
    let (i, s, l, v) = begin_disconnect-Marks a remote h in rw s (v, l, rw i read)

-- Once the intent is stored, its own write is what allows the revocation.
stored-IsFenced :
    (p : Ports) (t : Trace) (actor : ℕ) (b : Account) (v : ℕ) (answer : Option Failure)
    → answer ≡ none
    → Marks b b.id b.version
    → MayWrite t actor b v b.status
    → IsFenced t
    → IsFenced (revoke_and_complete p (persists actor b v answer ∷ t) actor b).0
unfolding IsFenced
stored-IsFenced p t actor b v none h marks may fenced =
    revoke_and_complete-IsFenced p (persists actor b v none ∷ t) actor b (inl (refl, marks))
      (may, fenced)
stored-IsFenced p t actor b v (some e) h marks may fenced = cc

begin_intent-IsFenced :
    (p : Ports) (t : Trace) (actor : ℕ) (a : Account)
    → same_status a.status active || same_status a.status reauth_required ≡ true
    → Some (IsRead actor a.id a.version) t
    → IsFenced t
    → IsFenced (begin_intent p t actor a).0
unfolding begin_intent IsFenced
begin_intent-IsFenced p t actor a remote read fenced =
    let b = (begin_disconnect a).0 in
    let answer = p.persist_lifecycle t actor b a.version in
    ground (
      arith,
      begin_disconnect-MayWrite t actor a remote read,
      begin_disconnect-Marks a remote,
      stored-IsFenced p t actor b a.version answer,
    )

disconnect_loaded-IsFenced :
    (p : Ports) (t : Trace) (actor : ℕ) (a : Account) (s : Status)
    → a.status ≡ s
    → Some (IsRead actor a.id a.version) t
    → (Marks a a.id a.version → Some (IsIntent actor a.id a.version) t)
    → IsFenced t
    → IsFenced (disconnect_loaded p t actor a s).0
unfolding disconnect_loaded
disconnect_loaded-IsFenced p t actor a disconnected e read intent fenced = fenced
disconnect_loaded-IsFenced p t actor a active e read intent fenced =
    begin_intent-IsFenced p t actor a (rw e refl) read fenced
disconnect_loaded-IsFenced p t actor a reauth_required e read intent fenced =
    begin_intent-IsFenced p t actor a (rw e refl) read fenced
disconnect_loaded-IsFenced p t actor a disconnecting e read intent fenced =
    ground (arith, revoke_and_complete-IsFenced p t actor a)
disconnect_loaded-IsFenced p t actor a authenticating e read intent fenced = fenced
disconnect_loaded-IsFenced p t actor a (Status.unlisted n) e read intent fenced = fenced

-- The result of the load, whatever it was.
loaded-IsFenced :
    (p : Ports) (t : Trace) (actor id : ℕ) (answer : Result Failure Account)
    → IsFenced t
    → IsFenced (disconnect_read p (loads actor id answer ∷ t) actor id answer).0
unfolding disconnect_read IsFenced
loaded-IsFenced p t actor id (err e) fenced = (tt, fenced)
loaded-IsFenced p t actor id (ok a) fenced =
    let u : Trace = loads actor id (ok a) ∷ t in
    let next = λ (same : a.id ≡ id).
      disconnect_loaded-IsFenced p u actor a a.status refl (inl (refl, refl, refl))
        (λ marks. inl (refl, marks)) (tt, fenced) in
    ground (arith, next)

-- After calls that kept to this, and whatever the ports answer, `Disconnect` asks the runtime to
-- revoke an account only at a version at which the actor has read or stored an intent for its
-- remote logout, stores such an intent only one version above one that it read, and stores the
-- account as disconnected only one version above one at which the revocation converged.
pub disconnect-IsFenced :
    (p : Ports) (ctx : Context) (t : Trace) (actor id : ℕ)
    → IsFenced t
    → IsFenced (disconnect p ctx t actor id).0
unfolding disconnect
disconnect-IsFenced p ctx t actor id fenced =
    ground (arith, loaded-IsFenced p t actor id (p.load_account t actor id))
