-- ===== src/Disconnect/Recovery/Fenced.antt =====
-- The recovery obeys the same fence as the disconnect command.
use cresora.Prelude.{
  ℕ, ◌+◌, ◌≡◌, inl, inr, refl, true, Option, none, List, [], ◌∷◌, Some, arith, nat_eq,
}
use cresora.Prelude.Maps.{Map, insert}
use cresora.Prelude.Result.{Result, ok, err}
use cresora.Account.{Account, disconnecting, same_status_iff}
use cresora.Auth.Errors.{Context}
use cresora.Auth.Challenge.{AuthTarget}
use cresora.Disconnect.Outcome.{Failure, RemoteLogoutFailure, validate_outcome, failure_of}
use cresora.Disconnect.Ports.{Ports, Trace, loads, revokes, lists}
use cresora.Disconnect.Service.Fence.{
  Marks, IsIntent, IsRevoked, IsFenced, disconnected-MayWrite, converged_lem,
}
use cresora.Disconnect.Recovery.{
  RecoveryResult, matches_remote_logout_target, finish_recovery, settle, reload, attempt, consider,
  recover_target, recover_targets, recover, noted, reloaded, considered, recover_listed,
  new_recovery_result,
}

-- The remote session of the target's account is gone.
abbrev Gone : AuthTarget → Trace → Type 0
Gone target t = Some (IsRevoked target.actor target.account_id target.version) t

finish_recovery-IsFenced :
    (p : Ports) (t : Trace) (target : AuthTarget) (a : Account) (r : RecoveryResult)
    → Some (IsRevoked target.actor a.id a.version) t
    → IsFenced t
    → IsFenced (finish_recovery p t target a r).0
unfolding finish_recovery IsFenced
finish_recovery-IsFenced p t target a r revoked fenced =
    ground (arith, disconnected-MayWrite t target.actor a)

matches_lem :
    (a : Account) (target : AuthTarget)
    → matches_remote_logout_target a target ≡ true
    → Marks a target.account_id target.version
unfolding matches_remote_logout_target
matches_lem a target h = ground (arith, same_status_iff a.status disconnecting)

revoked_lem :
    (t : Trace) (a : Account) (target : AuthTarget)
    → Gone target t
    → matches_remote_logout_target a target ≡ true
    → Some (IsRevoked target.actor a.id a.version) t
revoked_lem t a target gone h = let (i, s, l, v) = matches_lem a target h in rw i (rw v gone)

settle-IsFenced :
    (p : Ports) (t : Trace) (target : AuthTarget) (failure : Option RemoteLogoutFailure)
    (a : Account) (r : RecoveryResult)
    → (failure ≡ none → Gone target t)
    → IsFenced t
    → IsFenced (settle p t target failure a r).0
unfolding settle
settle-IsFenced p t target failure a r gone fenced =
    ground (arith, revoked_lem t a target, finish_recovery-IsFenced p t target a r)

reloaded-IsFenced :
    (p : Ports) (t : Trace) (target : AuthTarget) (failure : Option RemoteLogoutFailure)
    (answer : Result Failure Account) (r : RecoveryResult)
    → (failure ≡ none → Gone target t)
    → IsFenced t
    → IsFenced
        (reloaded p (loads target.actor target.account_id answer ∷ t) target failure answer r).0
unfolding reloaded IsFenced
reloaded-IsFenced p t target failure (err e) r gone fenced = (tt, fenced)
reloaded-IsFenced p t target failure (ok a) r gone fenced =
    settle-IsFenced p (loads target.actor target.account_id (ok a) ∷ t) target failure a r
      (λ h. inr (gone h)) (tt, fenced)

attempt-IsFenced :
    (p : Ports) (t : Trace) (target : AuthTarget) (r : RecoveryResult)
    → Some (IsIntent target.actor target.account_id target.version) t
    → IsFenced t
    → IsFenced (attempt p t target r).0
unfolding attempt reload IsFenced
attempt-IsFenced p t target r intent fenced =
    let o = p.revoke_and_stop t target in
    let u : Trace = revokes target o ∷ t in
    let answer = p.load_account u target.actor target.account_id in
    let next = λ (valid : validate_outcome o ≡ none).
      reloaded-IsFenced p u target (failure_of o) answer r
        (λ clean. inl (refl, refl, refl, converged_lem o valid clean)) (intent, fenced) in
    ground (arith, next)

considered-IsFenced :
    (p : Ports) (t : Trace) (target : AuthTarget) (answer : Result Failure Account)
    (r : RecoveryResult)
    → IsFenced t
    → IsFenced (considered p (loads target.actor target.account_id answer ∷ t) target answer r).0
unfolding considered consider IsFenced
considered-IsFenced p t target (err e) r fenced = (tt, fenced)
considered-IsFenced p t target (ok a) r fenced =
    let u : Trace = loads target.actor target.account_id (ok a) ∷ t in
    let next = λ (same : matches_remote_logout_target a target ≡ true).
      attempt-IsFenced p u target (record r { attempted = r.attempted + 1 })
        (inl (refl, matches_lem a target same)) (tt, fenced) in
    ground (arith, next)

recover_target-IsFenced :
    (p : Ports) (t : Trace) (target : AuthTarget) (r : RecoveryResult)
    → IsFenced t
    → IsFenced (recover_target p t target r).0
unfolding recover_target
recover_target-IsFenced p t target r fenced =
    ground
      (arith, considered-IsFenced p t target (p.load_account t target.actor target.account_id) r)

recover_targets-IsFenced :
    (p : Ports) (t : Trace) (seen : Map {0, 0} ℕ Unit) (targets : List AuthTarget)
    (r : RecoveryResult) (fs : List Failure)
    → IsFenced t
    → IsFenced (recover_targets p t seen targets r fs).0
unfolding recover_targets
recover_targets-IsFenced p t seen [] r fs fenced = fenced
recover_targets-IsFenced p t seen (target ∷ targets) r fs fenced =
    let one = recover_target p t target r in
    let id = target.account_id in
    ground (
      arith,
      recover_targets-IsFenced p t seen targets r fs fenced,
      recover_targets-IsFenced p one.0 (insert id tt seen) targets one.1 (noted one.2 fs)
          (recover_target-IsFenced p t target r fenced),
    )

listed-IsFenced :
    (p : Ports) (t : Trace) (answer : Result Failure (List AuthTarget))
    → IsFenced t
    → IsFenced (recover_listed p (lists answer ∷ t) answer).0
unfolding recover_listed IsFenced
listed-IsFenced p t (err e) fenced = (tt, fenced)
listed-IsFenced p t (ok targets) fenced =
    recover_targets-IsFenced p (lists (ok targets) ∷ t) [] targets new_recovery_result []
      (tt, fenced)

-- After calls that kept to this, and whatever the ports answer, `Recover` too asks the runtime to
-- revoke an account only at a version at which an intent for its remote logout was read or stored,
-- and stores the account as disconnected only one version above one at which the revocation
-- converged.
pub recover-IsFenced :
    (p : Ports) (ctx : Context) (t : Trace) → IsFenced t → IsFenced (recover p ctx t).0
unfolding recover
recover-IsFenced p ctx t fenced =
    ground (arith, listed-IsFenced p t (p.list_remote_logout_intents t))
