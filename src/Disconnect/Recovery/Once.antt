-- ===== src/Disconnect/Recovery/Once.antt =====
-- How often a recovery asks the runtime.
use cresora.Prelude.{
  ℕ, ◌+◌, ◌≤◌, ◌≡◌, refl, ap, Option, List, [], ◌∷◌, arith, nat_eq, ==_iff, is_none, ◌==◌,
  if◌then◌else◌,
}
use cresora.Prelude.Maps.{Map, lookup, insert, lookup-insert}
use cresora.Prelude.Result.{Result, ok, err}
use cresora.Account.{Account}
use cresora.Auth.Errors.{Context}
use cresora.Auth.Challenge.{AuthTarget}
use cresora.Disconnect.Outcome.{Failure, kind_eq, RemoteLogoutFailure, failure_of}
use cresora.Disconnect.Ports.{Ports, Trace, Call, loads, revokes, lists}
use cresora.Disconnect.Recovery.{
  RecoveryResult, finish_recovery, settle, reload, reloaded, attempt, consider, considered,
  recover_target, recover_targets, noted, new_recovery_result, recover, recover_listed,
}

-- The calls that ask the runtime for this account.
abbrev asks_for : ℕ → Call → ℕ
asks_for id (revokes target _) = if target.account_id == id then 1 else 0
asks_for id _ = 0

pub asked : ℕ → Trace → ℕ
asked id [] = 0
asked id (c ∷ t) = asks_for id c + asked id t

settle-asked :
    (p : Ports) (t : Trace) (target : AuthTarget) (failure : Option RemoteLogoutFailure)
    (a : Account) (r : RecoveryResult) (id : ℕ)
    → asked id (settle p t target failure a r).0 ≡ asked id t
unfolding settle finish_recovery asked
settle-asked p t target failure a r id = ground arith

reloaded-asked :
    (p : Ports) (t : Trace) (target : AuthTarget) (failure : Option RemoteLogoutFailure)
    (answer : Result Failure Account) (r : RecoveryResult) (id : ℕ)
    → asked id (reloaded p t target failure answer r).0 ≡ asked id t
unfolding reloaded
reloaded-asked p t target failure (err e) r id = refl
reloaded-asked p t target failure (ok a) r id = settle-asked p t target failure a r id

-- At most one call of the runtime, and none for another account.
abbrev AsksOnce : ℕ → Trace → AuthTarget → Trace → Type 0
AsksOnce id t target u = asked id u ≤ asked id t + (if target.account_id == id then 1 else 0)

attempt-AsksOnce :
    (p : Ports) (t : Trace) (target : AuthTarget) (r : RecoveryResult) (id : ℕ)
    → AsksOnce id t target (attempt p t target r).0
unfolding attempt reload asked
attempt-AsksOnce p t target r id =
    let o = p.revoke_and_stop t target in
    let u : Trace = revokes target o ∷ t in
    let answer = p.load_account u target.actor target.account_id in
    let v : Trace = loads target.actor target.account_id answer ∷ u in
    ground (arith, reloaded-asked p v target (failure_of o) answer r id)

considered-AsksOnce :
    (p : Ports) (t : Trace) (target : AuthTarget) (answer : Result Failure Account)
    (r : RecoveryResult) (id : ℕ)
    → AsksOnce id t target (considered p t target answer r).0
unfolding considered consider
considered-AsksOnce p t target (err e) r id = omega arith
considered-AsksOnce p t target (ok a) r id =
    ground (arith, attempt-AsksOnce p t target (record r { attempted = r.attempted + 1 }) id)

recover_target-AsksOnce :
    (p : Ports) (t : Trace) (target : AuthTarget) (r : RecoveryResult) (id : ℕ)
    → AsksOnce id t target (recover_target p t target r).0
unfolding recover_target asked
recover_target-AsksOnce p t target r id =
    let answer = p.load_account t target.actor target.account_id in
    let u : Trace = loads target.actor target.account_id answer ∷ t in
    ground (arith, considered-AsksOnce p u target answer r id)

recover_targets-asked :
    (p : Ports) (t : Trace) (seen : Map {0, 0} ℕ Unit) (targets : List AuthTarget)
    (r : RecoveryResult) (fs : List Failure) (id : ℕ)
    → asked id (recover_targets p t seen targets r fs).0
      ≤ asked id t + (if is_none (lookup id seen) then 1 else 0)
unfolding recover_targets
recover_targets-asked p t seen [] r fs id = omega arith
recover_targets-asked p t seen (target ∷ targets) r fs id =
    let at = target.account_id in
    let one = recover_target p t target r in
    ground (
      arith,
      ==_iff at id,
      ap (λ n. is_none (lookup n seen)) {x = at} {y = id},
      recover_targets-asked p t seen targets r fs id,
      lookup-insert at id tt seen,
      recover_target-AsksOnce p t target r id,
      recover_targets-asked p one.0 (insert at tt seen) targets one.1 (noted one.2 fs) id,
    )

listed-asks_once :
    (p : Ports) (t : Trace) (answer : Result Failure (List AuthTarget)) (id : ℕ)
    → asked id (recover_listed p (lists answer ∷ t) answer).0 ≤ asked id t + 1
unfolding recover_listed asked lookup
listed-asks_once p t (err e) id = omega arith
listed-asks_once p t (ok targets) id =
    let all =
      recover_targets-asked p (lists (ok targets) ∷ t) [] targets new_recovery_result [] id in
    omega (arith, all)

-- A recovery asks the runtime at most once for any account, however often the list names it.
pub recover-asks_once :
    (p : Ports) (ctx : Context) (t : Trace) (id : ℕ) → asked id (recover p ctx t).0 ≤ asked id t + 1
unfolding recover
recover-asks_once p ctx t id =
    ground (arith, listed-asks_once p t (p.list_remote_logout_intents t) id)
