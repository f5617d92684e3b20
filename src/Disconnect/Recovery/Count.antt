-- ===== src/Disconnect/Recovery/Count.antt =====
-- The books of a recovery: every account is counted once, and asked for once.
use cresora.Prelude.{
  ℕ, ◌+◌, ◌≡◌, refl, Bool, false, not, ◌||◌, Option, none, some, List, [], ◌∷◌, arith, nat_eq,
  Bool-cases, ==_iff, inl, inr, is_none, length, length-append, ◌==◌, if◌then◌else◌,
}
use cresora.Prelude.Maps.{Map, lookup, insert, lookup-insert}
use cresora.Prelude.Result.{Result, ok, err}
use cresora.Account.{Account}
use cresora.Auth.Challenge.{AuthTarget}
use cresora.Disconnect.Outcome.{
  Failure, FailureKind, kind_eq, kind_of, RemoteLogoutFailure, failure_of,
}
use cresora.Disconnect.Ports.{Ports, Trace, loads, revokes}
use cresora.Disconnect.Recovery.{
  RecoveryResult, Recovered, count_of, finish_recovery, settle, reload, reloaded, attempt, consider,
  considered, recover_target, recover_targets, noted, new_recovery_result,
}

-- The calls of the runtime.
unfoldable pub revocations : Trace → ℕ
revocations [] = 0
revocations (revokes _ _ ∷ t) = revocations t + 1
revocations (_ ∷ t) = revocations t

pub total : Map FailureKind ℕ → ℕ
total [] = 0
total ((k, n) ∷ m) = n + total m

total-insert :
    (k : FailureKind) (m : Map FailureKind ℕ) → total (insert k (count_of k m + 1) m) ≡ total m + 1
unfolding total insert lookup
total-insert k [] = omega arith
total-insert k ((j, n) ∷ m) = ground (arith, total-insert k m)

abbrev pub missed : Option Failure → ℕ
missed none = 0
missed (some _) = 1

-- The accounts that were dealt with without a failure.
abbrev pub counted : RecoveryResult → ℕ
counted r = r.completed + r.pending + r.skipped

-- A target is counted once or fails; `attempted` counts the revocations, and the classes of the
-- pending ones add up.
abbrev Counted : Trace → RecoveryResult → Recovered → Type 0
Counted t r (u, s, e) =
    (counted s + missed e ≡ counted r + 1)
    × (s.attempted + revocations t ≡ r.attempted + revocations u)
    × (s.pending + total r.pending_by_kind ≡ r.pending + total s.pending_by_kind)

finish_recovery-Counted :
    (p : Ports) (t : Trace) (target : AuthTarget) (a : Account) (r : RecoveryResult)
    → Counted t r (finish_recovery p t target a r)
unfolding finish_recovery revocations
finish_recovery-Counted p t target a r = ground arith

settle-Counted :
    (p : Ports) (t : Trace) (target : AuthTarget) (failure : Option RemoteLogoutFailure)
    (a : Account) (r : RecoveryResult)
    → Counted t r (settle p t target failure a r)
unfolding settle
settle-Counted p t target none a r = ground (arith, finish_recovery-Counted p t target a r)
settle-Counted p t target (some f) a r =
    ground (arith, total-insert (kind_of (some f)) r.pending_by_kind)

reloaded-Counted :
    (p : Ports) (t : Trace) (target : AuthTarget) (failure : Option RemoteLogoutFailure)
    (answer : Result Failure Account) (r : RecoveryResult)
    → Counted t r (reloaded p t target failure answer r)
unfolding reloaded
reloaded-Counted p t target failure (err e) r = ground arith
reloaded-Counted p t target failure (ok a) r = settle-Counted p t target failure a r

attempt-Counted :
    (p : Ports) (t : Trace) (target : AuthTarget) (r : RecoveryResult)
    → Counted t r (attempt p t target (record r { attempted = r.attempted + 1 }))
unfolding attempt reload revocations
attempt-Counted p t target r =
    let o = p.revoke_and_stop t target in
    let u : Trace = revokes target o ∷ t in
    let answer = p.load_account u target.actor target.account_id in
    let v : Trace = loads target.actor target.account_id answer ∷ u in
    ground (
      arith,
      reloaded-Counted p v target (failure_of o) answer (record r { attempted = r.attempted + 1 }),
    )

considered-Counted :
    (p : Ports) (t : Trace) (target : AuthTarget) (answer : Result Failure Account)
    (r : RecoveryResult)
    → Counted t r (considered p t target answer r)
unfolding considered consider
considered-Counted p t target (err e) r = ground arith
considered-Counted p t target (ok a) r = ground (arith, attempt-Counted p t target r)

recover_target-Counted :
    (p : Ports) (t : Trace) (target : AuthTarget) (r : RecoveryResult)
    → Counted t r (recover_target p t target r)
unfolding recover_target revocations
recover_target-Counted p t target r =
    let answer = p.load_account t target.actor target.account_id in
    let u : Trace = loads target.actor target.account_id answer ∷ t in
    ground (arith, considered-Counted p u target answer r)

pub mentions : ℕ → List AuthTarget → Bool
mentions id [] = false
mentions id (target ∷ targets) = target.account_id == id || mentions id targets

-- The targets whose account is that of no earlier one, where `earlier` came before them all.
pub firsts : List AuthTarget → List AuthTarget → ℕ
firsts earlier [] = 0
firsts earlier (target ∷ targets) =
    (if mentions target.account_id earlier then 0 else 1) + firsts (target ∷ earlier) targets

-- The set of the accounts that were seen, against the targets that came before.
abbrev Agrees : Map {0, 0} ℕ Unit → List AuthTarget → Type 0
Agrees seen earlier = (id : ℕ) → is_none (lookup id seen) ≡ not (mentions id earlier)

insert-Agrees :
    (seen : Map {0, 0} ℕ Unit) (earlier : List AuthTarget) (target : AuthTarget)
    → Agrees seen earlier
    → Agrees (insert target.account_id tt seen) (target ∷ earlier)
unfolding mentions
insert-Agrees seen earlier target agrees id =
    ground (arith, agrees id, lookup-insert target.account_id id tt seen)

skip-Agrees :
    (seen : Map {0, 0} ℕ Unit) (earlier : List AuthTarget) (target : AuthTarget)
    → Agrees seen earlier
    → is_none (lookup target.account_id seen) ≡ false
    → Agrees seen (target ∷ earlier)
unfolding mentions
skip-Agrees seen earlier target agrees h id = elim (Bool-cases (target.account_id == id)) [
  | inl e ↦ rw (← (==_iff target.account_id id).0 e) (ground (arith, h))
  | inr e ↦ ground (arith, agrees id)
]

noted_lem : (e : Option Failure) (fs : List Failure) → length (noted e fs) ≡ length fs + missed e
noted_lem none fs = omega arith
noted_lem (some e) fs = omega (arith, length-append fs (e ∷ []))

abbrev Booked :
    Trace → RecoveryResult → List Failure → ℕ → Trace × RecoveryResult × List Failure → Type 0
Booked t r fs n (u, s, gs) =
    (counted s + length gs ≡ counted r + length fs + n)
    × (s.attempted + revocations t ≡ r.attempted + revocations u)
    × (s.pending + total r.pending_by_kind ≡ r.pending + total s.pending_by_kind)

recover_targets-Booked :
    (p : Ports) (t : Trace) (seen : Map {0, 0} ℕ Unit) (earlier targets : List AuthTarget)
    (r : RecoveryResult) (fs : List Failure)
    → Agrees seen earlier
    → Booked t r fs (firsts earlier targets) (recover_targets p t seen targets r fs)
unfolding recover_targets firsts
recover_targets-Booked p t seen earlier [] r fs agrees = omega arith
recover_targets-Booked p t seen earlier (target ∷ targets) r fs agrees =
    let id = target.account_id in
    let one = recover_target p t target r in
    let skipped = λ (h : is_none (lookup id seen) ≡ false).
      recover_targets-Booked p t seen (target ∷ earlier) targets r fs
        (skip-Agrees seen earlier target agrees h) in
    ground (
      arith,
      agrees id,
      noted_lem one.2 fs,
      recover_target-Counted p t target r,
      skipped,
      recover_targets-Booked p one.0 (insert id tt seen) (target ∷ earlier) targets one.1
          (noted one.2 fs) (insert-Agrees seen earlier target agrees),
    )

-- A recovery deals with every account among the targets exactly once: the completed, the pending and
-- the skipped ones and the failures together are as many as the accounts, `attempted` is the number
-- of calls of the runtime, and the pending ones are the sum over their classes.
pub recover_targets-books :
    (p : Ports) (t : Trace) (targets : List AuthTarget)
    → let (u, s, gs) = recover_targets p t [] targets new_recovery_result [] in
      (s.completed + s.pending + s.skipped + length gs ≡ firsts [] targets)
      × (s.attempted + revocations t ≡ revocations u)
      × (total s.pending_by_kind ≡ s.pending)
unfolding mentions lookup total
recover_targets-books p t targets =
    let all = recover_targets-Booked p t [] [] targets new_recovery_result [] (λ id. refl) in
    omega (arith, all)
