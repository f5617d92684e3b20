-- ===== src/Auth/Lifecycle/Strict.antt =====
-- The order of the calls of an abort.
use cresora.Prelude.{ℕ, ◌≡◌, ◌≢◌, ◌⊎◌, inl, inr, refl, Option, none, some, List, [], ◌∷◌, arith}
use cresora.Prelude.Result.{Result, ok, err}
use cresora.Account.{Status, authenticating, active, reauth_required, disconnected, disconnecting}
use cresora.Auth.Errors.{Failures, Context}
use cresora.Auth.Challenge.{AuthTarget}
use cresora.Auth.Ports.{AuthPorts, AuthTrace, begins_abort, completes_abort, lists_orphans, stops}
use cresora.Auth.Lifecycle.{
  complete_stopped, stop_and_complete, abort_begun, abort_lifecycle, complete_disconnecting,
  recover_by_status, recover_orphan, recover_each, recover_found, recover_orphans, gathered,
}

-- The last call began the abort of this target and moved it to this version.
abbrev pub Begun : AuthTarget → ℕ → AuthTrace → Type 0
Begun target v (begins_abort actor id w (ok u) ∷ t) =
    (actor ≡ target.actor) × (id ≡ target.account_id) × (w ≡ target.version) × (u ≡ v) × (v ≢ 0)
Begun target v _ = ⊥

-- The last call stopped the runtime of the actor's account, which was begun to be aborted just
-- before, or which was disconnecting at this version.
abbrev pub Stopped : ℕ → ℕ → ℕ → AuthTrace → Type 0
Stopped actor id v (stops target none ∷ t) =
    (target.actor ≡ actor)
    × (target.account_id ≡ id)
    × (((target.status ≡ disconnecting) × (target.version ≡ v)) ⊎ Begun target v t)
Stopped actor id v _ = ⊥

-- The runtime is stopped for a target that is disconnecting, or one whose abort the last call began.
abbrev pub MayStop : AuthTarget → AuthTrace → Type 0
MayStop target t = (target.status ≡ disconnecting) ⊎ ((v : ℕ) × Begun target v t)

-- Every stop comes right after such a begin, and every completion right after such a stop.
unfoldable pub IsStrict : AuthTrace → Type 0
IsStrict [] = Unit
IsStrict (stops target _ ∷ t) = MayStop target t × IsStrict t
IsStrict (completes_abort actor id v _ ∷ t) = Stopped actor id v t × IsStrict t
IsStrict (_ ∷ t) = IsStrict t

may_stop :
    (target : AuthTarget) (t : AuthTrace) (v : ℕ)
    → ((target.status ≡ disconnecting) × (target.version ≡ v)) ⊎ Begun target v t
    → MayStop target t
may_stop target t v (inl h) = inl h.0
may_stop target t v (inr b) = inr (v, b)

complete_stopped-IsStrict :
    (p : AuthPorts) (t : AuthTrace) (target : AuthTarget) (v : ℕ) (answer : Option Failures)
    → ((target.status ≡ disconnecting) × (target.version ≡ v)) ⊎ Begun target v t
    → IsStrict t
    → IsStrict (complete_stopped p (stops target answer ∷ t) target v answer).0
unfolding complete_stopped IsStrict
complete_stopped-IsStrict p t target v (some e) may strict = (may_stop target t v may, strict)
complete_stopped-IsStrict p t target v none may strict =
    ((refl, refl, may), (may_stop target t v may, strict))

stop_and_complete-IsStrict :
    (p : AuthPorts) (t : AuthTrace) (target : AuthTarget) (v : ℕ)
    → ((target.status ≡ disconnecting) × (target.version ≡ v)) ⊎ Begun target v t
    → IsStrict t
    → IsStrict (stop_and_complete p t target v).0
unfolding stop_and_complete
stop_and_complete-IsStrict p t target v may strict =
    ground (arith, complete_stopped-IsStrict p t target v (p.stop_account t target) may strict)

abort_begun-IsStrict :
    (p : AuthPorts) (t : AuthTrace) (target : AuthTarget) (answer : Result Failures ℕ)
    → IsStrict t
    → IsStrict
        (abort_begun p
          (begins_abort target.actor target.account_id target.version answer ∷ t)
          target
          answer).0
unfolding abort_begun IsStrict
abort_begun-IsStrict p t target (err e) strict = strict
abort_begun-IsStrict p t target (ok v) strict =
    let u : AuthTrace = begins_abort target.actor target.account_id target.version (ok v) ∷ t in
    let next = λ (h : v ≢ 0).
      stop_and_complete-IsStrict p u target v (inr (refl, refl, refl, refl, h)) strict in
    ground (arith, next)

-- After calls that kept to this, and whatever the ports answer, `Abort` stops the runtime of an
-- account only right after `BeginAbort` moved exactly this version of the account to a version that
-- is not zero, or for a target that is disconnecting; and it completes an abort only right after
-- such a stop succeeded, of the same account, at the version that the account was moved to, or at
-- the disconnecting target's own.
pub abort_lifecycle-IsStrict :
    (p : AuthPorts) (t : AuthTrace) (target : AuthTarget)
    → IsStrict t
    → IsStrict (abort_lifecycle p t target).0
unfolding abort_lifecycle
abort_lifecycle-IsStrict p t target strict =
    let answer = p.begin_abort t target.actor target.account_id target.version in
    ground (arith, abort_begun-IsStrict p t target answer strict)

recover_by_status-IsStrict :
    (p : AuthPorts) (t : AuthTrace) (target : AuthTarget) (s : Status)
    → target.status ≡ s
    → IsStrict t
    → IsStrict (recover_by_status p t target s).0
unfolding recover_by_status complete_disconnecting
recover_by_status-IsStrict p t target authenticating e strict =
    abort_lifecycle-IsStrict p t target strict
recover_by_status-IsStrict p t target disconnecting e strict =
    stop_and_complete-IsStrict p t target target.version (inl (e, refl)) strict
recover_by_status-IsStrict p t target active e strict = strict
recover_by_status-IsStrict p t target reauth_required e strict = strict
recover_by_status-IsStrict p t target disconnected e strict = strict
recover_by_status-IsStrict p t target (Status.unlisted n) e strict = strict

recover_orphan-IsStrict :
    (p : AuthPorts) (t : AuthTrace) (target : AuthTarget)
    → IsStrict t
    → IsStrict (recover_orphan p t target).0
unfolding recover_orphan
recover_orphan-IsStrict p t target strict =
    ground (arith, recover_by_status-IsStrict p t target target.status refl strict)

recover_each-IsStrict :
    (p : AuthPorts) (t : AuthTrace) (targets : List AuthTarget) (fs : List Failures)
    → IsStrict t
    → IsStrict (recover_each p t targets fs).0
unfolding recover_each
recover_each-IsStrict p t [] fs strict = strict
recover_each-IsStrict p t (target ∷ targets) fs strict =
    let one = recover_orphan p t target in
    recover_each-IsStrict p one.0 targets (gathered one.1 fs)
      (recover_orphan-IsStrict p t target strict)

found-IsStrict :
    (p : AuthPorts) (t : AuthTrace) (answer : Result Failures (List AuthTarget))
    → IsStrict t
    → IsStrict (recover_found p (lists_orphans answer ∷ t) answer).0
unfolding recover_found IsStrict
found-IsStrict p t (err e) strict = strict
found-IsStrict p t (ok targets) strict =
    recover_each-IsStrict p (lists_orphans (ok targets) ∷ t) targets [] strict

-- After calls that kept to the order of an abort, the recovery of orphans keeps to it too: a
-- completion comes right after the stop of the account's runtime, which comes right after
-- `BeginAbort` moved the account to this version, or, for a target that is disconnecting, at the
-- target's own version.
pub recover_orphans-IsStrict :
    (p : AuthPorts) (ctx : Context) (t : AuthTrace)
    → IsStrict t
    → IsStrict (recover_orphans p ctx t).0
unfolding recover_orphans
recover_orphans-IsStrict p ctx t strict =
    ground (arith, found-IsStrict p t (p.list_orphans t) strict)
