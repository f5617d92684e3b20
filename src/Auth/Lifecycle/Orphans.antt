-- ===== src/Auth/Lifecycle/Orphans.antt =====
-- What the recovery of orphans achieves.
use cresora.Prelude.{
  ℕ, ◌+◌, ◌≤◌, ◌≡◌, ◌↔◌, Option, none, some, List, [], ◌∷◌, arith, length, length-append,
}
use cresora.Prelude.Result.{Result, ok, err}
use cresora.Account.{Status, authenticating, active, reauth_required, disconnected, disconnecting}
use cresora.Auth.Errors.{Failures, background, runtime_context_error}
use cresora.Auth.Challenge.{AuthTarget}
use cresora.Auth.Ports.{AuthPorts, AuthTrace, begins_abort, completes_abort, lists_orphans, stops}
use cresora.Auth.Lifecycle.{
  Done, complete_stopped, stop_and_complete, abort_begun, abort_lifecycle, complete_disconnecting,
  recover_by_status, recover_orphan, recover_each, recover_found, recover_orphans, gathered,
  verdict,
}

-- The aborts that were completed.
unfoldable pub completions : AuthTrace → ℕ
completions [] = 0
completions (completes_abort _ _ _ none ∷ t) = completions t + 1
completions (_ ∷ t) = completions t

abbrev missing_one : Option Failures → ℕ
missing_one none = 0
missing_one (some _) = 1

-- One abort more, or one failure.
abbrev OneMore : AuthTrace → Done → Type 0
OneMore t (u, e) = completions u + missing_one e ≡ completions t + 1

completed-OneMore :
    (t : AuthTrace) (actor id v : ℕ) (answer : Option Failures)
    → OneMore t (completes_abort actor id v answer ∷ t, answer)
unfolding completions
completed-OneMore t actor id v none = omega arith
completed-OneMore t actor id v (some e) = omega arith

complete_stopped-OneMore :
    (p : AuthPorts) (t : AuthTrace) (target : AuthTarget) (v : ℕ) (answer : Option Failures)
    → OneMore t (complete_stopped p t target v answer)
unfolding complete_stopped
complete_stopped-OneMore p t target v none =
    completed-OneMore t target.actor target.account_id v
      (p.complete_abort t target.actor target.account_id v)
complete_stopped-OneMore p t target v (some e) = omega arith

stop_and_complete-OneMore :
    (p : AuthPorts) (t : AuthTrace) (target : AuthTarget) (v : ℕ)
    → OneMore t (stop_and_complete p t target v)
unfolding stop_and_complete completions
stop_and_complete-OneMore p t target v =
    let answer = p.stop_account t target in
    ground (arith, complete_stopped-OneMore p (stops target answer ∷ t) target v answer)

abort_begun-OneMore :
    (p : AuthPorts) (t : AuthTrace) (target : AuthTarget) (answer : Result Failures ℕ)
    → OneMore t (abort_begun p t target answer)
unfolding abort_begun
abort_begun-OneMore p t target (err e) = omega arith
abort_begun-OneMore p t target (ok v) = ground (arith, stop_and_complete-OneMore p t target v)

abort_lifecycle-OneMore :
    (p : AuthPorts) (t : AuthTrace) (target : AuthTarget) → OneMore t (abort_lifecycle p t target)
unfolding abort_lifecycle completions
abort_lifecycle-OneMore p t target =
    let answer = p.begin_abort t target.actor target.account_id target.version in
    let u : AuthTrace = begins_abort target.actor target.account_id target.version answer ∷ t in
    ground (arith, abort_begun-OneMore p u target answer)

by_status-OneMore :
    (p : AuthPorts) (t : AuthTrace) (target : AuthTarget) (s : Status)
    → OneMore t (recover_by_status p t target s)
unfolding recover_by_status complete_disconnecting
by_status-OneMore p t target authenticating = abort_lifecycle-OneMore p t target
by_status-OneMore p t target disconnecting = stop_and_complete-OneMore p t target target.version
by_status-OneMore p t target active = omega arith
by_status-OneMore p t target reauth_required = omega arith
by_status-OneMore p t target disconnected = omega arith
by_status-OneMore p t target (Status.unlisted n) = omega arith

recover_orphan-OneMore :
    (p : AuthPorts) (t : AuthTrace) (target : AuthTarget) → OneMore t (recover_orphan p t target)
unfolding recover_orphan
recover_orphan-OneMore p t target = ground (arith, by_status-OneMore p t target target.status)

gathered_lem :
    (e : Option Failures) (fs : List Failures) → length (gathered e fs) ≡ length fs + missing_one e
gathered_lem none fs = omega arith
gathered_lem (some e) fs = omega (arith, length-append fs (e ∷ []))

recover_each-balance :
    (p : AuthPorts) (t : AuthTrace) (targets : List AuthTarget) (fs : List Failures)
    → let (u, gs) = recover_each p t targets fs in
      completions u + length gs ≡ completions t + length fs + length targets
unfolding recover_each
recover_each-balance p t [] fs = omega arith
recover_each-balance p t (target ∷ targets) fs =
    let (u, e) = recover_orphan p t target in
    omega (
      arith,
      recover_orphan-OneMore p t target,
      gathered_lem e fs,
      recover_each-balance p u targets (gathered e fs),
    )

verdict_lem : (fs : List Failures) → (verdict fs ≡ none) ↔ (length fs ≡ 0)
verdict_lem [] = ground arith
verdict_lem (f ∷ fs) = ground arith

-- If the list of orphans can be read, a recovery tries every orphan, also after one that failed:
-- it completes no more aborts than there are orphans on the list, and reports no error exactly if
-- it completed one for each.
recover_orphans_all :
    (p : AuthPorts) (t : AuthTrace) (targets : List AuthTarget)
    → p.list_orphans t ≡ ok targets
    → let (u, e) = recover_orphans p background t in
      (completions u ≤ completions t + length targets)
      × ((e ≡ none) ↔ (completions u ≡ completions t + length targets))
unfolding recover_orphans recover_found runtime_context_error completions
recover_orphans_all p t targets listed =
    let u : AuthTrace = lists_orphans (ok targets) ∷ t in
    let all = recover_each p u targets [] in
    rw listed (ground (arith, verdict_lem all.1, recover_each-balance p u targets []))
