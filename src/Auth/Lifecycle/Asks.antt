-- ===== src/Auth/Lifecycle/Asks.antt =====
-- An abort never asks the provider for a sign-in.
use cresora.Prelude.{ℕ, ◌+◌, ◌≡◌, refl, Option, none, some, [], ◌∷◌, arith, nat_eq}
use cresora.Prelude.Result.{Result, ok, err}
use cresora.Auth.Errors.{Failures}
use cresora.Auth.Challenge.{AuthTarget}
use cresora.Auth.Ports.{AuthPorts, AuthTrace, signs_in, stops, begins_abort}
use cresora.Auth.Lifecycle.{complete_stopped, stop_and_complete, abort_begun, abort_lifecycle}

-- The calls that submit a code to the provider.
unfoldable pub sign_ins : AuthTrace → ℕ
sign_ins [] = 0
sign_ins (signs_in _ _ _ _ _ ∷ t) = sign_ins t + 1
sign_ins (_ ∷ t) = sign_ins t

complete_stopped-asks :
    (p : AuthPorts) (t : AuthTrace) (target : AuthTarget) (v : ℕ) (answer : Option Failures)
    → sign_ins (complete_stopped p t target v answer).0 ≡ sign_ins t
unfolding complete_stopped sign_ins
complete_stopped-asks p t target v none = refl
complete_stopped-asks p t target v (some e) = refl

stop_and_complete-asks :
    (p : AuthPorts) (t : AuthTrace) (target : AuthTarget) (v : ℕ)
    → sign_ins (stop_and_complete p t target v).0 ≡ sign_ins t
unfolding stop_and_complete sign_ins
stop_and_complete-asks p t target v =
    let answer = p.stop_account t target in
    ground (arith, complete_stopped-asks p (stops target answer ∷ t) target v answer)

abort_begun-asks :
    (p : AuthPorts) (t : AuthTrace) (target : AuthTarget) (answer : Result Failures ℕ)
    → sign_ins (abort_begun p t target answer).0 ≡ sign_ins t
unfolding abort_begun
abort_begun-asks p t target (err e) = refl
abort_begun-asks p t target (ok v) = ground (arith, stop_and_complete-asks p t target v)

pub abort_lifecycle-asks :
    (p : AuthPorts) (t : AuthTrace) (target : AuthTarget)
    → sign_ins (abort_lifecycle p t target).0 ≡ sign_ins t
unfolding abort_lifecycle sign_ins
abort_lifecycle-asks p t target =
    let answer = p.begin_abort t target.actor target.account_id target.version in
    let u : AuthTrace = begins_abort target.actor target.account_id target.version answer ∷ t in
    ground (arith, abort_begun-asks p u target answer)
