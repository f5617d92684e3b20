-- ===== src/Auth/Requests/Attempts.antt =====
-- How often the provider is asked for a sign-in.
use cresora.Prelude.{ℕ, ◌+◌, ◌≤◌, ◌≡◌, refl, Option, none, some, arith, nat_eq}
use cresora.Auth.Errors.{AuthError, Context}
use cresora.Auth.Challenge.{Text, Challenge, max_code_attempts}
use cresora.Auth.Registry.{Registry, store, remove_locked}
use cresora.Auth.Methods.{owned, remove, remove_pointer}
use cresora.Auth.Operation.{Answer, begin, act, dispatch, operation}
use cresora.Auth.Ports.{AuthPorts, AuthTrace}
use cresora.Auth.Lifecycle.{abort_lifecycle}
use cresora.Auth.Submission.{Readings, code_action}
use cresora.Auth.Submission.Keeps.{Sound}
use cresora.Auth.Requests.{
  expire_removed, expire_challenge, submitted, after_submission, by_profile, submit_code,
  expired_challenge,
}
use cresora.Auth.Requests.Orders.{submit_code-Fine}
use cresora.Auth.Lifecycle.Asks.{sign_ins, abort_lifecycle-asks}
use cresora.Auth.Submission.Attempts.{attempts, IsPaid, code_action-IsPaid}

act-IsPaid :
    (p : AuthPorts) (rd : Readings) (now : ℕ) (t : AuthTrace) (g : Registry) (q : ℕ) (code : Text)
    → let (u, h, result, fs) = act now t g q (by_profile (code_action p rd code)) in
      IsPaid q t g u h
unfolding act begin
act-IsPaid p rd now t g q code =
    ground (arith, code_action-IsPaid p rd code (g.heap q).pending_profile t (begin g q))

dispatch-IsPaid :
    (p : AuthPorts) (rd : Readings) (now : ℕ) (t : AuthTrace) (g : Registry) (actor id : ℕ)
    (found : Option ℕ) (q : ℕ) (code : Text)
    → found ≡ some q
    → let (u, h, result, fs) =
        dispatch now t g actor id (by_profile (code_action p rd code)) found in
      IsPaid q t g u h
unfolding dispatch
dispatch-IsPaid p rd now t g actor id none q code e = cc
dispatch-IsPaid p rd now t g actor id (some r) q code e =
    ground (arith, act-IsPaid p rd now t g q code)

operation-IsPaid :
    (p : AuthPorts) (rd : Readings) (ctx : Context) (now : ℕ) (t : AuthTrace) (g : Registry)
    (actor id q : ℕ) (code : Text)
    → owned g actor id ≡ some q
    → let (u, h, result, fs) =
        operation ctx now t g actor id (by_profile (code_action p rd code)) in
      IsPaid q t g u h
unfolding operation
operation-IsPaid p rd ctx now t g actor id q code mine =
    ground (arith, dispatch-IsPaid p rd now t g actor id (owned g actor id) q code mine)

remove_pointer-attempts :
    (g : Registry) (p : Option ℕ) (q : ℕ) → attempts q (remove_pointer g p).0 ≡ attempts q g
unfolding remove_pointer remove_locked store
remove_pointer-attempts g none q = refl
remove_pointer-attempts g (some p) q = ground arith

remove-attempts :
    (ctx : Context) (g : Registry) (actor id q : ℕ)
    → attempts q (remove ctx g actor id).0 ≡ attempts q g
unfolding remove
remove-attempts ctx g actor id q = ground (arith, remove_pointer-attempts g (owned g actor id) q)

expire_removed-attempts :
    (t : AuthTrace) (g : Registry) (e : Option AuthError)
    → let (u, h, failure) = expire_removed t (g, e) in (u ≡ t) × (h ≡ g)
unfolding expire_removed
expire_removed-attempts t g none = (refl, refl)
expire_removed-attempts t g (some e) = (refl, refl)

expire_challenge-attempts :
    (p : AuthPorts) (ctx : Context) (t : AuthTrace) (g : Registry) (c : Challenge) (q : ℕ)
    → let (u, h, failure) = expire_challenge p ctx t g c in
      (sign_ins u ≡ sign_ins t) × (attempts q h ≡ attempts q g)
unfolding expire_challenge
expire_challenge-attempts p ctx t g c q =
    let one = abort_lifecycle p t c.target in
    let gone = remove ctx g c.target.actor c.request_id in
    ground (
      arith,
      abort_lifecycle-asks p t c.target,
      remove-attempts ctx g c.target.actor c.request_id q,
      expire_removed-attempts one.0 gone.0 gone.1,
    )

submitted-attempts :
    (p : AuthPorts) (ctx : Context) (c : Option Challenge) (a : Answer AuthTrace) (q : ℕ)
    → let (u, h, result, fs) = submitted p ctx c a in
      (sign_ins u ≡ sign_ins a.0) × (attempts q h ≡ attempts q a.1)
unfolding submitted
submitted-attempts p ctx none (t, g, result, fs) q = (refl, refl)
submitted-attempts p ctx (some c) (t, g, result, fs) q = expire_challenge-attempts p ctx t g c q

-- From a well-formed registry and after calls in order, a code for a live challenge of the actor
-- asks the provider for at most one sign-in, and for no more than attempts are recorded at the
-- challenge's own record, of which there are never more than five.
pub submit_code_pays :
    (p : AuthPorts) (ctx : Context) (rd : Readings) (now : ℕ) (t : AuthTrace) (g : Registry)
    (actor id q : ℕ) (code : Text)
    → Sound t g
    → owned g actor id ≡ some q
    → let (u, h, result, fs) = submit_code p ctx rd now t g actor id code in
      (sign_ins u ≤ sign_ins t + 1)
      × (sign_ins u + attempts q g ≤ sign_ins t + attempts q h)
      × (attempts q h ≤ max_code_attempts)
unfolding submit_code after_submission
submit_code_pays p ctx rd now t g actor id q code sound mine =
    let a = operation ctx now t g actor id (by_profile (code_action p rd code)) in
    let c = expired_challenge a.3 a.2.challenge in
    let fine = submit_code-Fine p ctx rd now t g actor id code sound in
    ground (
      arith,
      fine.1.frugal q,
      operation-IsPaid p rd ctx now t g actor id q code mine,
      submitted-attempts p ctx c a q,
    )
