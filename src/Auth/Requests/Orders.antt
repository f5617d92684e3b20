-- ===== src/Auth/Requests/Orders.antt =====
-- What holds of the calls and of the registry after any requests.
use cresora.Prelude.{ℕ, Option, none, some, arith}
use cresora.Auth.Errors.{AuthError, Failures, Context}
use cresora.Auth.Challenge.{Text, Challenge}
use cresora.Auth.Registry.{Registry}
use cresora.Auth.Registry.Invariant.{Inv}
use cresora.Auth.Methods.{owned, remove}
use cresora.Auth.Methods.Keeps.{remove-Inv}
use cresora.Auth.Operation.{
  ChallengeOperation, held, Action, Answer, begin, act, dispatch, operation,
}
use cresora.Auth.Operation.Keeps.{abort-Inv}
use cresora.Auth.Ports.{AuthPorts, AuthTrace}
use cresora.Auth.Lifecycle.{abort_lifecycle}
use cresora.Auth.Lifecycle.Strict.{IsStrict, abort_lifecycle-IsStrict}
use cresora.Auth.Submission.{Readings, code_action, password_action}
use cresora.Auth.Submission.Keeps.{
  Sound, Leaves, KeepsSound, code_action_keeps, password_action_keeps,
}
use cresora.Auth.Requests.{
  expire_removed, expire_challenge, expired_challenge, submitted, canceled, after_submission,
  by_profile, submit_code, submit_password, canceled_action, cancel_action, after_cancel, cancel,
  Request, gives_a_code, gives_a_password, cancels, serve,
}

-- An answer after which all is sound.
abbrev pub Fine : Answer AuthTrace → Type 0
Fine (t, g, result, fs) = Sound t g

act-Fine :
    (now : ℕ) (t : AuthTrace) (g : Registry) (p : ℕ) (action : Action AuthTrace)
    → KeepsSound action
    → Sound t g
    → Fine (act now t g p action)
unfolding act
act-Fine now t g p action keep sound = ground (arith, keep t (begin g p) sound.0 sound.1)

dispatch-Fine :
    (now : ℕ) (t : AuthTrace) (g : Registry) (actor id : ℕ) (action : Action AuthTrace)
    (o : Option ℕ)
    → KeepsSound action
    → Sound t g
    → Fine (dispatch now t g actor id action o)
unfolding dispatch
dispatch-Fine now t g actor id action none keep sound = sound
dispatch-Fine now t g actor id action (some p) keep sound = act-Fine now t g p action keep sound

operation-Fine :
    (ctx : Context) (now : ℕ) (t : AuthTrace) (g : Registry) (actor id : ℕ)
    (action : Action AuthTrace)
    → KeepsSound action
    → Sound t g
    → Fine (operation ctx now t g actor id action)
unfolding operation
operation-Fine ctx now t g actor id action keep sound =
    ground (arith, dispatch-Fine now t g actor id action (owned g actor id) keep sound)

expired-Fine :
    (t : AuthTrace) (g : Registry) (e : Option AuthError)
    → Sound t g
    → Sound (expire_removed t (g, e)).0 (expire_removed t (g, e)).1
unfolding expire_removed
expired-Fine t g none sound = sound
expired-Fine t g (some e) sound = sound

pub expire_challenge-Fine :
    (p : AuthPorts) (ctx : Context) (t : AuthTrace) (g : Registry) (c : Challenge)
    → Sound t g
    → Sound (expire_challenge p ctx t g c).0 (expire_challenge p ctx t g c).1
unfolding expire_challenge
expire_challenge-Fine p ctx t g c sound =
    let one = abort_lifecycle p t c.target in
    let strict = abort_lifecycle-IsStrict p t c.target sound.0 in
    let gone = remove ctx g c.target.actor c.request_id in
    ground (
      arith,
      strict,
      expired-Fine one.0 gone.0 gone.1
          (strict, remove-Inv ctx g c.target.actor c.request_id sound.1),
    )

submitted-Fine :
    (p : AuthPorts) (ctx : Context) (c : Option Challenge) (a : Answer AuthTrace)
    → Fine a
    → Fine (submitted p ctx c a)
unfolding submitted
submitted-Fine p ctx none (t, g, result, fs) sound = sound
submitted-Fine p ctx (some c) (t, g, result, fs) sound = expire_challenge-Fine p ctx t g c sound

canceled-Fine :
    (p : AuthPorts) (ctx : Context) (c : Option Challenge) (a : Answer AuthTrace)
    → Fine a
    → Fine (canceled p ctx c a)
unfolding canceled
canceled-Fine p ctx none (t, g, result, fs) sound = sound
canceled-Fine p ctx (some c) (t, g, result, fs) sound = expire_challenge-Fine p ctx t g c sound

canceled_action-Leaves :
    (rd : Readings) (t : AuthTrace) (o : ChallengeOperation) (answer : Option Failures)
    → IsStrict t
    → Inv o.registry
    → Leaves (canceled_action rd t o answer)
unfolding canceled_action
canceled_action-Leaves rd t o (some e) s v = (s, v)
canceled_action-Leaves rd t o none s v = (s, abort-Inv rd.ended_at o v)

cancel_action_keeps : (p : AuthPorts) (rd : Readings) → KeepsSound (cancel_action p rd)
unfolding cancel_action
cancel_action_keeps p rd t o s v =
    let one = abort_lifecycle p t (held o).target in
    canceled_action-Leaves rd one.0 o one.1 (abort_lifecycle-IsStrict p t (held o).target s) v

pub submit_code-Fine :
    (p : AuthPorts) (ctx : Context) (rd : Readings) (now : ℕ) (t : AuthTrace) (g : Registry)
    (actor id : ℕ) (code : Text)
    → Sound t g
    → Fine (submit_code p ctx rd now t g actor id code)
unfolding submit_code after_submission
submit_code-Fine p ctx rd now t g actor id code sound =
    let a = operation ctx now t g actor id (by_profile (code_action p rd code)) in
    let fine =
      operation-Fine ctx now t g actor id (by_profile (code_action p rd code))
        (λ u o s v. code_action_keeps p rd code (held o).pending_profile u o s v) sound in
    let c = expired_challenge a.3 a.2.challenge in ground (arith, submitted-Fine p ctx c a fine)

submit_password-Fine :
    (p : AuthPorts) (ctx : Context) (rd : Readings) (now : ℕ) (t : AuthTrace) (g : Registry)
    (actor id : ℕ) (password : Text)
    → Sound t g
    → Fine (submit_password p ctx rd now t g actor id password)
unfolding submit_password after_submission
submit_password-Fine p ctx rd now t g actor id password sound =
    let a = operation ctx now t g actor id (by_profile (password_action p rd password)) in
    let fine =
      operation-Fine ctx now t g actor id (by_profile (password_action p rd password))
        (λ u o s v. password_action_keeps p rd password (held o).pending_profile u o s v) sound in
    let c = expired_challenge a.3 a.2.challenge in ground (arith, submitted-Fine p ctx c a fine)

cancel-Fine :
    (p : AuthPorts) (ctx : Context) (rd : Readings) (now : ℕ) (t : AuthTrace) (g : Registry)
    (actor id : ℕ)
    → Sound t g
    → Fine (cancel p ctx rd now t g actor id)
unfolding cancel after_cancel
cancel-Fine p ctx rd now t g actor id sound =
    let a = operation ctx now t g actor id (cancel_action p rd) in
    let fine =
      operation-Fine ctx now t g actor id (cancel_action p rd) (cancel_action_keeps p rd) sound in
    let c = expired_challenge a.3 a.2.challenge in ground (arith, canceled-Fine p ctx c a fine)

-- From a well-formed registry and after calls in order, whatever the ports answer and whatever is
-- read from the clock, a code, a password or a cancellation leaves the registry well formed and
-- the calls in order: an abort is completed only right after the runtime of the account was
-- stopped, and after the abort of exactly this version was begun or at the version of a
-- disconnecting target.
pub serve-Fine :
    (p : AuthPorts) (ctx : Context) (rd : Readings) (now : ℕ) (t : AuthTrace) (g : Registry)
    (actor id : ℕ) (request : Request)
    → Sound t g
    → Fine (serve p ctx rd now t g actor id request)
unfolding serve
serve-Fine p ctx rd now t g actor id (gives_a_code code) sound =
    submit_code-Fine p ctx rd now t g actor id code sound
serve-Fine p ctx rd now t g actor id (gives_a_password password) sound =
    submit_password-Fine p ctx rd now t g actor id password sound
serve-Fine p ctx rd now t g actor id cancels sound = cancel-Fine p ctx rd now t g actor id sound
