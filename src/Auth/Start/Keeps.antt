-- ===== src/Auth/Start/Keeps.antt =====
-- A start keeps the registry well formed and the calls of an abort in order.
use cresora.Prelude.{
  ℕ, Bool, true, false, Option, none, some, [], ◌∷◌, arith, OnSome, Option-cases, inl, inr, ◌+◌,
}
use cresora.Prelude.Result.{Result, ok, err}
use cresora.Auth.Errors.{
  AuthError, Failures, Context, background, service_closed, challenge_expired, map_challenge_error,
  provider_unavailable,
}
use cresora.Auth.Phone.{normalize_phone}
use cresora.Auth.Challenge.{Text, AuthTarget, Challenge, SendCodeResult}
use cresora.Auth.Registry.{Registry, Reservation, Outcome, prepare}
use cresora.Auth.Registry.Invariant.{Inv}
use cresora.Auth.Registry.Admission.{prepare-Inv}
use cresora.Auth.Methods.{commit, rollback}
use cresora.Auth.Methods.Keeps.{commit-Inv, rollback-Inv}
use cresora.Auth.Diagnosis.{class_of_cause, classify_provider_failure}
use cresora.Auth.Ports.{
  AuthPorts, AuthTrace, BeginResult, BeginOutcome, already_active, ProviderError, sends_code,
  begins,
}
use cresora.Auth.Lifecycle.{begin_lifecycle, begun}
use cresora.Auth.Lifecycle.Strict.{IsStrict, abort_lifecycle-IsStrict}
use cresora.Auth.Submission.Keeps.{Sound}
use cresora.Auth.Requests.{Expired, expire_challenge, validate_service_context}
use cresora.Auth.Requests.Orders.{Fine, expire_challenge-Fine}
use cresora.Auth.Start.{
  StartReadings, auth_target, challenge_of, abort_after, abort_provider_failure, after_expiry,
  handle_prepare_failure, answered_expiry, handle_send_code_failure, handle_attach_failure,
  attached, sent, send_code, reserved, prepared, admitted_as, admitted, start_normalized, start,
}

abort_after-Fine :
    (p : AuthPorts) (t : AuthTrace) (g : Registry) (target : AuthTarget) (fs : Failures)
    → Sound t g
    → Fine (abort_after p t g target fs)
unfolding abort_after
abort_after-Fine p t g target fs sound = (abort_lifecycle-IsStrict p t target sound.0, sound.1)

abort_provider_failure-Fine :
    (p : AuthPorts) (t : AuthTrace) (g : Registry) (target : AuthTarget) (fs : Failures)
    → Sound t g
    → Fine (abort_provider_failure p t g target fs)
unfolding abort_provider_failure
abort_provider_failure-Fine p t g target fs sound =
    ground (arith, abort_lifecycle-IsStrict p t target sound.0)

after_expiry-Fine :
    (p : AuthPorts) (target : AuthTarget) (c : Challenge) (x : Expired)
    → Sound x.0 x.1
    → Fine (after_expiry p target c x)
unfolding after_expiry
after_expiry-Fine p target c (t, g, none) sound =
    ground (arith, abort_after-Fine p t g target (challenge_expired ∷ []) sound)
after_expiry-Fine p target c (t, g, some e) sound =
    abort_after-Fine p t g target (challenge_expired ∷ challenge_expired ∷ e) sound

handle_prepare_failure-Fine :
    (p : AuthPorts) (ctx : Context) (t : AuthTrace) (g : Registry) (target : AuthTarget)
    (r : Reservation) (e : AuthError)
    → Sound t g
    → Fine (handle_prepare_failure p ctx t g target r e)
unfolding handle_prepare_failure
handle_prepare_failure-Fine p ctx t g target r e sound =
    let x = expire_challenge p ctx t g (challenge_of r) in
    ground (
      arith,
      after_expiry-Fine p target (challenge_of r) x
          (expire_challenge-Fine p ctx t g (challenge_of r) sound),
      abort_after-Fine p t g target (map_challenge_error e ∷ []) sound,
    )

answered-Fine :
    (p : AuthPorts) (ctx : Context) (t : AuthTrace) (g : Registry) (c : Challenge)
    → Sound t g
    → Fine (answered_expiry (expire_challenge p ctx t g c))
unfolding answered_expiry
answered-Fine p ctx t g c sound = expire_challenge-Fine p ctx t g c sound

send_failure-Fine :
    (p : AuthPorts) (ctx : Context) (rd : StartReadings) (t : AuthTrace) (g : Registry)
    (target : AuthTarget) (r : Reservation) (causes : ProviderError)
    → Sound t g
    → Fine (handle_send_code_failure p ctx rd t g target r causes)
unfolding handle_send_code_failure
send_failure-Fine p ctx rd t g target r causes sound =
    let h = (rollback background g r).0 in
    let v = rollback-Inv background g r sound.1 in
    let failure =
      class_of_cause (classify_provider_failure causes (challenge_of r).expires_at rd.classified_at)
      ∷ [] in
    ground (
      arith,
      v,
      answered-Fine p ctx t g (challenge_of r) sound,
      abort_provider_failure-Fine p t h target failure (sound.0, v),
    )

attach_failure-Fine :
    (p : AuthPorts) (ctx : Context) (t : AuthTrace) (g : Registry) (target : AuthTarget)
    (r : Reservation) (e : AuthError)
    → Sound t g
    → Fine (handle_attach_failure p ctx t g target r e)
unfolding handle_attach_failure
attach_failure-Fine p ctx t g target r e sound = ground (
  arith,
  rollback-Inv background g r sound.1,
  answered-Fine p ctx t g (challenge_of r) sound,
  abort_after-Fine p t g target (service_closed ∷ []) sound,
)

attached-Fine :
    (p : AuthPorts) (ctx : Context) (t : AuthTrace) (target : AuthTarget) (r : Reservation)
    (o : Outcome (Option Challenge))
    → Sound t o.0
    → Fine (attached p ctx t target r o)
unfolding attached
attached-Fine p ctx t target r (g, c, some e) sound = attach_failure-Fine p ctx t g target r e sound
attached-Fine p ctx t target r (g, none, none) sound = sound
attached-Fine p ctx t target r (g, some c, none) sound = sound

sent-Fine :
    (p : AuthPorts) (ctx : Context) (rd : StartReadings) (t : AuthTrace) (g : Registry)
    (target : AuthTarget) (r : Reservation) (answer : Result ProviderError SendCodeResult)
    → Sound t g
    → Fine (sent p ctx rd t g target r answer)
unfolding sent
sent-Fine p ctx rd t g target r (err causes) sound =
    send_failure-Fine p ctx rd t g target r causes sound
sent-Fine p ctx rd t g target r (ok result) sound =
    attached-Fine p ctx t target r
      (commit rd.sent_context rd.committed_before rd.committed_after g r result)
      (
        sound.0,
        commit-Inv rd.sent_context rd.committed_before rd.committed_after g r result sound.1,
      )

send_code-Fine :
    (p : AuthPorts) (ctx : Context) (rd : StartReadings) (t : AuthTrace) (g : Registry)
    (target : AuthTarget) (phone : Text) (r : Reservation)
    → Sound t g
    → Fine (send_code p ctx rd t g target phone r)
unfolding send_code IsStrict
send_code-Fine p ctx rd t g target phone r sound =
    let h = (rollback background g r).0 in
    let answer = p.send_code t target phone in
    ground (
      arith,
      abort_provider_failure-Fine p t h target (provider_unavailable ∷ [])
          (sound.0, rollback-Inv background g r sound.1),
      sent-Fine p ctx rd (sends_code target phone answer ∷ t) g target r answer sound,
    )

reserved-Fine :
    (p : AuthPorts) (ctx : Context) (rd : StartReadings) (t : AuthTrace) (g : Registry)
    (target : AuthTarget) (phone : Text) (r : Reservation) (b : Bool)
    → Sound t g
    → Fine (reserved p ctx rd t g target phone r b)
unfolding reserved
reserved-Fine p ctx rd t g target phone r false sound = sound
reserved-Fine p ctx rd t g target phone r true sound =
    send_code-Fine p ctx rd t g target phone r sound

prepared-Fine :
    (p : AuthPorts) (ctx : Context) (rd : StartReadings) (t : AuthTrace) (target : AuthTarget)
    (phone : Text) (o : Option (Outcome Reservation))
    → IsStrict t
    → OnSome (λ (x : Outcome Reservation). Inv x.0) o
    → OnSome Fine (prepared p ctx rd t target phone o)
unfolding prepared
prepared-Fine p ctx rd t target phone none strict v = tt
prepared-Fine p ctx rd t target phone (some (g, r, some e)) strict v =
    handle_prepare_failure-Fine p ctx t g target r e (strict, v)
prepared-Fine p ctx rd t target phone (some (g, r, none)) strict v =
    reserved-Fine p ctx rd t g target phone r r.created (strict, v)

admitted_as-Fine :
    (p : AuthPorts) (ctx : Context) (rd : StartReadings) (t : AuthTrace) (g : Registry) (actor : ℕ)
    (phone : Text) (begin : BeginResult) (b : BeginOutcome)
    → Sound t g
    → OnSome Fine (admitted_as p ctx rd t g actor phone begin b)
unfolding admitted_as
admitted_as-Fine p ctx rd t g actor phone begin already_active sound = sound
admitted_as-Fine p ctx rd t g actor phone begin _ sound =
    let target = auth_target actor begin.account in
    let e = begin.auth_expires_at in
    prepared-Fine p ctx rd t target phone
      (prepare ctx rd.cleaned_at rd.prepared_at g target phone e rd.drawn) sound.0
      (prepare-Inv ctx rd.cleaned_at rd.prepared_at g target phone e rd.drawn sound.1)

admitted-Fine :
    (p : AuthPorts) (ctx : Context) (rd : StartReadings) (t : AuthTrace) (g : Registry) (actor : ℕ)
    (phone : Text) (answer : Result Failures BeginResult)
    → Sound t g
    → OnSome Fine (admitted p ctx rd t g actor phone answer)
unfolding admitted
admitted-Fine p ctx rd t g actor phone (err e) sound = sound
admitted-Fine p ctx rd t g actor phone (ok begin) sound =
    admitted_as-Fine p ctx rd t g actor phone begin begin.outcome sound

begun-IsStrict :
    (t : AuthTrace) (answer : Result Failures BeginResult)
    → IsStrict t
    → IsStrict (begun t answer).0
unfolding begun
begun-IsStrict t (err e) strict = strict
begun-IsStrict t (ok r) strict = ground arith

normalized-Fine :
    (p : AuthPorts) (ctx : Context) (rd : StartReadings) (t : AuthTrace) (g : Registry)
    (closed : Bool) (actor : ℕ) (phone : Option Text)
    → Sound t g
    → OnSome Fine (start_normalized p ctx rd t g closed actor phone)
unfolding start_normalized begin_lifecycle IsStrict
normalized-Fine p ctx rd t g closed actor none sound = sound
normalized-Fine p ctx rd t g true actor (some phone) sound = sound
normalized-Fine p ctx rd t g false actor (some phone) sound =
    let expires = rd.started_at + g.ttl in
    let answer = p.begin_or_resume t actor phone expires in
    let b = begun (begins actor phone expires answer ∷ t) answer in
    admitted-Fine p ctx rd b.0 g actor phone b.1
      (begun-IsStrict (begins actor phone expires answer ∷ t) answer sound.0, sound.1)

-- From a well-formed registry and after calls in order, a start too leaves the registry well
-- formed and the calls of an abort in order, whatever the ports answer and however it ends.
pub start-Fine :
    (p : AuthPorts) (ctx : Context) (rd : StartReadings) (t : AuthTrace) (g : Registry)
    (closed : Bool) (actor : ℕ) (phone : Text)
    → Sound t g
    → OnSome Fine (start p ctx rd t g closed actor phone)
unfolding start
start-Fine p ctx rd t g closed actor phone sound =
    elim (Option-cases (validate_service_context ctx actor)) [
      | inr (e, h) ↦ rw (h, OnSome) sound
      | inl h ↦
          rw (h, OnSome) (normalized-Fine p ctx rd t g closed actor (normalize_phone phone) sound)
    ]
