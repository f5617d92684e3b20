-- ===== src/Auth/Submission/Keeps.antt =====
-- What the actions of a submission keep: the order of the calls of an abort, and the registry's
-- invariant.
use cresora.Prelude.{Bool, true, false, Option, none, some, [], ◌∷◌, arith}
use cresora.Prelude.Result.{Result, ok, err}
use cresora.Auth.Errors.{Failures, provider_unavailable}
use cresora.Auth.Phone.{trim_space}
use cresora.Auth.Challenge.{Text, Profile, AccountView, password_stage}
use cresora.Auth.Registry.{Registry}
use cresora.Auth.Registry.Invariant.{Inv}
use cresora.Auth.Operation.{
  ChallengeOperation, held, reserve_code_attempt, reserve_password_attempt, set_pending_profile,
  Action,
}
use cresora.Auth.Operation.Keeps.{
  reserve_code_attempt-Inv, reserve_password_attempt-Inv, set_pending_profile-Inv, set_stage-Inv,
  complete-Inv, abort-Inv,
}
use cresora.Auth.Ports.{AuthPorts, AuthTrace, ProviderError, signs_in, gives_password}
use cresora.Auth.Lifecycle.{abort_lifecycle, finalize_lifecycle}
use cresora.Auth.Lifecycle.Strict.{IsStrict, abort_lifecycle-IsStrict}
use cresora.Auth.Submission.{
  Readings, Acted, finalized, finalize, aborted_operation, abort_operation, handle_provider_failure,
  signed, try_code, code_action, confirmed, try_password, password_action,
}

-- The calls are in order and the registry is well formed.
abbrev pub Sound : AuthTrace → Registry → Type 0
Sound t g = IsStrict t × Inv g

abbrev pub Leaves : Acted → Type 0
Leaves (t, o, fs) = Sound t o.registry

abbrev pub KeepsSound : Action AuthTrace → Type 0
KeepsSound action =
    (t : AuthTrace) (o : ChallengeOperation) → IsStrict t → Inv o.registry → Leaves (action t o)

finalized_keeps :
    (rd : Readings) (t : AuthTrace) (o : ChallengeOperation) (answer : Result Failures AccountView)
    → IsStrict t
    → Inv o.registry
    → Leaves (finalized rd t o answer)
unfolding finalized
finalized_keeps rd t o (err e) s v = (s, v)
finalized_keeps rd t o (ok account) s v = (s, complete-Inv rd.ended_at o account v)

pub finalize_keeps :
    (p : AuthPorts) (rd : Readings) (profile : Profile) → KeepsSound (finalize p rd profile)
unfolding finalize finalize_lifecycle IsStrict
finalize_keeps p rd profile t o s v =
    let one = finalize_lifecycle p t (held o).target profile in
    ground (arith, finalized_keeps rd one.0 o one.1 s v)

aborted_keeps :
    (rd : Readings) (fs : Failures) (t : AuthTrace) (o : ChallengeOperation)
    (answer : Option Failures)
    → IsStrict t
    → Inv o.registry
    → Leaves (aborted_operation rd fs t o answer)
unfolding aborted_operation
aborted_keeps rd fs t o (some e) s v = (s, v)
aborted_keeps rd fs t o none s v = (s, abort-Inv rd.ended_at o v)

abort_keeps : (p : AuthPorts) (rd : Readings) (fs : Failures) → KeepsSound (abort_operation p rd fs)
unfolding abort_operation
abort_keeps p rd fs t o s v =
    let one = abort_lifecycle p t (held o).target in
    aborted_keeps rd fs one.0 o one.1 (abort_lifecycle-IsStrict p t (held o).target s) v

failure_keeps :
    (p : AuthPorts) (rd : Readings) (causes : ProviderError)
    → KeepsSound (handle_provider_failure p rd causes)
unfolding handle_provider_failure
failure_keeps p rd causes t o s v = grind (arith, λ (fs : Failures). abort_keeps p rd fs t o s v)

signed_keeps :
    (p : AuthPorts) (rd : Readings) (answer : Result ProviderError Profile)
    → KeepsSound (signed p rd answer)
unfolding signed
signed_keeps p rd (ok profile) t o s v =
    finalize_keeps p rd profile t (set_pending_profile o profile) s
      (set_pending_profile-Inv o profile v)
signed_keeps p rd (err causes) t o s v =
    ground (arith, set_stage-Inv o password_stage v, failure_keeps p rd causes t o s v)

confirmed_keeps :
    (p : AuthPorts) (rd : Readings) (answer : Result ProviderError Profile)
    → KeepsSound (confirmed p rd answer)
unfolding confirmed
confirmed_keeps p rd (ok profile) t o s v =
    finalize_keeps p rd profile t (set_pending_profile o profile) s
      (set_pending_profile-Inv o profile v)
confirmed_keeps p rd (err causes) t o s v = ground (arith, failure_keeps p rd causes t o s v)

try_code_keeps :
    (p : AuthPorts) (rd : Readings) (code : Text) (b : Bool) → KeepsSound (try_code p rd code b)
unfolding try_code IsStrict
try_code_keeps p rd code false t o s v = (s, v)
try_code_keeps p rd code true t o s v =
    let r = held o in
    let answer = p.sign_in t r.target r.phone (trim_space code) r.hash in
    let u : AuthTrace = signs_in r.target r.phone (trim_space code) r.hash answer ∷ t in
    ground (
      arith,
      abort_keeps p rd (provider_unavailable ∷ []) t o s v,
      signed_keeps p rd answer u o s v,
    )

pub code_action_keeps :
    (p : AuthPorts) (rd : Readings) (code : Text) (profile : Option Profile)
    → KeepsSound (code_action p rd code profile)
unfolding code_action
code_action_keeps p rd code (some profile) t o s v = finalize_keeps p rd profile t o s v
code_action_keeps p rd code none t o s v =
    let (q, reserved) = reserve_code_attempt o in
    ground (arith, try_code_keeps p rd code reserved t q s (reserve_code_attempt-Inv o v))

try_password_keeps :
    (p : AuthPorts) (rd : Readings) (password : Text) (b : Bool)
    → KeepsSound (try_password p rd password b)
unfolding try_password IsStrict
try_password_keeps p rd password false t o s v = (s, v)
try_password_keeps p rd password true t o s v =
    let answer = p.password t (held o).target password in
    let u : AuthTrace = gives_password (held o).target password answer ∷ t in
    ground (
      arith,
      abort_keeps p rd (provider_unavailable ∷ []) t o s v,
      confirmed_keeps p rd answer u o s v,
    )

pub password_action_keeps :
    (p : AuthPorts) (rd : Readings) (password : Text) (profile : Option Profile)
    → KeepsSound (password_action p rd password profile)
unfolding password_action
password_action_keeps p rd password (some profile) t o s v = finalize_keeps p rd profile t o s v
password_action_keeps p rd password none t o s v =
    let (q, reserved) = reserve_password_attempt o in
    ground
      (arith, try_password_keeps p rd password reserved t q s (reserve_password_attempt-Inv o v))
