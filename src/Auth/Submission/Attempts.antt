-- ===== src/Auth/Submission/Attempts.antt =====
-- The provider is asked for a sign-in only against an attempt at the challenge.
use cresora.Prelude.{
  ℕ, ◌+◌, ◌≤◌, ◌≡◌, refl, Bool, true, false, Option, none, some, [], ◌∷◌, arith, nat_eq,
  if◌then◌else◌,
}
use cresora.Prelude.Result.{Result, ok, err}
use cresora.Auth.Errors.{Failures, provider_unavailable}
use cresora.Auth.Phone.{trim_space}
use cresora.Auth.Challenge.{Text, Profile, AccountView, Stage, no_stage, code_stage, password_stage}
use cresora.Auth.Registry.{Registry, store, remove_with_tombstone}
use cresora.Auth.Operation.{
  ChallengeOperation, held, complete, abort, reserve_code_attempt, set_pending_profile, set_stage,
}
use cresora.Auth.Ports.{AuthPorts, AuthTrace, ProviderError, signs_in}
use cresora.Auth.Lifecycle.{abort_lifecycle, finalize_lifecycle}
use cresora.Auth.Submission.{
  Readings, Acted, finalized, finalize, aborted_operation, abort_operation, handle_provider_failure,
  signed, try_code, code_action,
}
use cresora.Auth.Lifecycle.Asks.{sign_ins, abort_lifecycle-asks}

abbrev pub attempts : ℕ → Registry → ℕ
attempts q g = (g.heap q).code_attempts

pub removed_attempts :
    (now : ℕ) (g : Registry) (p : ℕ) (account : Option AccountView) (b : Bool) (q : ℕ)
    → attempts q (remove_with_tombstone now g p account b) ≡ attempts q g
unfolding remove_with_tombstone
removed_attempts now g p account b q = ground arith

-- Neither a sign-in nor an attempt at the record `q`.
abbrev IsFree : ℕ → AuthTrace → ChallengeOperation → Acted → Type 0
IsFree q t o (u, a, fs) =
    (sign_ins u ≡ sign_ins t) × (attempts q a.registry ≡ attempts q o.registry)

finalized-IsFree :
    (rd : Readings) (t : AuthTrace) (o : ChallengeOperation) (answer : Result Failures AccountView)
    (q : ℕ)
    → IsFree q t o (finalized rd t o answer)
unfolding finalized complete
finalized-IsFree rd t o (err e) q = (refl, refl)
finalized-IsFree rd t o (ok account) q =
    ground (arith, removed_attempts rd.ended_at o.registry o.pointer (some account) false q)

finalize-IsFree :
    (p : AuthPorts) (rd : Readings) (profile : Profile) (t : AuthTrace) (o : ChallengeOperation)
    (q : ℕ)
    → IsFree q t o (finalize p rd profile t o)
unfolding finalize finalize_lifecycle sign_ins
finalize-IsFree p rd profile t o q =
    let one = finalize_lifecycle p t (held o).target profile in
    ground (arith, finalized-IsFree rd one.0 o one.1 q)

aborted-IsFree :
    (rd : Readings) (fs : Failures) (t : AuthTrace) (o : ChallengeOperation)
    (answer : Option Failures) (q : ℕ)
    → IsFree q t o (aborted_operation rd fs t o answer)
unfolding aborted_operation abort
aborted-IsFree rd fs t o (some e) q = (refl, refl)
aborted-IsFree rd fs t o none q =
    ground (arith, removed_attempts rd.ended_at o.registry o.pointer none true q)

abort_operation-IsFree :
    (p : AuthPorts) (rd : Readings) (fs : Failures) (t : AuthTrace) (o : ChallengeOperation) (q : ℕ)
    → IsFree q t o (abort_operation p rd fs t o)
unfolding abort_operation
abort_operation-IsFree p rd fs t o q =
    let one = abort_lifecycle p t (held o).target in
    ground (arith, abort_lifecycle-asks p t (held o).target, aborted-IsFree rd fs one.0 o one.1 q)

failure-IsFree :
    (p : AuthPorts) (rd : Readings) (causes : ProviderError) (t : AuthTrace)
    (o : ChallengeOperation) (q : ℕ)
    → IsFree q t o (handle_provider_failure p rd causes t o)
unfolding handle_provider_failure
failure-IsFree p rd causes t o q =
    grind (arith, λ (fs : Failures). abort_operation-IsFree p rd fs t o q)

set_stage-attempts :
    (o : ChallengeOperation) (s : Stage) (q : ℕ)
    → attempts q (set_stage o s).0.registry ≡ attempts q o.registry
unfolding set_stage store
set_stage-attempts o no_stage q = refl
set_stage-attempts o code_stage q = ground arith
set_stage-attempts o password_stage q = ground arith

set_pending_profile-attempts :
    (o : ChallengeOperation) (profile : Profile) (q : ℕ)
    → attempts q (set_pending_profile o profile).registry ≡ attempts q o.registry
unfolding set_pending_profile store
set_pending_profile-attempts o profile q = ground arith

signed-IsFree :
    (p : AuthPorts) (rd : Readings) (answer : Result ProviderError Profile) (t : AuthTrace)
    (o : ChallengeOperation) (q : ℕ)
    → IsFree q t o (signed p rd answer t o)
unfolding signed
signed-IsFree p rd (ok profile) t o q = ground (
  arith,
  set_pending_profile-attempts o profile q,
  finalize-IsFree p rd profile t (set_pending_profile o profile) q,
)
signed-IsFree p rd (err causes) t o q =
    ground (arith, set_stage-attempts o password_stage q, failure-IsFree p rd causes t o q)

-- At most one sign-in, and at least as many new attempts at the record.
abbrev pub IsPaid : ℕ → AuthTrace → Registry → AuthTrace → Registry → Type 0
IsPaid q t g u h =
    (sign_ins u ≤ sign_ins t + 1) × (sign_ins u + attempts q g ≤ sign_ins t + attempts q h)

try_code_tries :
    (p : AuthPorts) (rd : Readings) (code : Text) (b : Bool) (t : AuthTrace)
    (o : ChallengeOperation) (q : ℕ)
    → let (u, a, fs) = try_code p rd code b t o in
      (sign_ins u ≤ sign_ins t + (if b then 1 else 0))
      × (attempts q a.registry ≡ attempts q o.registry)
unfolding try_code sign_ins
try_code_tries p rd code false t o q = omega arith
try_code_tries p rd code true t o q =
    let r = held o in
    let answer = p.sign_in t r.target r.phone (trim_space code) r.hash in
    let u : AuthTrace = signs_in r.target r.phone (trim_space code) r.hash answer ∷ t in
    ground (
      arith,
      abort_operation-IsFree p rd (provider_unavailable ∷ []) t o q,
      signed-IsFree p rd answer u o q,
    )

-- A reservation is an attempt.
reserved_lem :
    (o : ChallengeOperation)
    → attempts o.pointer (reserve_code_attempt o).0.registry
      ≡ attempts o.pointer o.registry + (if (reserve_code_attempt o).1 then 1 else 0)
unfolding reserve_code_attempt store
reserved_lem o = ground arith

pub code_action-IsPaid :
    (p : AuthPorts) (rd : Readings) (code : Text) (profile : Option Profile) (t : AuthTrace)
    (o : ChallengeOperation)
    → let (u, a, fs) = code_action p rd code profile t o in
      IsPaid o.pointer t o.registry u a.registry
unfolding code_action
code_action-IsPaid p rd code (some profile) t o =
    omega (arith, finalize-IsFree p rd profile t o o.pointer)
code_action-IsPaid p rd code none t o =
    let (a, reserved) = reserve_code_attempt o in
    ground (arith, reserved_lem o, try_code_tries p rd code reserved t a o.pointer)
