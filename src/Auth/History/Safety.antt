-- ===== src/Auth/History/Safety.antt =====
-- What holds of the registry after any history.
use cresora.Prelude.{ℕ, ◌≡◌, Option, none, some, List, [], ◌∷◌, nat_eq, OnSome}
use cresora.Prelude.Maps.{lookup}
use cresora.Auth.Registry.{Registry, Reservation, Outcome, prepare, new_challenge_registry}
use cresora.Auth.Registry.Invariant.{
  Inv, close_admission-Inv, clear_tombstones-Inv, new_challenge_registry-Inv,
}
use cresora.Auth.Registry.Admission.{prepare-Inv}
use cresora.Auth.Methods.Keeps.{
  commit-Inv, rollback-Inv, status-Inv, remove-Inv, clear_shutdown_state-Inv,
}
use cresora.Auth.Operation.{ChallengeOperation}
use cresora.Auth.Operation.Keeps.{
  reserve_code_attempt-Inv, reserve_password_attempt-Inv, set_pending_profile-Inv, set_stage-Inv,
  complete-Inv, abort-Inv, operation-Inv,
}
use cresora.Auth.History.{
  Touch, reserves_code, reserves_password, sets_profile, sets_stage, completes, aborts, touch,
  touches, script, Event, prepares, commits, rolls_back, asks_status, operates, removes, clears,
  closes, forgets, after, step, run,
}

touch-Inv : (o : ChallengeOperation) (t : Touch) → Inv o.registry → Inv (touch o t).registry
unfolding touch
touch-Inv o reserves_code v = reserve_code_attempt-Inv o v
touch-Inv o reserves_password v = reserve_password_attempt-Inv o v
touch-Inv o (sets_profile profile) v = set_pending_profile-Inv o profile v
touch-Inv o (sets_stage stage) v = set_stage-Inv o stage v
touch-Inv o (completes now account) v = complete-Inv now o account v
touch-Inv o (aborts now) v = abort-Inv now o v

touches-Inv :
    (o : ChallengeOperation) (ts : List Touch) → Inv o.registry → Inv (touches o ts).registry
unfolding touches
touches-Inv o [] v = v
touches-Inv o (t ∷ ts) v = touches-Inv (touch o t) ts (touch-Inv o t v)

after-Inv :
    (g : Registry) (o : Option (Outcome Reservation))
    → Inv g
    → OnSome (λ (x : Outcome Reservation). Inv x.0) o
    → Inv (after g o)
after-Inv g none v h = v
after-Inv g (some x) v h = h

pub step-Inv : (g : Registry) (e : Event) → Inv g → Inv (step g e)
unfolding step
step-Inv g (prepares ctx c now t phone x drawn) v =
    after-Inv g (prepare ctx c now g t phone x drawn) v (prepare-Inv ctx c now g t phone x drawn v)
step-Inv g (commits ctx b l r sent) v = commit-Inv ctx b l g r sent v
step-Inv g (rolls_back ctx r) v = rollback-Inv ctx g r v
step-Inv g (asks_status ctx c now actor) v = status-Inv ctx c now g actor v
step-Inv g (operates ctx now actor id ts) v =
    operation-Inv ctx now tt g actor id (script ts) (λ w o h. touches-Inv o ts h) v
step-Inv g (removes ctx actor id) v = remove-Inv ctx g actor id v
step-Inv g (clears c) v = clear_shutdown_state-Inv g c v
step-Inv g closes v = close_admission-Inv g v
step-Inv g forgets v = clear_tombstones-Inv g v

-- After any history from a well-formed registry every challenge is live, every slot names a live
-- challenge of its own actor or target, and the capacity is respected.
pub run-Inv : (g : Registry) (es : List Event) → Inv g → Inv (run g es)
unfolding run
run-Inv g [] v = v
run-Inv g (e ∷ es) v = run-Inv (step g e) es (step-Inv g e v)

one_per_actor :
    (g : Registry) (i j p q : ℕ)
    → Inv g
    → lookup i g.challenges ≡ some p
    → lookup j g.challenges ≡ some q
    → (g.heap p).target.actor ≡ (g.heap q).target.actor
    → i ≡ j
one_per_actor g i j p q v hi hj e = cc (e, (v.live i p hi).actor_slot, (v.live j q hj).actor_slot)

-- An actor never has two live challenges: after any history of a new registry, two challenges whose
-- records have the same actor are one.
pub run-one_per_actor :
    (ttl : ℕ) (es : List Event) (i j p q : ℕ)
    → let g = run (new_challenge_registry ttl) es in
      lookup i g.challenges ≡ some p
      → lookup j g.challenges ≡ some q
      → (g.heap p).target.actor ≡ (g.heap q).target.actor
      → i ≡ j
run-one_per_actor ttl es i j p q =
    one_per_actor (run (new_challenge_registry ttl) es) i j p q
      (run-Inv (new_challenge_registry ttl) es (new_challenge_registry-Inv ttl))

-- The registry of a history that starts from a new one.
abbrev pub reached : ℕ → List Event → Registry
reached ttl es = run (new_challenge_registry ttl) es
