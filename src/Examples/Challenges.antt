-- ===== src/Examples/Challenges.antt =====
-- Challenges: internal/application/operatoraccountauth/challenge_registry.go.
use cresora.Prelude.{
  ℕ, ◌≡◌, refl, false, some, none, List, [], ◌∷◌, pos, subst, nat_eq, ◌==◌, if◌then◌else◌,
}
use cresora.Prelude.Maps.{lookup, insert}
use cresora.Account.{authenticating, active}
use cresora.Auth.Errors.{background, runtime_context_error}
use cresora.Auth.Phone.{trim_space}
use cresora.Auth.Challenge.{AuthTarget, target_eq, validate_target, AccountView}
use cresora.Auth.Registry.{
  Registry, new_challenge_registry, new_record, bad_preparation, prepare, store, cleanup,
  keep_unexpired, next_request_id, live_at, existing, register, register_drawn, create, admit,
}
use cresora.Auth.Registry.Invariant.{Inv, new_challenge_registry-Inv}
use cresora.Auth.Registry.Resume.{brought_forward, prepare_resumes}
use cresora.Auth.Operation.{operation}
use cresora.Auth.Operation.Recall.{ended, outcome, operation_recalls}
use cresora.Auth.History.{Event, prepares, script, step, run}
use cresora.Auth.History.Safety.{reached, step-Inv, run-Inv, run-one_per_actor}

abbrev pub target : AuthTarget
target = record { actor = 1; account_id = 10; status = authenticating; version = 2 }

abbrev pub phone : List ℕ
phone = b'+' ∷ b'4' ∷ b'4' ∷ []

abbrev admission : Event
admission = prepares background 0 5 target phone 100 (0 ∷ 11 ∷ [])

abbrev empty : Registry
empty = new_challenge_registry 600

-- The nil identity that was drawn first is passed over.
abbrev pub admitted : Registry
admitted = record {
  ttl = 600;
  capacity = 4096;
  heap =
      λ q. if q == 0 then new_record 11 target phone 100 else ((new_challenge_registry 600).heap q);
  next_address = 1;
  challenges = (11, 0) ∷ [];
  actor_slots = (1, 11) ∷ [];
  target_slots = (target, 11) ∷ [];
  tombstones = [];
  closed = false;
}

admission_runs : step empty admission ≡ admitted
unfolding step prepare runtime_context_error bad_preparation validate_target trim_space admit
    live_at create next_request_id register_drawn register cleanup keep_unexpired store existing
    lookup insert new_challenge_registry
admission_runs = refl

pub admitted-Inv : Inv admitted
admitted-Inv = subst Inv admission_runs (step-Inv empty admission (new_challenge_registry-Inv 600))

abbrev pub view : AccountView
view = record {
  id = 10;
  phone = phone;
  profile = record { user_id = pos 7; username = []; first_name = []; last_name = [] };
  status = active;
  version = 3;
  telegram_username = [];
  telegram_first_name = [];
  telegram_last_name = [];
}

run-Inv_example : Inv (run empty (admission ∷ admission ∷ []))
run-Inv_example = run-Inv empty (admission ∷ admission ∷ []) (new_challenge_registry-Inv 600)

reached-admission : reached 600 (admission ∷ []) ≡ admitted
unfolding run step prepare runtime_context_error bad_preparation validate_target trim_space admit
    live_at create next_request_id register_drawn register cleanup keep_unexpired store existing
    lookup insert new_challenge_registry
reached-admission = refl

found : lookup 11 (reached 600 (admission ∷ [])).challenges ≡ some 0
unfolding lookup
found = rw reached-admission refl

run-one_per_actor_example : ◌≡◌ {A = ℕ} 11 11
run-one_per_actor_example = run-one_per_actor 600 (admission ∷ []) 11 11 0 0 found found refl

good_preparation : bad_preparation target phone 80 ≡ false
unfolding bad_preparation validate_target trim_space
good_preparation = refl

live_there : lookup 11 admitted.challenges ≡ some 0
unfolding lookup
live_there = refl

-- Resumed with an expiry that is sooner, and not yet passed.
prepare_resumes_example :
    prepare background 1 9 admitted target phone 80 []
    ≡ some (
      brought_forward (cleanup 1 admitted) 0 80,
      existing (brought_forward (cleanup 1 admitted) 0 80) 0,
      none,
    )
prepare_resumes_example =
    prepare_resumes 1 9 admitted target phone 80 [] 11 0 admitted-Inv refl good_preparation
      live_there refl

-- The duplicate of a request that completed at 20, asked for at 30.
operation_recalls_example :
    operation background 30 tt (ended 20 admitted 0 (some view)) 1 11 (script [])
    ≡ (tt, ended 20 admitted 0 (some view), (outcome (some view)).0, (outcome (some view)).1)
operation_recalls_example =
    operation_recalls 20 30 tt admitted 1 11 0 (some view) (script []) refl refl live_there
