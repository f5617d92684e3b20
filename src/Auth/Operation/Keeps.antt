-- ===== src/Auth/Operation/Keeps.antt =====
-- The methods of an operation, and `Operation` over any action built from them.
use cresora.Prelude.{ℕ, ◌+◌, refl, true, false, Option, none, some, arith}
use cresora.Auth.Errors.{Context}
use cresora.Auth.Challenge.{Stage, no_stage, Profile, AccountView}
use cresora.Auth.Registry.{Registry}
use cresora.Auth.Registry.Invariant.{Inv, store-Inv}
use cresora.Auth.Registry.Removal.{remove_with_tombstone-Inv}
use cresora.Auth.Methods.{owned}
use cresora.Auth.Operation.{
  ChallengeOperation, held, reserve_code_attempt, reserve_password_attempt, set_pending_profile,
  set_stage, complete, abort, Action, begin, act, dispatch, operation,
}

pub reserve_code_attempt-Inv :
    (o : ChallengeOperation) → Inv o.registry → Inv (reserve_code_attempt o).0.registry
unfolding reserve_code_attempt
reserve_code_attempt-Inv o v = ground (
  arith,
  store-Inv o.registry o.pointer (record (held o) { code_attempts = (held o).code_attempts + 1 })
      refl refl v,
  v.frugal o.pointer,
)

pub reserve_password_attempt-Inv :
    (o : ChallengeOperation) → Inv o.registry → Inv (reserve_password_attempt o).0.registry
unfolding reserve_password_attempt
reserve_password_attempt-Inv o v = ground (
  arith,
  store-Inv o.registry o.pointer
      (record (held o) { password_attempts = (held o).password_attempts + 1 }) refl refl v,
  v.frugal o.pointer,
)

pub set_pending_profile-Inv :
    (o : ChallengeOperation) (profile : Profile)
    → Inv o.registry
    → Inv (set_pending_profile o profile).registry
unfolding set_pending_profile
set_pending_profile-Inv o profile v =
    store-Inv o.registry o.pointer _ refl refl v (v.frugal o.pointer)

pub set_stage-Inv :
    (o : ChallengeOperation) (s : Stage) → Inv o.registry → Inv (set_stage o s).0.registry
unfolding set_stage
set_stage-Inv o no_stage v = v
set_stage-Inv o _ v = store-Inv o.registry o.pointer _ refl refl v (v.frugal o.pointer)

pub complete-Inv :
    (now : ℕ) (o : ChallengeOperation) (account : AccountView)
    → Inv o.registry
    → Inv (complete now o account).registry
unfolding complete
complete-Inv now o account v =
    ground (arith, remove_with_tombstone-Inv now o.registry o.pointer (some account) false v)

pub abort-Inv : (now : ℕ) (o : ChallengeOperation) → Inv o.registry → Inv (abort now o).registry
unfolding abort
abort-Inv now o v = ground (arith, remove_with_tombstone-Inv now o.registry o.pointer none true v)

module _ {W : Type 0} where
  -- An action under which a well-formed registry stays so.
  abbrev pub KeepsInv : Action W → Type 0
  KeepsInv action = (w : W) (o : ChallengeOperation) → Inv o.registry → Inv (action w o).1.registry

  act-Inv :
      (now : ℕ) (w : W) (g : Registry) (p : ℕ) (action : Action W)
      → KeepsInv action
      → Inv g
      → Inv (act now w g p action).1
  unfolding act
  act-Inv now w g p action keep v = ground (arith, keep w (begin g p) v)

  dispatch-Inv :
      (now : ℕ) (w : W) (g : Registry) (actor request_id : ℕ) (action : Action W) (o : Option ℕ)
      → KeepsInv action
      → Inv g
      → Inv (dispatch now w g actor request_id action o).1
  unfolding dispatch
  dispatch-Inv now w g actor request_id action none keep v = v
  dispatch-Inv now w g actor request_id action (some p) keep v = act-Inv now w g p action keep v

  pub operation-Inv :
      (ctx : Context) (now : ℕ) (w : W) (g : Registry) (actor request_id : ℕ) (action : Action W)
      → KeepsInv action
      → Inv g
      → Inv (operation ctx now w g actor request_id action).1
  unfolding operation
  operation-Inv ctx now w g actor request_id action keep v =
      ground (arith, dispatch-Inv now w g actor request_id action (owned g actor request_id) keep v)
