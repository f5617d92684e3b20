-- ===== src/Auth/Methods/Keeps.antt =====
-- Every method on a reservation or a request keeps the registry well formed.
use cresora.Prelude.{ℕ, refl, true, Option, none, some, arith, nat_eq, inl, inr, Option-cases}
use cresora.Prelude.Maps.{lookup}
use cresora.Auth.Errors.{Context}
use cresora.Auth.Challenge.{Challenge, SendCodeResult}
use cresora.Auth.Registry.{Registry, Reservation, remove_locked, cleanup, wiped}
use cresora.Auth.Registry.Invariant.{Inv, store-Inv, cleanup-Inv}
use cresora.Auth.Registry.Removal.{remove_locked-Inv}
use cresora.Auth.Methods.{
  attach, commit_pointer, commit, rollback_pointer, rollback, status_of, status, owned,
  remove_pointer, remove, shut_down, clear_shutdown_state, capped_expiry, delivery_label,
}

attach-Inv :
    (before after : ℕ) (g : Registry) (p : ℕ) (sent : SendCodeResult)
    → Inv g
    → Inv (attach before after g p sent).0
unfolding attach
attach-Inv before after g p sent v = ground (
  arith,
  store-Inv g p (record (g.heap p) { expires = capped_expiry (g.heap p) sent }) refl refl v
      (v.frugal p),
  store-Inv g p
      (record (g.heap p) {
        expires = capped_expiry (g.heap p) sent;
        hash = sent.phone_code_hash;
        delivery = delivery_label sent.delivery;
        ready = true;
      })
      refl refl v (v.frugal p),
)

commit_pointer-Inv :
    (before after : ℕ) (g : Registry) (o : Option ℕ) (sent : SendCodeResult)
    → Inv g
    → Inv (commit_pointer before after g o sent).0
unfolding commit_pointer
commit_pointer-Inv before after g none sent v = v
commit_pointer-Inv before after g (some p) sent v =
    ground (arith, attach-Inv before after g p sent v)

pub commit-Inv :
    (ctx : Context) (before after : ℕ) (g : Registry) (r : Reservation) (sent : SendCodeResult)
    → Inv g
    → Inv (commit ctx before after g r sent).0
unfolding commit
commit-Inv ctx before after g r sent v =
    ground (arith, commit_pointer-Inv before after g r.pointer sent v)

rollback_pointer-Inv : (g : Registry) (o : Option ℕ) → Inv g → Inv (rollback_pointer g o).0
unfolding rollback_pointer
rollback_pointer-Inv g none v = v
rollback_pointer-Inv g (some p) v = ground (arith, remove_locked-Inv g p v)

pub rollback-Inv :
    (ctx : Context) (g : Registry) (r : Reservation) → Inv g → Inv (rollback ctx g r).0
unfolding rollback
rollback-Inv ctx g r v = ground (arith, rollback_pointer-Inv g r.pointer v)

status_of-Inv :
    (now : ℕ) (g : Registry) (actor : ℕ) (o : Option ℕ) → Inv g → Inv (status_of now g actor o).0
unfolding status_of
status_of-Inv now g actor none v = v
status_of-Inv now g actor (some id) v = ground arith

pub status-Inv :
    (ctx : Context) (cleaned_at now : ℕ) (g : Registry) (actor : ℕ)
    → Inv g
    → Inv (status ctx cleaned_at now g actor).0
unfolding status
status-Inv ctx cleaned_at now g actor v =
    let h = cleanup cleaned_at g in
    ground (
      arith,
      v,
      status_of-Inv now h actor (lookup actor h.actor_slots) (cleanup-Inv cleaned_at g v),
    )

remove_pointer-Inv : (g : Registry) (o : Option ℕ) → Inv g → Inv (remove_pointer g o).0
unfolding remove_pointer
remove_pointer-Inv g none v = v
remove_pointer-Inv g (some p) v =
    let h = (remove_locked g p).0 in
    let kept = remove_locked-Inv g p v in
    store-Inv h p (wiped (h.heap p)) refl refl kept (kept.frugal p)

pub remove-Inv :
    (ctx : Context) (g : Registry) (actor request_id : ℕ)
    → Inv g
    → Inv (remove ctx g actor request_id).0
unfolding remove
remove-Inv ctx g actor request_id v =
    ground (arith, remove_pointer-Inv g (owned g actor request_id) v)

pub clear_shutdown_state-Inv :
    (g : Registry) (c : Challenge) → Inv g → Inv (clear_shutdown_state g c)
unfolding clear_shutdown_state
clear_shutdown_state-Inv g c v = elim (Option-cases (lookup c.request_id g.challenges)) [
  | inl e ↦ rw (e, clear_shutdown_state) v
  | inr (p, e) ↦
      rw (e, clear_shutdown_state)
        (ground (arith, store-Inv g p (shut_down (g.heap p)) refl refl v (omega arith)))
]
