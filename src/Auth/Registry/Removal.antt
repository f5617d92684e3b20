-- ===== src/Auth/Registry/Removal.antt =====
-- `removeLocked` and `removeWithTombstone`: a challenge leaves with its slots.
use cresora.Prelude.{
  ℕ, ◌≡◌, refl, ◌↔◌, Bool, true, false, ◌&&◌, Option, none, some, arith, nat_eq, if◌then◌else◌,
  ◌==◌, inl, inr, Bool-cases, Eq,
}
use cresora.Prelude.Maps.{
  Map, lookup, insert, delete, lookup-delete, lookup-insert, length-delete, length-insert,
}
use cresora.Auth.Challenge.{AuthTarget, target_eq, same_target_iff, TerminalResult, AccountView}
use cresora.Auth.Registry.{
  Registry, points_to, delete_slot, remove_locked, remove_with_tombstone, wiped,
}
use cresora.Auth.Registry.Invariant.{Live, Inv, store-Inv}

lookup-delete_slot :
    {K : Type 0} ⦃e : Eq K⦄ (k j : K) (id : ℕ) (m : Map K ℕ)
    → lookup j (delete_slot k id m)
      ≡ (if points_to (lookup k m) id && e.beq k j then none else lookup j m)
lookup-delete_slot ⦃e⦄ k j id m = ground (arith, lookup-delete k j m)

-- The registry without the challenge `id`, whose record is at `p`.
abbrev pub without : Registry → ℕ → Registry
without g p = record g {
  challenges = delete (g.heap p).request_id g.challenges;
  actor_slots = delete_slot (g.heap p).target.actor (g.heap p).request_id g.actor_slots;
  target_slots = delete_slot (g.heap p).target (g.heap p).request_id g.target_slots;
}

module _ (g : Registry) (p : ℕ) (v : Inv g)
    (here : lookup (g.heap p).request_id g.challenges ≡ some p) where
  -- What is still there was there, and is another challenge.
  remains :
      (id q : ℕ)
      → lookup id (without g p).challenges ≡ some q
      → (lookup id g.challenges ≡ some q) × (((g.heap p).request_id == id) ≡ false)
  remains id q h = ground (arith, lookup-delete (g.heap p).request_id id g.challenges)

  without-Live : (id q : ℕ) → lookup id (without g p).challenges ≡ some q → Live (without g p) id q
  unfolding points_to
  without-Live id q h =
      let (was, other) = remains id q h in
      let l = v.live id q was in
      let r = g.heap p in
      record {
        allocated = l.allocated;
        keyed = l.keyed;
        actor_slot = ground (
          arith,
          l.actor_slot,
          lookup-delete_slot r.target.actor (g.heap q).target.actor r.request_id g.actor_slots,
        );
        target_slot = ground (
          arith,
          l.target_slot,
          same_target_iff r.target (g.heap q).target,
          lookup-delete_slot r.target (g.heap q).target r.request_id g.target_slots,
        );
        apart = l.apart;
      }

  without-actor_live :
      (a id : ℕ)
      → lookup a (without g p).actor_slots ≡ some id
      → (q : ℕ) × (lookup id (without g p).challenges ≡ some q) × ((g.heap q).target.actor ≡ a)
  unfolding points_to
  without-actor_live a id h =
      let r = g.heap p in
      let law = lookup-delete_slot r.target.actor a r.request_id g.actor_slots in
      let old : lookup a g.actor_slots ≡ some id = ground (arith, law) in
      let (q, found, e) = v.actor_live a id old in
      (q, ground (arith, law, old, here, found, e, lookup-delete r.request_id id g.challenges), e)

  without-target_live :
      (t : AuthTarget) (id : ℕ)
      → lookup t (without g p).target_slots ≡ some id
      → (q : ℕ) × (lookup id (without g p).challenges ≡ some q) × ((g.heap q).target ≡ t)
  unfolding points_to
  without-target_live t id h =
      let r = g.heap p in
      let law = lookup-delete_slot r.target t r.request_id g.target_slots in
      let old : lookup t g.target_slots ≡ some id = ground (arith, law) in
      let (q, found, e) = v.target_live t id old in
      (
        q,
        ground (
          arith,
          law,
          old,
          here,
          found,
          e,
          same_target_iff r.target t,
          lookup-delete r.request_id id g.challenges,
        ),
        e,
      )

  without-Inv : Inv (without g p)
  without-Inv = record {
    live = without-Live;
    actor_live = without-actor_live;
    target_live = without-target_live;
    bounded = omega (arith, v.bounded, length-delete (g.heap p).request_id p g.challenges here);
    sized = v.sized;
    frugal = v.frugal;
  }

  -- With the terminal result in its place.
  buried-Live :
      (s : TerminalResult) (id q : ℕ)
      → lookup id (without g p).challenges ≡ some q
      → Live
          (record (without g p) { tombstones = insert (g.heap p).request_id s g.tombstones })
          id
          q
  buried-Live s id q h =
      let l = without-Live id q h in
      record {
        allocated = l.allocated;
        keyed = l.keyed;
        actor_slot = l.actor_slot;
        target_slot = l.target_slot;
        apart =
            ground (
              arith,
              l.apart,
              remains id q h,
              lookup-insert (g.heap p).request_id id s g.tombstones,
            );
      }

  buried-Inv :
      (s : TerminalResult)
      → Inv (record (without g p) { tombstones = insert (g.heap p).request_id s g.tombstones })
  buried-Inv s = record {
    live = buried-Live s;
    actor_live = without-actor_live;
    target_live = without-target_live;
    bounded = omega (
      arith,
      v.bounded,
      length-delete (g.heap p).request_id p g.challenges here,
      length-insert (g.heap p).request_id s g.tombstones,
    );
    sized = v.sized;
    frugal = v.frugal;
  }

points_to_iff : (o : Option ℕ) (p : ℕ) → (points_to o p ≡ true) ↔ (o ≡ some p)
unfolding points_to
points_to_iff none p = ground arith
points_to_iff (some q) p = ground arith

-- Removing a record, or trying to remove one that the map no longer holds, keeps the registry well
-- formed.
pub remove_locked-Inv : (g : Registry) (p : ℕ) → Inv g → Inv (remove_locked g p).0
unfolding remove_locked
remove_locked-Inv g p v =
    elim (Bool-cases (points_to (lookup (g.heap p).request_id g.challenges) p)) [
      | inl e ↦ rw e (without-Inv g p v ((points_to_iff _ p).0 e))
      | inr e ↦ rw e v
    ]

pub remove_with_tombstone-Inv :
    (now : ℕ) (g : Registry) (p : ℕ) (account : Option AccountView) (aborted : Bool)
    → Inv g
    → Inv (remove_with_tombstone now g p account aborted)
unfolding remove_with_tombstone
remove_with_tombstone-Inv now g p account aborted v =
    elim (Bool-cases (points_to (lookup (g.heap p).request_id g.challenges) p)) [
      | inl e ↦ rw e (
          store-Inv _ p (wiped (g.heap p)) refl refl (buried-Inv g p v ((points_to_iff _ p).0 e) _)
            (v.frugal p))
      | inr e ↦ rw e v
    ]
