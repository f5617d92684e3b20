-- ===== src/Auth/Registry/Admission.antt =====
-- `Prepare`: a challenge is created only where neither its target nor its actor has one.
use cresora.Prelude.{
  ℕ, ◌+◌, ◌<◌, ◌≡◌, ◌≢◌, refl, Option, none, some, List, [], ◌∷◌, arith, length, nat_eq, ltb, leb,
  if◌then◌else◌, ◌==◌, inl, inr, Bool-cases, Option-cases, OnSome, ◌⊎◌,
}
use cresora.Prelude.Maps.{lookup, insert, lookup-insert, length-insert}
use cresora.Auth.Errors.{Context, runtime_context_error}
use cresora.Auth.Challenge.{Text, AuthTarget, target_eq, same_target_iff}
use cresora.Auth.Registry.{
  Registry, Reservation, Outcome, next_request_id, cleanup, live_at, new_record, resume, occupied,
  register, register_drawn, create, admit, prepare,
}
use cresora.Auth.Registry.Invariant.{Live, Inv, store-Inv, cleanup-Inv}

-- The registry with a new challenge under the identity `id`.
abbrev enrolled : Registry → AuthTarget → Text → ℕ → ℕ → Registry
enrolled g t phone expires id = record g {
  heap = λ q. if q == g.next_address then new_record id t phone expires else g.heap q;
  next_address = g.next_address + 1;
  challenges = insert id g.next_address g.challenges;
  actor_slots = insert t.actor id g.actor_slots;
  target_slots = insert t id g.target_slots;
}

module _ (g : Registry) (t : AuthTarget) (phone : Text) (expires id : ℕ) (v : Inv g)
    (new_id : lookup id g.challenges ≡ none) (unused : lookup id g.tombstones ≡ none)
    (free_actor : lookup t.actor g.actor_slots ≡ none)
    (free_target : lookup t g.target_slots ≡ none)
    (room : length g.challenges + length g.tombstones < g.capacity) where
  abbrev after : Registry
  after = enrolled g t phone expires id

  -- A challenge of the new registry is the new one or one of the old.
  split :
      (j q : ℕ)
      → lookup j after.challenges ≡ some q
      → ((id ≡ j) × (q ≡ g.next_address)) ⊎ (lookup j g.challenges ≡ some q)
  split j q h = ground (arith, lookup-insert id j g.next_address g.challenges)

  old-Live : (j q : ℕ) → lookup j g.challenges ≡ some q → Live after j q
  old-Live j q h =
      let l = v.live j q h in
      record {
        allocated = omega (arith, l.allocated);
        keyed = ground (arith, l.allocated, l.keyed);
        actor_slot = ground (
          arith,
          l.allocated,
          l.actor_slot,
          free_actor,
          lookup-insert t.actor (g.heap q).target.actor id g.actor_slots,
        );
        target_slot = ground (
          arith,
          l.allocated,
          l.target_slot,
          free_target,
          same_target_iff t (g.heap q).target,
          lookup-insert t (g.heap q).target id g.target_slots,
        );
        apart = l.apart;
      }

  new-Live : Live after id g.next_address
  new-Live = record {
    allocated = omega arith;
    keyed = ground arith;
    actor_slot = ground (arith, lookup-insert t.actor t.actor id g.actor_slots);
    target_slot = ground (arith, same_target_iff t t, lookup-insert t t id g.target_slots);
    apart = unused;
  }

  -- Any old challenge is found as before.
  kept :
      (j q : ℕ)
      → lookup j g.challenges ≡ some q
      → (lookup j after.challenges ≡ some q) × (after.heap q ≡ g.heap q)
  kept j q h =
      let l = v.live j q h in
      ground (arith, new_id, l.allocated, lookup-insert id j g.next_address g.challenges)

  found_new :
      (lookup id after.challenges ≡ some g.next_address)
      × (after.heap g.next_address ≡ new_record id t phone expires)
  found_new = ground (arith, lookup-insert id id g.next_address g.challenges)

  after-actor_live :
      (a j : ℕ)
      → lookup a after.actor_slots ≡ some j
      → (q : ℕ) × (lookup j after.challenges ≡ some q) × ((after.heap q).target.actor ≡ a)
  after-actor_live a j h = elim (pick) [
    | inl (e, e') ↦ (g.next_address, rw (← e') found_new.0, rw (found_new.1) e)
    | inr old ↦
        let (q, found, e) = v.actor_live a j old in
        (q, (kept j q found).0, rw ((kept j q found).1) e)
  ]
    where
      pick : ((t.actor ≡ a) × (id ≡ j)) ⊎ (lookup a g.actor_slots ≡ some j)
      pick = ground (arith, lookup-insert t.actor a id g.actor_slots)

  after-target_live :
      (s : AuthTarget) (j : ℕ)
      → lookup s after.target_slots ≡ some j
      → (q : ℕ) × (lookup j after.challenges ≡ some q) × ((after.heap q).target ≡ s)
  after-target_live s j h = elim (pick) [
    | inl (e, e') ↦ (g.next_address, rw (← e') found_new.0, rw (found_new.1) e)
    | inr old ↦
        let (q, found, e) = v.target_live s j old in
        (q, (kept j q found).0, rw ((kept j q found).1) e)
  ]
    where
      pick : ((t ≡ s) × (id ≡ j)) ⊎ (lookup s g.target_slots ≡ some j)
      pick = ground (arith, same_target_iff t s, lookup-insert t s id g.target_slots)

  after-Live : (j q : ℕ) → lookup j after.challenges ≡ some q → Live after j q
  after-Live j q h = elim (split j q h) [
    | inl (e, e') ↦ rw (e', ← e) new-Live
    | inr old ↦ old-Live j q old
  ]

  enrolled-Inv : Inv after
  enrolled-Inv = record {
    live = after-Live;
    actor_live = after-actor_live;
    target_live = after-target_live;
    bounded = omega (arith, room, length-insert id g.next_address g.challenges);
    sized = v.sized;
    frugal = λ p. ground (arith, v.frugal p);
  }

-- An identity that was drawn is not nil and names no challenge and no terminal result.
pub next_request_id-is_new :
    (g : Registry) (drawn : List ℕ)
    → OnSome
        (λ id. (id ≢ 0) × (lookup id g.challenges ≡ none) × (lookup id g.tombstones ≡ none))
        (next_request_id g drawn)
unfolding next_request_id
next_request_id-is_new g [] = tt
next_request_id-is_new g (id ∷ drawn) = ground (
  arith,
  next_request_id-is_new g drawn,
  Option-cases (lookup id g.challenges),
  Option-cases (lookup id g.tombstones),
)

resume-Inv : (now : ℕ) (g : Registry) (p e : ℕ) → Inv g → Inv (resume now g p e).0
unfolding resume
resume-Inv now g p e v = elim (Bool-cases (ltb e (g.heap p).expires)) [
  | inl h ↦ rw h (store-Inv g p (record (g.heap p) { expires = e }) refl refl v (v.frugal p))
  | inr h ↦ rw h v
]

occupied-Inv : (now : ℕ) (g : Registry) (p : ℕ) → Inv g → Inv (occupied now g p).0
unfolding occupied
occupied-Inv now g p v = ground arith

-- No live challenge behind a slot means that the slot is empty.
free_actor :
    (g : Registry) (a : ℕ)
    → Inv g
    → live_at g (lookup a g.actor_slots) ≡ none
    → lookup a g.actor_slots ≡ none
unfolding live_at
free_actor g a v h = elim (Option-cases (lookup a g.actor_slots)) [
  | inl e ↦ e
  | inr (id, e) ↦ let (p, found, _) = v.actor_live a id e in cc (rw e at h)
]

free_target :
    (g : Registry) (t : AuthTarget)
    → Inv g
    → live_at g (lookup t g.target_slots) ≡ none
    → lookup t g.target_slots ≡ none
unfolding live_at
free_target g t v h = elim (Option-cases (lookup t g.target_slots)) [
  | inl e ↦ e
  | inr (id, e) ↦ let (p, found, _) = v.target_live t id e in cc (rw e at h)
]

abbrev Keeps : Option (Outcome Reservation) → Type 0
Keeps = OnSome (λ o. Inv o.0)

register_drawn-Inv :
    (g : Registry) (t : AuthTarget) (phone : Text) (e : ℕ) (o : Option ℕ)
    → Inv g
    → lookup t.actor g.actor_slots ≡ none
    → lookup t g.target_slots ≡ none
    → length g.challenges + length g.tombstones < g.capacity
    → OnSome (λ id. (id ≢ 0) × (lookup id g.challenges ≡ none) × (lookup id g.tombstones ≡ none)) o
    → Keeps (register_drawn g t phone e o)
unfolding register_drawn register
register_drawn-Inv g t phone e none v fa ft room d = tt
register_drawn-Inv g t phone e (some id) v fa ft room d =
    enrolled-Inv g t phone e id v d.1 d.2 fa ft room

create-Inv :
    (g : Registry) (t : AuthTarget) (phone : Text) (e : ℕ) (drawn : List ℕ)
    → Inv g
    → lookup t.actor g.actor_slots ≡ none
    → lookup t g.target_slots ≡ none
    → Keeps (create g t phone e drawn)
unfolding create
create-Inv g t phone e drawn v fa ft =
    elim (Bool-cases (leb g.capacity (length g.challenges + length g.tombstones))) [
      | inl full ↦ rw full v
      | inr room ↦ rw room (
          register_drawn-Inv g t phone e (next_request_id g drawn) v fa ft (ground arith)
            (next_request_id-is_new g drawn))
    ]

admit-Inv :
    (now : ℕ) (g : Registry) (t : AuthTarget) (phone : Text) (e : ℕ) (drawn : List ℕ)
    → Inv g
    → Keeps (admit now g t phone e drawn)
unfolding admit
admit-Inv now g t phone e drawn v = elim (Option-cases (live_at g (lookup t g.target_slots))) [
  | inr (p, there) ↦ rw (there, admit) (resume-Inv now g p e v)
  | inl ft ↦ elim (Option-cases (live_at g (lookup t.actor g.actor_slots))) [
    | inr (p, there) ↦ rw (ft, there, admit) (occupied-Inv now g p v)
    | inl fa ↦
        rw (ft, fa, admit)
          (create-Inv g t phone e drawn v (free_actor g t.actor v fa) (free_target g t v ft))
  ]
]

-- `Prepare` keeps the registry well formed, whatever it answers.
pub prepare-Inv :
    (ctx : Context) (cleaned_at now : ℕ) (g : Registry) (t : AuthTarget) (phone : Text) (e : ℕ)
    (drawn : List ℕ)
    → Inv g
    → Keeps (prepare ctx cleaned_at now g t phone e drawn)
unfolding prepare
prepare-Inv ctx cleaned_at now g t phone e drawn v =
    elim (Option-cases (runtime_context_error ctx)) [
      | inr (x, bad) ↦ rw (bad, prepare) v
      | inl fine ↦
          rw (fine, prepare)
            (ground (
              arith,
              v,
              admit-Inv now (cleanup cleaned_at g) t phone e drawn (cleanup-Inv cleaned_at g v),
            ))
    ]
