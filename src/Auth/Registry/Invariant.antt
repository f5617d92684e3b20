-- ===== src/Auth/Registry/Invariant.antt =====
-- The well-formedness of the challenge registry, and the writes that leave the maps alone.
use cresora.Prelude.{
  ℕ, ◌+◌, ◌≤◌, ◌<◌, ◌≡◌, refl, ap, ◌∙◌, none, some, [], ◌∷◌, arith, length, nat_eq, if◌then◌else◌,
  ◌==◌,
}
use cresora.Prelude.Maps.{Map, lookup}
use cresora.Auth.Challenge.{
  max_code_attempts, max_password_attempts, AuthTarget, target_eq, ChallengeRecord, TerminalResult,
}
use cresora.Auth.Registry.{
  Registry, store, keep_unexpired, cleanup, close_admission, clear_tombstones,
  new_challenge_registry, max_live_challenges,
}

-- A live challenge: its record knows its identity, its actor and its target name it, and no
-- terminal result has its identity.
pub record Live (g : Registry) (id p : ℕ) : Type 0 where
  pub allocated : p < g.next_address
  pub keyed : (g.heap p).request_id ≡ id
  pub actor_slot : lookup (g.heap p).target.actor g.actor_slots ≡ some id
  pub target_slot : lookup (g.heap p).target g.target_slots ≡ some id
  pub apart : lookup id g.tombstones ≡ none

-- No more attempts were made on a record than are allowed.
abbrev pub Frugal : ChallengeRecord → Type 0
Frugal r = (r.code_attempts ≤ max_code_attempts) × (r.password_attempts ≤ max_password_attempts)

-- Every challenge is live, every slot names a challenge of its own actor or target, and the
-- challenges and terminal results together respect the capacity, which is the fixed one; no record
-- has more attempts than are allowed.
pub record Inv (g : Registry) : Type 0 where
  pub live : (id p : ℕ) → lookup id g.challenges ≡ some p → Live g id p
  pub actor_live :
      (a id : ℕ)
      → lookup a g.actor_slots ≡ some id
      → (p : ℕ) × (lookup id g.challenges ≡ some p) × ((g.heap p).target.actor ≡ a)
  pub target_live :
      (t : AuthTarget) (id : ℕ)
      → lookup t g.target_slots ≡ some id
      → (p : ℕ) × (lookup id g.challenges ≡ some p) × ((g.heap p).target ≡ t)
  pub bounded : length g.challenges + length g.tombstones ≤ g.capacity
  pub sized : g.capacity ≡ max_live_challenges
  pub frugal : (p : ℕ) → Frugal (g.heap p)

-- The records keep their identities and their targets.
abbrev pub SameRecords : (ℕ → ChallengeRecord) → (ℕ → ChallengeRecord) → Type 0
SameRecords f g = (q : ℕ) → ((g q).request_id ≡ (f q).request_id) × ((g q).target ≡ (f q).target)

pub heap-Inv :
    (g : Registry) (f : ℕ → ChallengeRecord)
    → SameRecords g.heap f
    → Inv g
    → ((p : ℕ) → Frugal (f p))
    → Inv (record g { heap = f })
heap-Inv g f same v thrift = record {
  live = λ id p h.
      let l = v.live id p h in
      record {
        allocated = l.allocated;
        keyed = (same p).0 ∙ l.keyed;
        actor_slot = rw ((same p).1) l.actor_slot;
        target_slot = rw ((same p).1) l.target_slot;
        apart = l.apart;
      };
  actor_live = λ a id h.
      let (p, found, e) = v.actor_live a id h in
      (p, found, ap (λ (t : AuthTarget). t.actor) (same p).1 ∙ e);
  target_live = λ t id h. let (p, found, e) = v.target_live t id h in (p, found, (same p).1 ∙ e);
  bounded = v.bounded;
  sized = v.sized;
  frugal = thrift;
}

-- A write to one record that keeps its identity, its target and the bound on its attempts keeps the
-- registry well formed.
pub store-Inv :
    (g : Registry) (p : ℕ) (r : ChallengeRecord)
    → r.request_id ≡ (g.heap p).request_id
    → r.target ≡ (g.heap p).target
    → Inv g
    → Frugal r
    → Inv (store g p r)
unfolding store
store-Inv g p r e t v thrift = heap-Inv g _ same v fine
  where
    fine : (q : ℕ) → Frugal (if q == p then r else g.heap q)
    fine q = ground (arith, thrift, v.frugal q)

    same : SameRecords g.heap (λ q. if q == p then r else g.heap q)
    same q = ground arith

lookup-keep_unexpired :
    (now id : ℕ) (m : Map ℕ TerminalResult)
    → lookup id m ≡ none
    → lookup id (keep_unexpired now m) ≡ none
unfolding lookup keep_unexpired
lookup-keep_unexpired now id [] h = refl
lookup-keep_unexpired now id ((j, s) ∷ m) h = ground (arith, lookup-keep_unexpired now id m)

length-keep_unexpired :
    (now : ℕ) (m : Map ℕ TerminalResult) → length (keep_unexpired now m) ≤ length m
unfolding keep_unexpired
length-keep_unexpired now [] = omega arith
length-keep_unexpired now ((j, s) ∷ m) = ground (arith, length-keep_unexpired now m)

-- Fewer terminal results, the rest unchanged.
tombstones-Inv :
    (g : Registry) (m : Map ℕ TerminalResult)
    → ((id : ℕ) → lookup id g.tombstones ≡ none → lookup id m ≡ none)
    → length m ≤ length g.tombstones
    → Inv g
    → Inv (record g { tombstones = m })
tombstones-Inv g m fewer shorter v = record {
  live = λ id p h.
      let l = v.live id p h in
      record {
        allocated = l.allocated;
        keyed = l.keyed;
        actor_slot = l.actor_slot;
        target_slot = l.target_slot;
        apart = fewer id l.apart;
      };
  actor_live = v.actor_live;
  target_live = v.target_live;
  bounded = omega (arith, shorter, v.bounded);
  sized = v.sized;
  frugal = v.frugal;
}

pub cleanup-Inv : (now : ℕ) (g : Registry) → Inv g → Inv (cleanup now g)
unfolding cleanup
cleanup-Inv now g v =
    tombstones-Inv g (keep_unexpired now g.tombstones)
      (λ id. lookup-keep_unexpired now id g.tombstones) (length-keep_unexpired now g.tombstones) v

pub clear_tombstones-Inv : (g : Registry) → Inv g → Inv (clear_tombstones g)
unfolding clear_tombstones lookup
clear_tombstones-Inv g v = tombstones-Inv g [] (λ id h. refl) (omega arith) v

pub close_admission-Inv : (g : Registry) → Inv g → Inv (close_admission g)
unfolding close_admission
close_admission-Inv g v = record {
  live = λ id p h.
      let l = v.live id p h in
      record {
        allocated = l.allocated;
        keyed = l.keyed;
        actor_slot = l.actor_slot;
        target_slot = l.target_slot;
        apart = l.apart;
      };
  actor_live = v.actor_live;
  target_live = v.target_live;
  bounded = v.bounded;
  sized = v.sized;
  frugal = v.frugal;
}

pub new_challenge_registry-Inv : (ttl : ℕ) → Inv (new_challenge_registry ttl)
unfolding new_challenge_registry lookup
new_challenge_registry-Inv ttl = record {
  live = λ id p h. cc;
  actor_live = λ a id h. cc;
  target_live = λ t id h. cc;
  bounded = omega arith;
  sized = refl;
  frugal = λ p. omega arith;
}
