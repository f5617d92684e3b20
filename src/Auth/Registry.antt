-- ===== src/Auth/Registry.antt =====
-- operatoraccountauth/challenge_registry.go: the challenges of this process, their slots and the
-- results kept after they end. Each method runs as one step, as its locks have it: `registry.mu` for
-- the maps and `record.mu` for one record. A pointer to a record is an address in `heap`.
pub mod Invariant
pub mod Removal
pub mod Admission
pub mod Resume
use cresora.Prelude.{
  ℕ, suc, ◌+◌, ◌≡◌, ◌<◌, Bool, true, false, not, ◌&&◌, ◌||◌, Option, none, some, List, [], ◌∷◌, ltb,
  leb, ◌==◌, Eq, nat_eq, if◌then◌else◌, length, arith, is_none, pos,
}
use cresora.Prelude.Maps.{Map, lookup, insert, delete}
use cresora.Account.{same_status, authenticating}
use cresora.Auth.Errors.{
  AuthError, invalid_input, provider_unavailable, authentication_aborted, runtime_challenge_expired,
  runtime_challenge_not_found, runtime_challenge_already_active, runtime_capacity, runtime_closed,
  Context, runtime_context_error,
}
use cresora.Auth.Phone.{trim_space}
use cresora.Auth.Challenge.{
  Text, is_blank, AuthTarget, same_target, target_eq, validate_target, no_stage, code_stage,
  AccountView, Challenge, ChallengeRecord, TerminalResult, SendCodeResult, projection,
}

pub record Registry : Type 0 where
  pub ttl : ℕ
  pub capacity : ℕ
  pub heap : ℕ → ChallengeRecord
  pub next_address : ℕ
  pub challenges : Map ℕ ℕ
  pub actor_slots : Map ℕ ℕ
  pub target_slots : Map AuthTarget ℕ
  pub tombstones : Map ℕ TerminalResult
  pub closed : Bool

abbrev pub max_live_challenges : ℕ
max_live_challenges = 4096

abbrev pub blank_target : AuthTarget
blank_target = record { actor = 0; account_id = 0; status = authenticating; version = 0 }

abbrev pub blank_record : ChallengeRecord
blank_record = record {
  request_id = 0;
  target = blank_target;
  phone = [];
  delivery = [];
  stage = no_stage;
  expires = 0;
  hash = [];
  ready = false;
  code_attempts = 0;
  password_attempts = 0;
  pending_profile = none;
}

unfoldable pub new_challenge_registry : ℕ → Registry
new_challenge_registry ttl = record {
  ttl = ttl;
  capacity = max_live_challenges;
  heap = λ _. blank_record;
  next_address = 0;
  challenges = [];
  actor_slots = [];
  target_slots = [];
  tombstones = [];
  closed = false;
}

-- A write through a pointer.
unfoldable pub store : Registry → ℕ → ChallengeRecord → Registry
store g p r = record g { heap = λ q. if q == p then r else g.heap q }

unfoldable pub close_admission : Registry → Registry
close_admission g = record g { closed = true }

unfoldable pub clear_tombstones : Registry → Registry
clear_tombstones g = record g { tombstones = [] }

unfoldable pub keep_unexpired : ℕ → Map ℕ TerminalResult → Map ℕ TerminalResult
keep_unexpired now [] = []
keep_unexpired now ((request_id, stone) ∷ stones) =
    let rest = keep_unexpired now stones in
    if ltb now stone.expires then (request_id, stone) ∷ rest else rest

-- `cleanupLocked`.
unfoldable pub cleanup : ℕ → Registry → Registry
cleanup now g = record g { tombstones = keep_unexpired now g.tombstones }

-- `nextRequestIDLocked` over the identities that `newRequest` draws; `none` if the list ends before
-- an identity is found, where the code draws on.
unfoldable pub next_request_id : Registry → List ℕ → Option ℕ
next_request_id g [] = none
next_request_id g (id ∷ drawn) =
    if not (id == 0) && is_none (lookup id g.challenges) && is_none (lookup id g.tombstones)
    then some id
    else next_request_id g drawn

-- `current`: the map still holds this very record, for this actor.
unfoldable pub points_to : Option ℕ → ℕ → Bool
points_to none p = false
points_to (some q) p = q == p

unfoldable pub current : Registry → ℕ → ℕ → ℕ → Bool
current g actor request_id p =
    points_to (lookup request_id g.challenges) p && (g.heap p).target.actor == actor

abbrev delete_slot : {K : Type 0} ⦃e : Eq K⦄ → K → ℕ → Map K ℕ → Map K ℕ
delete_slot k request_id m = if points_to (lookup k m) request_id then delete k m else m

-- `removeLocked`, with its Boolean answer.
unfoldable pub remove_locked : Registry → ℕ → Registry × Bool
remove_locked g p =
    let r = g.heap p in
    if points_to (lookup r.request_id g.challenges) p
    then (
      record g {
        challenges = delete r.request_id g.challenges;
        actor_slots = delete_slot r.target.actor r.request_id g.actor_slots;
        target_slots = delete_slot r.target r.request_id g.target_slots;
      },
      true,
    )
    else (g, false)

-- The caller owns the record and its secrets are wiped.
abbrev pub wiped : ChallengeRecord → ChallengeRecord
wiped r = record r { hash = []; ready = false; pending_profile = none }

unfoldable pub remove_with_tombstone : ℕ → Registry → ℕ → Option AccountView → Bool → Registry
unfolding store remove_locked
remove_with_tombstone now g p account aborted =
    let (h, removed) = remove_locked g p in
    let r = g.heap p in
    if removed
    then store
        (record h {
          tombstones =
              insert r.request_id
                (record {
                  actor_id = r.target.actor;
                  expires = now + g.ttl;
                  account_result = account;
                  aborted = aborted;
                })
                h.tombstones;
        })
        p (wiped r)
    else h

-- The outcome of `Prepare`: a record that exists already or is new, and its projection.
pub record Reservation : Type 0 where
  pub pointer : Option ℕ
  pub challenge : Option Challenge
  pub created : Bool

abbrev pub no_reservation : Reservation
no_reservation = record { pointer = none; challenge = none; created = false }

-- What a method leaves behind: the registry, a value (the zero value is `none`) and an error.
abbrev pub Outcome : Type 0 → Type 0
Outcome A = Registry × A × Option AuthError

-- The record that the target's slot names, if it is live.
unfoldable pub live_at : Registry → Option ℕ → Option ℕ
live_at g none = none
live_at g (some request_id) = lookup request_id g.challenges

unfoldable pub existing : Registry → ℕ → Reservation
existing g p = record {
  pointer = some p;
  challenge = some (projection (g.heap p));
  created = false;
}

unfoldable pub resume : ℕ → Registry → ℕ → ℕ → Outcome Reservation
unfolding store existing
resume now g p expires_at =
    let r = g.heap p in
    let g' =
      if ltb expires_at r.expires then store g p (record r { expires = expires_at }) else g in
    (
      g',
      existing g' p,
      if ltb now (g'.heap p).expires then none else some runtime_challenge_expired,
    )

unfoldable pub occupied : ℕ → Registry → ℕ → Outcome Reservation
unfolding existing
occupied now g p =
    if ltb now (g.heap p).expires
    then (g, no_reservation, some runtime_challenge_already_active)
    else (g, existing g p, some runtime_challenge_expired)

abbrev pub new_record : ℕ → AuthTarget → Text → ℕ → ChallengeRecord
new_record request_id target phone expires_at = record blank_record {
  request_id = request_id;
  target = target;
  phone = phone;
  stage = code_stage;
  expires = expires_at;
}

unfoldable pub register : Registry → AuthTarget → Text → ℕ → ℕ → Outcome Reservation
unfolding store existing
register g target phone expires_at request_id =
    let p = g.next_address in
    let h =
      store
        (record g {
          next_address = p + 1;
          challenges = insert request_id p g.challenges;
          actor_slots = insert target.actor request_id g.actor_slots;
          target_slots = insert target request_id g.target_slots;
        })
        p (new_record request_id target phone expires_at) in
    (h, record (existing h p) { created = true }, none)

-- No identity was drawn: the code would not have returned yet.
unfoldable pub register_drawn :
    Registry → AuthTarget → Text → ℕ → Option ℕ → Option (Outcome Reservation)
register_drawn g target phone expires_at none = none
register_drawn g target phone expires_at (some id) = some (register g target phone expires_at id)

unfoldable pub create : Registry → AuthTarget → Text → ℕ → List ℕ → Option (Outcome Reservation)
create g target phone expires_at drawn =
    if leb g.capacity (length g.challenges + length g.tombstones)
    then some (g, no_reservation, some runtime_capacity)
    else register_drawn g target phone expires_at (next_request_id g drawn)

unfoldable pub admit : ℕ → Registry → AuthTarget → Text → ℕ → List ℕ → Option (Outcome Reservation)
admit now g target phone expires_at drawn = elim (live_at g (lookup target g.target_slots)) [
  | some p ↦ some (resume now g p expires_at)
  | none ↦ elim (live_at g (lookup target.actor g.actor_slots)) [
    | some p ↦ some (occupied now g p)
    | none ↦ create g target phone expires_at drawn
  ]
]

-- The guard on the input of `Prepare`.
unfoldable pub bad_preparation : AuthTarget → Text → ℕ → Bool
bad_preparation target phone expires_at =
    not (is_none (validate_target target))
    || not (same_status target.status authenticating)
    || is_blank (trim_space phone)
    || expires_at == 0

-- `Prepare` reads the clock first for the cleanup, then for the expiry of what it found.
unfoldable pub prepare :
    Context → ℕ → ℕ → Registry → AuthTarget → Text → ℕ → List ℕ → Option (Outcome Reservation)
prepare ctx cleaned_at now g target phone expires_at drawn = elim (runtime_context_error ctx) [
  | some e ↦ some (g, no_reservation, some e)
  | none ↦
      if bad_preparation target phone expires_at
      then some (g, no_reservation, some invalid_input)
      else if g.closed
      then some (g, no_reservation, some runtime_closed)
      else admit now (cleanup cleaned_at g) target phone expires_at drawn
]
