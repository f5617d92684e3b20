-- ===== src/Auth/Methods.antt =====
-- operatoraccountauth/challenge_registry.go: the methods on a reservation or a request. Each clock
-- reading is an argument.
pub mod Keeps
use cresora.Prelude.{
  ℕ, Bool, true, false, not, ◌&&◌, ◌||◌, Option, none, some, List, [], ◌∷◌, ltb, ◌==◌, nat_eq,
  if◌then◌else◌, is_none,
}
use cresora.Prelude.Maps.{lookup}
use cresora.Auth.Errors.{
  AuthError, invalid_input, provider_unavailable, authentication_aborted, runtime_challenge_expired,
  runtime_challenge_not_found, runtime_closed, Context, runtime_context_error,
}
use cresora.Auth.Phone.{trim_space}
use cresora.Auth.Challenge.{
  Text, is_blank, AuthTarget, same_target, no_stage, AccountView, Challenge, ChallengeRecord,
  TerminalResult, SendCodeResult, projection,
}
use cresora.Auth.Registry.{
  Registry, Reservation, Outcome, store, current, points_to, remove_locked, cleanup, wiped,
}

-- The default of `record.delivery`, "Telegram code".
abbrev pub telegram_code : Text
telegram_code =
    b'T' ∷ b'e' ∷ b'l' ∷ b'e' ∷ b'g' ∷ b'r' ∷ b'a' ∷ b'm' ∷ b' ' ∷ b'c' ∷ b'o' ∷ b'd' ∷ b'e' ∷ []

unfoldable pub delivery_label : Text → Text
delivery_label text = if is_blank (trim_space text) then telegram_code else trim_space text

-- The expiry that a provider may bring forward, never put off.
unfoldable pub capped_expiry : ChallengeRecord → SendCodeResult → ℕ
capped_expiry r sent =
    if not (sent.expires_at == 0) && ltb sent.expires_at r.expires
    then sent.expires_at
    else r.expires

-- `commit` behind the test that the record is current. The clock is read before and after the
-- provider's expiry is stored.
unfoldable pub attach : ℕ → ℕ → Registry → ℕ → SendCodeResult → Outcome (Option Challenge)
attach before after g p sent =
    let r = g.heap p in
    let r' = record r { expires = capped_expiry r sent } in
    let g' = store g p r' in
    let r'' = record r' {
      hash = sent.phone_code_hash;
      delivery = delivery_label sent.delivery;
      ready = true;
    } in
    if r.ready
    then (g, some (projection r), none)
    else if is_blank sent.phone_code_hash
    then (g, none, some provider_unavailable)
    else if not (ltb before r.expires)
    then (g, some (projection r), some runtime_challenge_expired)
    else if not (ltb after r'.expires)
    then (g', some (projection r'), some runtime_challenge_expired)
    else (store g p r'', some (projection r''), none)

unfoldable pub commit_pointer :
    ℕ → ℕ → Registry → Option ℕ → SendCodeResult → Outcome (Option Challenge)
commit_pointer before after g none sent = (g, none, some runtime_challenge_not_found)
commit_pointer before after g (some p) sent =
    let r = g.heap p in
    if current g r.target.actor r.request_id p
    then attach before after g p sent
    else (g, none, some runtime_challenge_not_found)

unfoldable pub commit :
    Context → ℕ → ℕ → Registry → Reservation → SendCodeResult → Outcome (Option Challenge)
commit ctx before after g reservation sent = elim (runtime_context_error ctx) [
  | some e ↦ (g, none, some e)
  | none ↦
      if g.closed
      then (g, none, some runtime_closed)
      else commit_pointer before after g reservation.pointer sent
]

unfoldable pub rollback_pointer : Registry → Option ℕ → Registry × Option AuthError
rollback_pointer g none = (g, some runtime_challenge_not_found)
rollback_pointer g (some p) =
    if points_to (lookup (g.heap p).request_id g.challenges) p
    then ((remove_locked g p).0, none)
    else (g, some runtime_challenge_not_found)

-- `Rollback`: nothing to do for a challenge that existed before.
unfoldable pub rollback : Context → Registry → Reservation → Registry × Option AuthError
rollback ctx g reservation =
    if not reservation.created then (g, none) else elim (runtime_context_error ctx) [
      | some e ↦ (g, some e)
      | none ↦ rollback_pointer g reservation.pointer
    ]

unfoldable pub status_of : ℕ → Registry → ℕ → Option ℕ → Outcome (Option Challenge)
status_of now g actor none = (g, none, none)
status_of now g actor (some request_id) = elim (lookup request_id g.challenges) [
  | none ↦ (g, none, none)
  | some p ↦
      let answer = some (projection (g.heap p)) in
      if not (current g actor request_id p)
      then (g, none, none)
      else if ltb now (g.heap p).expires
      then (g, answer, none)
      else (g, answer, some runtime_challenge_expired)
]

-- `Status` of the registry.
unfoldable pub status : Context → ℕ → ℕ → Registry → ℕ → Outcome (Option Challenge)
status ctx cleaned_at now g actor = elim (runtime_context_error ctx) [
  | some e ↦ (g, none, some e)
  | none ↦
      if actor == 0
      then (g, none, some invalid_input)
      else if g.closed
      then (g, none, some runtime_closed)
      else (let h = cleanup cleaned_at g in status_of now h actor (lookup actor h.actor_slots))
]

-- The record of a request, if it belongs to the actor.
unfoldable pub owned : Registry → ℕ → ℕ → Option ℕ
owned g actor request_id = elim (lookup request_id g.challenges) [
  | none ↦ none
  | some p ↦ if (g.heap p).target.actor == actor then some p else none
]

unfoldable pub remove_pointer : Registry → Option ℕ → Registry × Option AuthError
unfolding store
remove_pointer g none = (g, some runtime_challenge_not_found)
remove_pointer g (some p) = let h = (remove_locked g p).0 in (store h p (wiped (h.heap p)), none)

-- `Remove`: between its two sections the record cannot leave the map, so `current` still holds.
unfoldable pub remove : Context → Registry → ℕ → ℕ → Registry × Option AuthError
remove ctx g actor request_id = elim (runtime_context_error ctx) [
  | some e ↦ (g, some e)
  | none ↦ remove_pointer g (owned g actor request_id)
]

-- What a shutdown leaves of a record: its identity and its target.
abbrev pub shut_down : ChallengeRecord → ChallengeRecord
shut_down r = record r {
  phone = [];
  delivery = [];
  stage = no_stage;
  expires = 0;
  hash = [];
  ready = false;
  code_attempts = 0;
  password_attempts = 0;
  pending_profile = none;
}

unfoldable pub clear_shutdown_state : Registry → Challenge → Registry
unfolding store
clear_shutdown_state g challenge = elim (lookup challenge.request_id g.challenges) [
  | none ↦ g
  | some p ↦
      if same_target (g.heap p).target challenge.target
        && current g challenge.target.actor challenge.request_id p
      then store g p (shut_down (g.heap p))
      else g
]
