-- ===== src/Sessions.antt =====
-- operatorsessions/service.go: the login of an operator, and the bearer tokens of browser sessions.
-- Each operation calls a port at most once, so a port is a function of its arguments; all errors of a
-- login are the same. An identity is a number, and zero is uuid.Nil. SHA-256 and the keyed hash are
-- functions.
pub mod Login
pub mod Tokens
use cresora.Prelude.{
  ℕ, Bool, true, false, not, ◌&&◌, ◌||◌, Option, none, some, List, [], ◌∷◌, ◌++◌, ◌==◌, leb, ltb,
  if◌then◌else◌, length,
}
use cresora.Encoding.Text.{Bytes, bytes, same_bytes}
use cresora.Encoding.Base64.{url, encode, decode, encoded_len}
use cresora.Password.{min_password_length, max_password_bytes, is_empty}

pub record Credential : Type 0 where
  pub operator_id : ℕ
  pub username : Bytes
  pub password_hash : Bytes
  pub enabled : Bool

pub record StoredSession : Type 0 where
  pub id : ℕ
  pub operator_id : ℕ
  pub created_at : ℕ
  pub last_seen_at : ℕ
  pub idle_expires_at : ℕ
  pub absolute_expires_at : ℕ

-- `token` is empty but after a login.
pub record Session : Type 0 where
  pub stored : StoredSession
  pub token : Bytes

-- `slot_free` says that fewer than the eight verifications allowed are running; an error is `none`.
pub record Ports : Type 0 where
  pub find_credential : Bytes → Option Credential
  pub verify : Bytes → Bytes → Option Bool
  pub slot_free : Bool
  pub random : Option Bytes
  pub sha256 : Bytes → Bytes
  pub keyed_hash : Bytes → Bytes → Bytes
  pub create_session : ℕ → Bytes → Bytes → Bytes → Option StoredSession
  pub find_valid_session : Bytes → Option StoredSession
  pub revoke_session : Bytes → Option ℕ
  pub revoke_operator_sessions : ℕ → Option ℕ

-- The calls that are made, in order.
pub data Call : Type 0 where
  looked_up : Bytes → Call
  verified : Bytes → Bytes → Call
  created : ℕ → Bytes → Bytes → Bytes → Call
  searched revoked : Bytes → Call
  revoked_all : ℕ → Call

abbrev pub dummy_password : Bytes
dummy_password = bytes "cresora-invalid-login-dummy"

abbrev pub dummy_password_hash : Bytes
dummy_password_hash =
    bytes
      "$argon2id$v=19$m=65536,t=3,p=1$zoGxWL7tL2reGa8XjQF2DA$xnf4h+1sCPEWwN91YzLwwULY/1eukz/ky3Mj1lKJcyo"

abbrev pub is_valid_input : Bytes → Bool
is_valid_input plaintext =
    leb min_password_length (length plaintext) && leb (length plaintext) max_password_bytes

-- `EncodeToString` and `DecodeString` of a token of 32 bytes.
unfoldable pub decode_token : Bytes → Option Bytes
decode_token token =
    if not (length token == encoded_len 32) then none else elim (decode url token) [
      | none ↦ none
      | some raw ↦ if length raw == 32 then some raw else none
    ]

-- What the login has of the credential: its own, or none.
abbrev pub candidate_of : Bytes → Bytes
candidate_of plaintext = if is_valid_input plaintext then plaintext else dummy_password

abbrev pub hash_of : Credential → Bytes
hash_of c = if is_empty c.password_hash then dummy_password_hash else c.password_hash

-- A verification that failed, or did not match, is no success.
abbrev pub matched : Option Bool → Bool
matched none = false
matched (some b) = b

abbrev pub is_usable : Bytes → Bytes → Credential → Bool
is_usable username plaintext c =
    is_valid_input plaintext
    && c.enabled
    && not (c.operator_id == 0)
    && not (is_empty c.password_hash)
    && not (is_empty c.username)
    && same_bytes c.username username

module _ (ports : Ports) where
  -- A verification that finds no free slot is an error, with no call.
  unfoldable pub verify_password : Bytes → Bytes → List Call × Option Bool
  verify_password plaintext encoded =
      if ports.slot_free
      then (verified plaintext encoded ∷ [], ports.verify plaintext encoded)
      else ([], none)

  abbrev session_of : Credential → Bytes → Option StoredSession → Option Session
  session_of c raw none = none
  session_of c raw (some stored) =
      if stored.operator_id == c.operator_id
      then some (record { stored = stored; token = encode url raw })
      else none

  unfoldable pub create : Credential → Option Bytes → List Call × Option Session
  create c none = ([], none)
  create c (some raw) =
      let digest = ports.sha256 raw in
      (
        created c.operator_id c.username c.password_hash digest ∷ [],
        session_of c raw (ports.create_session c.operator_id c.username c.password_hash digest),
      )

  -- What follows the verification.
  unfoldable pub login_verified :
      Bytes → Bytes → Credential → Option Bool → List Call × Option Session
  unfolding create
  login_verified username plaintext c verdict =
      if matched verdict && is_usable username plaintext c
      then create c ports.random
      else ([], none)

  unfoldable pub login_found : Bytes → Bytes → Option Credential → List Call × Option Session
  unfolding verify_password login_verified
  login_found username plaintext none =
      let (calls, verdict) = verify_password dummy_password dummy_password_hash in (calls, none)
  login_found username plaintext (some c) =
      let (calls, verdict) = verify_password (candidate_of plaintext) (hash_of c) in
      let (more, session) = login_verified username plaintext c verdict in (calls ++ more, session)

  unfoldable pub login : Bytes → Bytes → List Call × Option Session
  unfolding login_found
  login username plaintext =
      let (calls, session) = login_found username plaintext (ports.find_credential username) in
      (looked_up username ∷ calls, session)

  abbrev valid_of : Option StoredSession → Option Session
  valid_of none = none
  valid_of (some stored) =
      if stored.operator_id == 0 then none else some (record { stored = stored; token = [] })

  unfoldable pub validate_raw : Option Bytes → List Call × Option Session
  validate_raw none = ([], none)
  validate_raw (some raw) =
      let digest = ports.sha256 raw in
      (searched digest ∷ [], valid_of (ports.find_valid_session digest))

  unfoldable pub validate : Bytes → List Call × Option Session
  unfolding decode_token validate_raw
  validate token = validate_raw (decode_token token)

  -- The error of `Revoke`, if any.
  unfoldable pub revoke_raw : Option Bytes → List Call × Option ℕ
  revoke_raw none = ([], none)
  revoke_raw (some raw) =
      let digest = ports.sha256 raw in (revoked digest ∷ [], ports.revoke_session digest)

  unfoldable pub revoke : Bytes → List Call × Option ℕ
  unfolding decode_token revoke_raw
  revoke token = revoke_raw (decode_token token)

  unfoldable pub revoke_operator : ℕ → List Call × Option ℕ
  revoke_operator operator_id =
      if operator_id == 0
      then ([], none)
      else (revoked_all operator_id ∷ [], ports.revoke_operator_sessions operator_id)

  abbrev digest_of : Option Bytes → Option Bytes
  digest_of none = none
  digest_of (some raw) = some (ports.sha256 raw)

  unfoldable pub token_hash : Bytes → Option Bytes
  unfolding decode_token
  token_hash token = digest_of (decode_token token)

  abbrev csrf_of : Bytes → Option Bytes → Option Bytes
  csrf_of token none = none
  csrf_of token (some raw) =
      some (encode url (ports.keyed_hash token (bytes "cresora/operator-session/csrf/v1")))

  unfoldable pub session_csrf_token : Bytes → Option Bytes
  unfolding decode_token
  session_csrf_token token = csrf_of token (decode_token token)
