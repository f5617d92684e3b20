-- ===== src/Examples/Sessions.antt =====
-- Browser sessions: internal/application/operatorsessions/service.go.
use cresora.Prelude.{◌≡◌, ◌↔◌, refl, true, false, none, some, [], ◌∷◌, arith, if◌then◌else◌}
use cresora.Prelude.Result.{ok}
use cresora.Encoding.Text.{Bytes, bytes, same_bytes, split, strip_prefix, contains}
use cresora.Encoding.Decimal.{parse_uint32}
use cresora.Encoding.Base64.{url, encode, decode, value_with, digit_with}
use cresora.Password.{
  parse_phc, parse_body, parse_parameters, decode_component, needs_rehash, validate_parameters,
  default_parameters,
}
use cresora.Sessions.{
  Ports, Credential, StoredSession, Session, searched, revoked, login, validate, revoke, token_hash,
  dummy_password_hash,
}
use cresora.Sessions.Login.{count_verified, count_verified-login, LogsIn, login_iff}
use cresora.Sessions.Tokens.{digests, FillsToken, validate-login}

abbrev row : StoredSession
row = record {
  id = 9;
  operator_id = 4;
  created_at = 100;
  last_seen_at = 100;
  idle_expires_at = 200;
  absolute_expires_at = 900;
}

abbrev raw_token : Bytes
raw_token =
    1 ∷ 2 ∷ 3 ∷ 4 ∷ 5 ∷ 6 ∷ 7 ∷ 8 ∷ 9 ∷ 10 ∷ 11 ∷ 12 ∷ 13 ∷ 14 ∷ 15 ∷ 16 ∷ 17 ∷ 18 ∷ 19 ∷ 20 ∷ 21
    ∷ 22 ∷ 23 ∷ 24 ∷ 25 ∷ 26 ∷ 27 ∷ 28 ∷ 29 ∷ 30 ∷ 31 ∷ 255 ∷ []

abbrev ada : Bytes
ada = bytes "ada"

abbrev secret : Bytes
secret = bytes "correct horse battery"

abbrev credential : Credential
credential = record {
  operator_id = 4;
  username = ada;
  password_hash = bytes "stored hash";
  enabled = true;
}

-- The credential of `ada` is found and matches `secret` only; the first bytes stand in for a digest.
abbrev ports : Ports
ports = record {
  find_credential = λ u. if same_bytes u ada then some credential else none;
  verify = λ p h. some (same_bytes p secret);
  slot_free = true;
  random = some raw_token;
  sha256 = λ raw. 0 ∷ raw;
  keyed_hash = λ k m. k;
  create_session = λ i u h d. some row;
  find_valid_session = λ d. some row;
  revoke_session = λ d. none;
  revoke_operator_sessions = λ i. none;
}

abbrev session : Session
session = record { stored = row; token = encode url raw_token }

logged_in : (login ports ada secret).1 ≡ some session
unfolding login same_bytes
logged_in = refl

raw_token-FillsToken : FillsToken ports.random
raw_token-FillsToken = omega arith

-- A wrong password is verified too.
wrong_password_test : (login ports ada (bytes "wrong horse battery")).1 ≡ none
unfolding login same_bytes
wrong_password_test = refl

-- The hash that stands in for a missing credential has the default parameters.
dummy_test : needs_rehash dummy_password_hash default_parameters ≡ ok false
unfolding needs_rehash validate_parameters parse_phc split same_bytes parse_body parse_parameters
    strip_prefix parse_uint32 decode_component contains decode value_with encode digit_with
dummy_test = refl

login_iff_example : ((login ports ada secret).1 ≡ some session) ↔ LogsIn ports ada secret session
login_iff_example = login_iff ports ada secret session

count_verified-login_example : count_verified (login ports (bytes "eve") secret).0 ≡ 1
count_verified-login_example = count_verified-login ports (bytes "eve") secret

validate-login_example :
    (d : Bytes) × (digests (login ports ada secret).0 ≡ d ∷ [])
    × ((validate ports session.token).0 ≡ searched d ∷ [])
    × ((revoke ports session.token).0 ≡ revoked d ∷ [])
    × (token_hash ports session.token ≡ some d)
validate-login_example = validate-login ports ada secret session logged_in raw_token-FillsToken
