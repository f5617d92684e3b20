-- ===== src/Examples/Passwords.antt =====
-- Stored passwords: internal/application/operatorcredentials/password/password.go.
use cresora.Prelude.{
  ℕ, zero, suc, ◌≡◌, refl, true, false, Option, some, [], ◌∷◌, length, All, arith, ◌<◌,
}
use cresora.Prelude.Result.{ok, err}
use cresora.Encoding.Text.{Bytes, IsByte, bytes, split, join, same_bytes, strip_prefix, contains}
use cresora.Encoding.Decimal.{format, parse_uint32}
use cresora.Encoding.Base64.{encode, decode, digit_with, value_with}
use cresora.Password.{
  ParsedHash, default_parameters, encode_phc, parse_phc, hash_with_reader, hash_salted, verify,
  needs_rehash, validate_password, validate_parameters, parse_body, parse_parameters,
  decode_component, unsupported_hash, malformed_hash,
}
use cresora.Password.RoundTrip.{Derives, Fills, verify-hash}
use cresora.Password.Canonical.{parameters_of, IsSafeHash, encode_phc-parse_phc}

-- As many zeros, or sevens, as are asked for stand in for the key derivation and the random source.
abbrev copies : ℕ → ℕ → Bytes
copies b zero = []
copies b (suc n) = b ∷ copies b n

copies_lem : (b n : ℕ) → b < 256 → (length (copies b n) ≡ n) × All IsByte (copies b n)
copies_lem b zero h = (refl, tt)
copies_lem b (suc n) h = (omega (arith, (copies_lem b n h).0), (h, (copies_lem b n h).1))

abbrev flat_key : Bytes → Bytes → ℕ → ℕ → ℕ → ℕ → Bytes
flat_key password salt t m p n = copies 0 n

flat_key-Derives : Derives flat_key
flat_key-Derives password salt t m p n = copies_lem 0 n (omega arith)

abbrev sevens : ℕ → Option Bytes
sevens n = some (copies 7 n)

sevens-Fills : Fills sevens
sevens-Fills n salt h = ground (arith, copies_lem 7 n (omega arith))

abbrev secret : Bytes
secret = bytes "correct horse battery"

abbrev stored : Bytes
stored =
    bytes
      "$argon2id$v=19$m=65536,t=3,p=1$BwcHBwcHBwcHBwcHBwcHBw$AAAAAAAAAAAAAAAAAAAAAAAAAAAAAAAAAAAAAAAAAAA"

hashed : hash_with_reader flat_key secret default_parameters sevens ≡ ok stored
unfolding hash_with_reader validate_password validate_parameters hash_salted join format encode
    digit_with
hashed = refl

verify-hash_example :
    (verify flat_key secret stored ≡ ok true) × (needs_rehash stored default_parameters ≡ ok false)
verify-hash_example =
    verify-hash flat_key sevens flat_key-Derives sevens-Fills secret stored default_parameters
      hashed

abbrev parsed : ParsedHash
parsed = record {
  version = 19;
  memory_kib = 65536;
  iterations = 3;
  parallelism = 1;
  salt = copies 7 16;
  hash = copies 0 32;
}

parse_test : parse_phc stored ≡ ok parsed
unfolding parse_phc split same_bytes parse_body parse_parameters strip_prefix parse_uint32
    decode_component contains decode value_with encode digit_with
parse_test = refl

encode_phc-parse_phc_example :
    (encode_phc (parameters_of parsed) parsed.salt parsed.hash ≡ stored) × IsSafeHash parsed
encode_phc-parse_phc_example = encode_phc-parse_phc stored parsed parse_test

-- A leading zero, another algorithm and more work than is allowed are refused.
leading_zero_test :
    parse_phc (bytes "$argon2id$v=19$m=065536,t=3,p=1$BwcHBwcHBwcHBwcHBwcHBw$AA")
    ≡ err malformed_hash
unfolding parse_phc split same_bytes parse_body parse_parameters strip_prefix parse_uint32
leading_zero_test = refl

other_algorithm_test :
    parse_phc (bytes "$argon2i$v=19$m=65536,t=3,p=1$AA$AA") ≡ err unsupported_hash
unfolding parse_phc split same_bytes parse_body parse_parameters strip_prefix parse_uint32
other_algorithm_test = refl

much_work_test : parse_phc (bytes "$argon2id$v=19$m=65536,t=7,p=1$AA$AA") ≡ err malformed_hash
unfolding parse_phc split same_bytes parse_body parse_parameters strip_prefix parse_uint32
much_work_test = refl
