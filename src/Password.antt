-- ===== src/Password.antt =====
-- operatorcredentials/password/password.go: hashing a password with Argon2id, the text that is stored,
-- its strict parser, and verification. The key derivation and the source of random bytes are arguments.
-- The clearing of secrets has no part in the results.
pub mod Format
pub mod RoundTrip
pub mod Canonical
use cresora.Prelude.{
  ℕ, suc, ◌+◌, ◌*◌, ◌%◌, ◌^◌, ◌≡◌, Bool, true, false, not, ◌&&◌, ◌||◌, Option, none, some, List, [],
  ◌∷◌, ◌++◌, ◌==◌, leb, ltb, if◌then◌else◌, length,
}
use cresora.Prelude.Result.{Result, ok, err, ◌>>=◌}
use cresora.Encoding.Text.{Bytes, bytes, same_bytes, split, join, strip_prefix, contains}
use cresora.Encoding.Decimal.{format, parse_uint32}
use cresora.Encoding.Base64.{std, encode, decode, encoded_len, decoded_len}

abbrev pub min_password_length : ℕ
min_password_length = 12

abbrev pub max_password_bytes : ℕ
max_password_bytes = 1024

abbrev pub argon2_version : ℕ
argon2_version = 19

abbrev pub min_memory_kib : ℕ
min_memory_kib = 8

abbrev pub max_memory_kib : ℕ
max_memory_kib = 128 * 1024

abbrev pub min_iterations : ℕ
min_iterations = 1

abbrev pub max_iterations : ℕ
max_iterations = 6

abbrev pub min_parallelism : ℕ
min_parallelism = 1

abbrev pub max_parallelism : ℕ
max_parallelism = 4

abbrev pub min_salt_length : ℕ
min_salt_length = 8

abbrev pub max_salt_length : ℕ
max_salt_length = 64

abbrev pub min_key_length : ℕ
min_key_length = 16

abbrev pub max_key_length : ℕ
max_key_length = 64

abbrev pub max_encoded_hash_size : ℕ
max_encoded_hash_size = 512

pub data PasswordError : Type 0 where
  password_policy malformed_hash unsupported_hash salt_generation : PasswordError

pub record Parameters : Type 0 where
  pub memory_kib : ℕ
  pub iterations : ℕ
  pub parallelism : ℕ
  pub salt_length : ℕ
  pub key_length : ℕ

abbrev pub default_parameters : Parameters
default_parameters = record {
  memory_kib = 64 * 1024;
  iterations = 3;
  parallelism = 1;
  salt_length = 16;
  key_length = 32;
}

pub record ParsedHash : Type 0 where
  pub version : ℕ
  pub memory_kib : ℕ
  pub iterations : ℕ
  pub parallelism : ℕ
  pub salt : Bytes
  pub hash : Bytes

unfoldable pub validate_password : Bytes → Result PasswordError (Unit {0})
validate_password plaintext =
    if ltb (length plaintext) min_password_length || ltb max_password_bytes (length plaintext)
    then err password_policy
    else ok tt

-- The product is computed in uint32.
unfoldable pub validate_parameters : Parameters → Result PasswordError (Unit {0})
validate_parameters p =
    if ltb p.memory_kib min_memory_kib
      || ltb max_memory_kib p.memory_kib
      || ltb p.iterations min_iterations
      || ltb max_iterations p.iterations
      || ltb p.parallelism min_parallelism
      || ltb max_parallelism p.parallelism
      || ltb p.salt_length min_salt_length
      || ltb max_salt_length p.salt_length
      || ltb p.key_length min_key_length
      || ltb max_key_length p.key_length
      || ltb p.memory_kib (8 * p.parallelism % 2 ^ 32)
    then err malformed_hash
    else ok tt

abbrev pub named : ℕ → ℕ → Bytes
named name n = name ∷ b'=' ∷ format n

unfoldable pub print_parameters : Parameters → Bytes
print_parameters p =
    join b',' (named b'm' p.memory_kib ∷ named b't' p.iterations ∷ named b'p' p.parallelism ∷ [])

unfoldable pub encode_phc : Parameters → Bytes → Bytes → Bytes
unfolding print_parameters
encode_phc p salt derived = join b'$' (
    []
    ∷ bytes "argon2id"
    ∷ named b'v' argon2_version
    ∷ print_parameters p
    ∷ encode std salt
    ∷ encode std derived
    ∷ [])

-- No leading zero, and no more digits than a uint32 has.
unfoldable pub parse_digits : Bytes → Option ℕ
parse_digits [] = none
parse_digits (c ∷ []) = parse_uint32 (c ∷ [])
parse_digits (c ∷ d ∷ s) = if c == b'0' then none else parse_uint32 (c ∷ d ∷ s)

abbrev pub at_most : ℕ → Option ℕ → Result PasswordError ℕ
at_most maximum none = err malformed_hash
at_most maximum (some v) = if ltb maximum v then err malformed_hash else ok v

abbrev pub digits_after : Option Bytes → Option ℕ
digits_after none = none
digits_after (some s) = parse_digits s

unfoldable pub parse_parameter : Bytes → ℕ → ℕ → Result PasswordError ℕ
unfolding parse_digits
parse_parameter s name maximum = at_most maximum (digits_after (strip_prefix (name ∷ b'=' ∷ []) s))

unfoldable pub check_parameters : ℕ → ℕ → ℕ → Result PasswordError Parameters
check_parameters memory iterations parallelism =
    if ltb memory min_memory_kib
      || ltb iterations min_iterations
      || ltb (parallelism % 256) min_parallelism
      || ltb memory (8 * (parallelism % 256) % 2 ^ 32)
    then err malformed_hash
    else ok (record {
      memory_kib = memory;
      iterations = iterations;
      parallelism = parallelism % 256;
      salt_length = min_salt_length;
      key_length = min_key_length;
    })

unfoldable pub parse_three : List Bytes → Result PasswordError Parameters
unfolding parse_parameter check_parameters
parse_three (m ∷ t ∷ p ∷ []) = do
  memory ← parse_parameter m b'm' max_memory_kib
  iterations ← parse_parameter t b't' max_iterations
  parallelism ← parse_parameter p b'p' max_parallelism
  check_parameters memory iterations parallelism
parse_three _ = err malformed_hash

unfoldable pub parse_parameters : Bytes → Result PasswordError Parameters
unfolding parse_three
parse_parameters s = parse_three (split b',' s)

-- The decoded text must be encoded to the same text again.
unfoldable pub check_component : ℕ → ℕ → Bytes → Option Bytes → Result PasswordError Bytes
check_component minimum maximum s none = err malformed_hash
check_component minimum maximum s (some d) =
    if ltb (length d) minimum || ltb maximum (length d) || not (same_bytes (encode std d) s)
    then err malformed_hash
    else ok d

abbrev pub is_empty : Bytes → Bool
is_empty [] = true
is_empty (c ∷ s) = false

unfoldable pub decode_component : Bytes → ℕ → ℕ → Result PasswordError Bytes
unfolding check_component
decode_component s minimum maximum =
    if is_empty s || contains b'=' s
    then err malformed_hash
    else if ltb (encoded_len maximum) (length s)
    then err malformed_hash
    else if ltb (decoded_len (length s)) minimum || ltb maximum (decoded_len (length s))
    then err malformed_hash
    else check_component minimum maximum s (decode std s)

unfoldable pub parse_fields : Bytes → Bytes → Bytes → Result PasswordError ParsedHash
parse_fields parameters salt derived = do
  p ← parse_parameters parameters
  s ← decode_component salt min_salt_length max_salt_length
  d ← decode_component derived min_key_length max_key_length
  ok (record {
    version = argon2_version;
    memory_kib = p.memory_kib;
    iterations = p.iterations;
    parallelism = p.parallelism;
    salt = s;
    hash = d;
  })

unfoldable pub parse_body : Bytes → Bytes → Bytes → Bytes → Result PasswordError ParsedHash
unfolding parse_fields
parse_body version parameters salt derived =
    if not (same_bytes version (bytes "v=19"))
    then err unsupported_hash
    else parse_fields parameters salt derived

-- Not six parts, or a first part that is not empty.
unfoldable pub refuse : List Bytes → Result PasswordError ParsedHash
refuse (p ∷ algorithm ∷ ps) =
    if not (same_bytes algorithm (bytes "argon2id"))
    then err unsupported_hash
    else err malformed_hash
refuse _ = err malformed_hash

unfoldable pub parse_parts : List Bytes → Result PasswordError ParsedHash
unfolding refuse
parse_parts (p ∷ algorithm ∷ version ∷ parameters ∷ salt ∷ derived ∷ []) =
    if not (is_empty p) || not (same_bytes algorithm (bytes "argon2id"))
    then refuse (p ∷ algorithm ∷ version ∷ parameters ∷ salt ∷ derived ∷ [])
    else parse_body version parameters salt derived
parse_parts ps = refuse ps

unfoldable pub parse_phc : Bytes → Result PasswordError ParsedHash
unfolding parse_parts
parse_phc encoded =
    if is_empty encoded || ltb max_encoded_hash_size (length encoded)
    then err malformed_hash
    else parse_parts (split b'$' encoded)

unfoldable pub needs_rehash : Bytes → Parameters → Result PasswordError Bool
needs_rehash encoded current = do
  _ ← validate_parameters current
  parsed ← parse_phc encoded
  ok (
      not (parsed.memory_kib == current.memory_kib)
      || not (parsed.iterations == current.iterations)
      || not (parsed.parallelism == current.parallelism)
      || not (length parsed.salt % 2 ^ 32 == current.salt_length)
      || not (length parsed.hash % 2 ^ 32 == current.key_length))

-- argon2.IDKey: password, salt, iterations, memory, lanes and the length of the key.
abbrev pub KeyDerivation : Type 0
KeyDerivation = Bytes → Bytes → ℕ → ℕ → ℕ → ℕ → Bytes

-- The random source, read in full for the number of bytes that is asked for, or an error.
abbrev pub RandomSource : Type 0
RandomSource = ℕ → Option Bytes

module _ (id_key : KeyDerivation) where
  unfoldable pub hash_salted : Bytes → Parameters → Option Bytes → Result PasswordError Bytes
  unfolding encode_phc
  hash_salted plaintext p none = err salt_generation
  hash_salted plaintext p (some salt) = ok (
      encode_phc p salt
        (id_key plaintext salt p.iterations p.memory_kib p.parallelism p.key_length))

  unfoldable pub hash_with_reader : Bytes → Parameters → RandomSource → Result PasswordError Bytes
  hash_with_reader plaintext p random = do
    _ ← validate_password plaintext
    _ ← validate_parameters p
    hash_salted plaintext p (random p.salt_length)

  unfoldable pub verify : Bytes → Bytes → Result PasswordError Bool
  verify plaintext encoded = do
    _ ← validate_password plaintext
    parsed ← parse_phc encoded
    let derived =
        id_key plaintext parsed.salt parsed.iterations parsed.memory_kib parsed.parallelism
          (length parsed.hash % 2 ^ 32)
    ok (same_bytes derived parsed.hash)
