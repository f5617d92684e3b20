-- ===== src/Password/RoundTrip.antt =====
-- password.go: what was hashed is parsed back, verifies, and needs no new hash; and what the parser
-- accepts is exactly what is printed.
use cresora.Prelude.{
  ℕ, ◌%◌, ◌^◌, ◌<◌, ◌≤◌, ◌≡◌, refl, ap, subst, true, false, Option, none, some, List, [], ◌∷◌,
  length, arith, All,
}
use cresora.Prelude.Result.{ok, bind_succeeds}
use cresora.Encoding.Text.{
  Bytes, IsByte, bytes, same_bytes_iff, split, split-join, length-join, join_one, contains,
}
use cresora.Encoding.Decimal.{format}
use cresora.Encoding.Base64.{std, encode, length-encode, contains-encode, std_no_value}
use cresora.Password.{
  Parameters, ParsedHash, named, print_parameters, encode_phc, parse_body, parse_parts, parse_phc,
  validate_parameters, validate_password, needs_rehash, hash_salted, hash_with_reader, verify,
  KeyDerivation, RandomSource, argon2_version,
}
use cresora.Password.Format.{
  Printable, decode_component-encode, parse_parameters-print, print_parameters-separated,
  length-print_parameters,
}

-- The limits of `Parameters.validate`.
pub record IsWithin (p : Parameters) : Type 0 where
  pub printable : Printable p.memory_kib p.iterations p.parallelism
  pub salts : (8 ≤ p.salt_length) × (p.salt_length ≤ 64)
  pub keys : (16 ≤ p.key_length) × (p.key_length ≤ 64)

validate_parameters-IsWithin : (p : Parameters) → validate_parameters p ≡ ok tt → IsWithin p
unfolding validate_parameters
validate_parameters-IsWithin p h = ground arith

abbrev pub parsed_from : Parameters → Bytes → Bytes → ParsedHash
parsed_from p salt derived = record {
  version = argon2_version;
  memory_kib = p.memory_kib;
  iterations = p.iterations;
  parallelism = p.parallelism;
  salt = salt;
  hash = derived;
}

pub version_printed : named b'v' argon2_version ≡ bytes "v=19"
unfolding format
version_printed = refl

algorithm_separated : contains b'$' (bytes "argon2id") ≡ false
unfolding contains
algorithm_separated = refl

version_separated : contains b'$' (bytes "v=19") ≡ false
unfolding contains
version_separated = refl

accepted :
    (s : Bytes) (h : ParsedHash)
    → (0 < length s) × (length s ≤ 512)
    → parse_parts (split b'$' s) ≡ ok h
    → parse_phc s ≡ ok h
unfolding parse_phc
accepted [] r h k = absurd (omega arith)
accepted (c ∷ s) r h k = ground arith

module _ (p : Parameters) (w : IsWithin p) (salt derived : Bytes) (salt_bytes : All IsByte salt)
    (derived_bytes : All IsByte derived) (salted : length salt ≡ p.salt_length)
    (keyed : length derived ≡ p.key_length) where
  abbrev tail_parts : List Bytes
  tail_parts =
      bytes "argon2id"
      ∷ named b'v' argon2_version
      ∷ print_parameters p
      ∷ encode std salt
      ∷ encode std derived
      ∷ []

  split_phc : split b'$' (encode_phc p salt derived) ≡ [] ∷ tail_parts
  unfolding encode_phc
  split_phc = split-join b'$' [] tail_parts (
    unfold contains in refl,
    (
      algorithm_separated,
      (
        rw version_printed version_separated,
        (
          print_parameters-separated p,
          (
            contains-encode std b'$' salt std_no_value.1 salt_bytes,
            (contains-encode std b'$' derived std_no_value.1 derived_bytes, tt),
          ),
        ),
      ),
    ),
  )

  parse_body_printed :
      parse_body
        (named b'v' argon2_version)
        (print_parameters p)
        (encode std salt)
        (encode std derived)
      ≡ ok (parsed_from p salt derived)
  unfolding parse_body
  parse_body_printed =
      rw
        (
          parse_parameters-print p w.printable,
          decode_component-encode salt 8 64 salt_bytes (omega arith) (omega (arith, w.salts.0))
              (omega (arith, w.salts.1)),
          decode_component-encode derived 16 64 derived_bytes (omega arith)
              (omega (arith, w.keys.0)) (omega (arith, w.keys.1)),
        )
        (rw (version_printed, (same_bytes_iff (bytes "v=19") _).1 refl))

  parse_parts_printed : parse_parts ([] ∷ tail_parts) ≡ ok (parsed_from p salt derived)
  unfolding parse_parts
  parse_parts_printed =
      rw ((same_bytes_iff (bytes "argon2id") (bytes "argon2id")).1 refl) parse_body_printed

  encoded_bound : (xs : Bytes) → length xs ≤ 64 → length (encode std xs) ≤ 86
  encoded_bound xs h = omega (arith, length-encode std xs)

  length_printed :
      (0 < length (encode_phc p salt derived)) × (length (encode_phc p salt derived) ≤ 512)
  unfolding encode_phc
  length_printed =
      let version = named b'v' argon2_version in
      omega (
        arith,
        length-join b'$' [] (bytes "argon2id")
            (version ∷ print_parameters p ∷ encode std salt ∷ encode std derived ∷ []),
        length-join b'$' (bytes "argon2id") version
            (print_parameters p ∷ encode std salt ∷ encode std derived ∷ []),
        length-join b'$' version (print_parameters p) (encode std salt ∷ encode std derived ∷ []),
        length-join b'$' (print_parameters p) (encode std salt) (encode std derived ∷ []),
        length-join b'$' (encode std salt) (encode std derived) [],
        ap length (join_one b'$' (encode std derived)),
        ap length version_printed,
        length-print_parameters p w.printable,
        encoded_bound salt (omega (arith, w.salts.1)),
        encoded_bound derived (omega (arith, w.keys.1)),
      )

  pub parse_phc-encode_phc : parse_phc (encode_phc p salt derived) ≡ ok (parsed_from p salt derived)
  parse_phc-encode_phc =
      accepted (encode_phc p salt derived) _ length_printed (rw split_phc parse_parts_printed)

-- A key derivation answers with as many bytes as it is asked for.
abbrev pub Derives : KeyDerivation → Type 0
Derives id_key =
    (password salt : Bytes) (t m p n : ℕ)
    → (length (id_key password salt t m p n) ≡ n) × All IsByte (id_key password salt t m p n)

-- A read of the random source that succeeds gives as many bytes as were asked for.
abbrev pub Fills : RandomSource → Type 0
Fills random = (n : ℕ) (salt : Bytes) → random n ≡ some salt → (length salt ≡ n) × All IsByte salt

module _ (id_key : KeyDerivation) (random : RandomSource) (derives : Derives id_key)
    (fills : Fills random) (password encoded : Bytes) (p : Parameters)
    (hashed : hash_with_reader id_key password p random ≡ ok encoded) where
  abbrev derived_key : Bytes → Bytes
  derived_key salt = id_key password salt p.iterations p.memory_kib p.parallelism p.key_length

  salted_by :
      (o : Option Bytes)
      → random p.salt_length ≡ o
      → hash_salted id_key password p o ≡ ok encoded
      → (salt : Bytes) × (random p.salt_length ≡ some salt)
        × (encode_phc p salt
              (id_key password salt p.iterations p.memory_kib p.parallelism p.key_length)
            ≡ encoded)
  unfolding hash_salted
  salted_by none e h = cc
  salted_by (some salt) e h = (salt, e, ground arith)

  hashed_steps :
      (validate_password password ≡ ok tt)
      × (validate_parameters p ≡ ok tt)
      × ((salt : Bytes) × (random p.salt_length ≡ some salt)
          × (encode_phc p salt
                (id_key password salt p.iterations p.memory_kib p.parallelism p.key_length)
              ≡ encoded))
  unfolding hash_with_reader
  hashed_steps =
      let (u, v, rest) = bind_succeeds (validate_password password) _ encoded hashed in
      let (u', v', rest') = bind_succeeds (validate_parameters p) _ encoded rest in
      (v, v', salted_by (random p.salt_length) refl rest')

  hashed_parses :
      (salt : Bytes) × (parse_phc encoded
        ≡ ok (
            parsed_from p salt
              (id_key password salt p.iterations p.memory_kib p.parallelism p.key_length)))
      × (length salt ≡ p.salt_length)
  hashed_parses =
      let (v, v', (salt, e, same)) = hashed_steps in
      let w = validate_parameters-IsWithin p v' in
      let filled = fills p.salt_length salt e in
      let key = derives password salt p.iterations p.memory_kib p.parallelism p.key_length in
      (
        salt,
        subst (λ x. parse_phc x ≡ ok (parsed_from p salt (derived_key salt))) same
            (parse_phc-encode_phc p w salt _ filled.1 key.1 filled.0 key.0),
        filled.0,
      )

  -- A password that `hashWithReader` has hashed verifies against its hash, and the hash needs no
  -- renewal under the parameters that it was made with.
  pub verify-hash : (verify id_key password encoded ≡ ok true) × (needs_rehash encoded p ≡ ok false)
  unfolding verify needs_rehash
  verify-hash =
      let (v, v', _) = hashed_steps in
      let (salt, parses, salted) = hashed_parses in
      let key = derives password salt p.iterations p.memory_kib p.parallelism p.key_length in
      let w = validate_parameters-IsWithin p v' in
      let same : length (derived_key salt) % 2 ^ 32 ≡ p.key_length =
        omega (arith, key.0, w.keys.1) in
      (
        rw (v, parses, same) (ap ok ((same_bytes_iff (derived_key salt) _).1 refl)),
        rw (v', parses, same) (ground (arith, w.salts.1)),
      )
