-- ===== src/Password/Format.antt =====
-- password.go: each piece of the stored text, printed and parsed again.
use cresora.Prelude.{
  ℕ, ◌*◌, ◌<◌, ◌≤◌, ◌≡◌, refl, ap, ◌∙◌, true, false, ◌||◌, some, [], ◌∷◌, ◌++◌, ◌==◌, ltb, length,
  length-append, arith, All,
}
use cresora.Prelude.Result.{ok}
use cresora.Encoding.Text.{
  Bytes, IsByte, same_bytes, same_bytes_iff, join, split-join, strip_prefix-append, contains,
  contains-append,
}
use cresora.Encoding.Decimal.{
  format, parse_uint32, parse_uint32-format, max_uint32, leads, leads-format, contains-format,
  length-format,
}
use cresora.Encoding.Base64.{
  std, encode, decode, encoded_len, decoded_len, decode-encode, length-encode, contains-encode,
  std_no_value,
}
use cresora.Password.{
  Parameters, named, print_parameters, parse_digits, parse_parameter, check_parameters, parse_three,
  parse_parameters, is_empty, decode_component, check_component, max_memory_kib, max_iterations,
  max_parallelism,
}

nonempty_encode : (xs : Bytes) → 0 < length xs → 0 < length (encode std xs)
nonempty_encode xs h = omega (arith, length-encode std xs)

same_bytes_refl : (xs : Bytes) → same_bytes xs xs ≡ true
same_bytes_refl xs = (same_bytes_iff xs xs).1 refl

encoded_len_mono : (m n : ℕ) → m ≤ n → encoded_len m ≤ encoded_len n
encoded_len_mono m n h = omega arith

decoded_len-encoded_len : (n : ℕ) → decoded_len (encoded_len n) ≡ n
decoded_len-encoded_len n = omega arith

passes :
    (s : Bytes) (minimum maximum : ℕ)
    → (is_empty s || contains b'=' s) ≡ false
    → ltb (encoded_len maximum) (length s) ≡ false
    → (ltb (decoded_len (length s)) minimum || ltb maximum (decoded_len (length s))) ≡ false
    → decode_component s minimum maximum ≡ check_component minimum maximum s (decode std s)
unfolding decode_component
passes s minimum maximum e l d = rw (e, l, d)

checked :
    (xs : Bytes) (minimum maximum : ℕ)
    → minimum ≤ length xs
    → length xs ≤ maximum
    → check_component minimum maximum (encode std xs) (some xs) ≡ ok xs
unfolding check_component
checked xs minimum maximum lo hi = ground (arith, same_bytes_refl (encode std xs))

not_empty : (s : Bytes) → 0 < length s → is_empty s ≡ false
not_empty [] h = absurd (omega arith)
not_empty (c ∷ s) h = refl

not_ltb : (a b : ℕ) → b ≤ a → ltb a b ≡ false
not_ltb a b h = ground arith

within_bounds : (n lo hi : ℕ) → lo ≤ n → n ≤ hi → (ltb n lo || ltb hi n) ≡ false
within_bounds n lo hi h k = ground arith

pub decode_component-encode :
    (xs : Bytes) (minimum maximum : ℕ)
    → All IsByte xs
    → 0 < minimum
    → minimum ≤ length xs
    → length xs ≤ maximum
    → decode_component (encode std xs) minimum maximum ≡ ok xs
decode_component-encode xs minimum maximum b h lo hi =
    let n = length-encode std xs in
    passes (encode std xs) minimum maximum
      (rw (
        not_empty (encode std xs) (nonempty_encode xs (omega arith)),
        contains-encode std b'=' xs std_no_value.0 b,
      ))
      (rw n (not_ltb _ _ (encoded_len_mono (length xs) maximum hi)))
      (rw (n, decoded_len-encoded_len (length xs))
        (within_bounds (length xs) minimum maximum lo hi))
    ∙ rw (decode-encode std xs b) (checked xs minimum maximum lo hi)

parse_digits_lem : (s : Bytes) → leads s ≡ true → parse_digits s ≡ parse_uint32 s
unfolding parse_digits
parse_digits_lem [] h = cc
parse_digits_lem (c ∷ []) h = refl
parse_digits_lem (c ∷ d ∷ s) h = ground arith

parse_digits-format : (n : ℕ) → 0 < n → n ≤ max_uint32 → parse_digits (format n) ≡ some n
parse_digits-format n h b =
    parse_digits_lem (format n) (leads-format n h) ∙ parse_uint32-format n h b

pub parse_parameter-named :
    (name n maximum : ℕ)
    → 0 < n
    → n ≤ maximum
    → maximum ≤ max_uint32
    → parse_parameter (named name n) name maximum ≡ ok n
unfolding parse_parameter
parse_parameter-named name n maximum h b m =
    rw (strip_prefix-append (name ∷ b'=' ∷ []) (format n), parse_digits-format n h (omega arith))
      (ground arith)

-- What `Parameters.validate` asks of the three printed numbers.
pub record Printable (m t p : ℕ) : Type 0 where
  pub memory : (8 ≤ m) × (m ≤ max_memory_kib)
  pub iterations : (1 ≤ t) × (t ≤ max_iterations)
  pub parallelism : (1 ≤ p) × (p ≤ max_parallelism)
  pub lanes : 8 * p ≤ m

named_separated :
    (c name n : ℕ) → c < b'0' → (name == c) ≡ false → contains c (named name n) ≡ false
unfolding contains
named_separated c name n h k = ground (arith, contains-format c n h)

checked_parameters :
    (m t p : ℕ)
    → Printable m t p
    → check_parameters m t p
      ≡ ok (record {
        memory_kib = m;
        iterations = t;
        parallelism = p;
        salt_length = 8;
        key_length = 16;
      })
unfolding check_parameters
checked_parameters m t p v = ground arith

parse_three-named :
    (m t p : ℕ)
    → Printable m t p
    → parse_three (named b'm' m ∷ named b't' t ∷ named b'p' p ∷ []) ≡ check_parameters m t p
unfolding parse_three
parse_three-named m t p v = rw (
  parse_parameter-named b'm' m max_memory_kib (omega (arith, v.memory.0)) v.memory.1 (omega arith),
  parse_parameter-named b't' t max_iterations (omega (arith, v.iterations.0)) v.iterations.1
      (omega arith),
  parse_parameter-named b'p' p max_parallelism (omega (arith, v.parallelism.0)) v.parallelism.1
      (omega arith),
)

pub parse_parameters-print :
    (p : Parameters)
    → Printable p.memory_kib p.iterations p.parallelism
    → parse_parameters (print_parameters p) ≡ ok (record p { salt_length = 8; key_length = 16 })
unfolding parse_parameters print_parameters
parse_parameters-print p v =
    ap parse_three (
      split-join b',' (named b'm' p.memory_kib)
        (named b't' p.iterations ∷ named b'p' p.parallelism ∷ [])
        (
          named_separated b',' b'm' p.memory_kib (omega arith) refl,
          (
            named_separated b',' b't' p.iterations (omega arith) refl,
            (named_separated b',' b'p' p.parallelism (omega arith) refl, tt),
          ),
        ))
    ∙ parse_three-named p.memory_kib p.iterations p.parallelism v
    ∙ checked_parameters p.memory_kib p.iterations p.parallelism v

-- A printed list of parameters has no dollar sign, and at most 17 bytes.
join_three : (c : ℕ) (p q r : Bytes) → join c (p ∷ q ∷ r ∷ []) ≡ p ++ (c ∷ (q ++ (c ∷ r)))
unfolding join
join_three c p q r = refl

joined_separated :
    (c d : ℕ) (q r t : Bytes)
    → (d == c) ≡ false
    → contains c q ≡ false
    → contains c r ≡ false
    → contains c t ≡ false
    → contains c (q ++ (d ∷ (r ++ (d ∷ t)))) ≡ false
unfolding contains
joined_separated c d q r t e h k l =
    ground (arith, contains-append c q (d ∷ (r ++ (d ∷ t))), contains-append c r (d ∷ t))

pub print_parameters-separated : (p : Parameters) → contains b'$' (print_parameters p) ≡ false
unfolding print_parameters
print_parameters-separated p =
    ap (contains b'$') (join_three b',' _ _ _)
    ∙ joined_separated b'$' b',' _ _ _ refl
        (named_separated b'$' b'm' p.memory_kib (omega arith) refl)
        (named_separated b'$' b't' p.iterations (omega arith) refl)
        (named_separated b'$' b'p' p.parallelism (omega arith) refl)

pub length-print_parameters :
    (p : Parameters)
    → Printable p.memory_kib p.iterations p.parallelism
    → length (print_parameters p) ≤ 16
unfolding print_parameters
length-print_parameters p v =
    rw (join_three, length-append)
      (omega (
        arith,
        length-append (named b't' p.iterations) (b',' ∷ named b'p' p.parallelism),
        length-format 5 p.memory_kib (omega arith),
        length-format 0 p.iterations (omega arith),
        length-format 0 p.parallelism (omega arith),
      ))
