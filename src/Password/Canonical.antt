-- ===== src/Password/Canonical.antt =====
-- password.go: a stored text that the parser accepts is the one that is printed for what was parsed.
use cresora.Prelude.{
  ℕ, ◌*◌, ◌<◌, ◌≤◌, ◌≡◌, ◌≢◌, refl, sym, ap, subst, ◌∙◌, true, false, Option, none, some, List, [],
  ◌∷◌, ◌==◌, length, arith, Bool-cases, inl, inr,
}
use cresora.Prelude.Result.{ok, bind_succeeds}
use cresora.Encoding.Text.{
  Bytes, bytes, same_bytes_iff, split, join, join-split, strip_prefix, strip_prefix-some,
}
use cresora.Encoding.Decimal.{format, scan, parse_uint32, format-scan, scan_step}
use cresora.Encoding.Base64.{std, encode, decode}
use cresora.Password.{
  Parameters, ParsedHash, named, print_parameters, encode_phc, parse_digits, parse_parameter,
  check_parameters, parse_three, parse_parameters, check_component, decode_component, parse_fields,
  parse_body, max_memory_kib, max_iterations, max_parallelism, refuse, parse_parts, parse_phc,
  argon2_version, is_empty, digits_after, at_most,
}
use cresora.Password.Format.{Printable}
use cresora.Password.RoundTrip.{parsed_from, version_printed}

leading :
    (c v : ℕ) (s : Bytes) → parse_uint32 (c ∷ s) ≡ some v → (c == b'0') ≡ false → format v ≡ c ∷ s
unfolding parse_uint32
leading c v s h k =
    format-scan c v s (ground (arith, (scan_step c s 0 {n = v} h).0)) (unfold parse_uint32 in h)

single : (c v : ℕ) → parse_uint32 (c ∷ []) ≡ some v → 0 < v → (c == b'0') ≡ false
unfolding parse_uint32 scan
single c v h k = ground arith

format-parse_digits : (s : Bytes) (v : ℕ) → parse_digits s ≡ some v → 0 < v → format v ≡ s
unfolding parse_digits
format-parse_digits [] v h k = cc
format-parse_digits (c ∷ []) v h k = leading c v [] h (single c v h k)
format-parse_digits (c ∷ d ∷ s) v h k = elim (Bool-cases (c == b'0')) [
  | inl y ↦ cc (rw y at h)
  | inr n ↦ leading c v (d ∷ s) (rw n at h) n
]

at_most_ok :
    (maximum v : ℕ) (o : Option ℕ) → at_most maximum o ≡ ok v → (o ≡ some v) × (v ≤ maximum)
at_most_ok maximum v none h = cc
at_most_ok maximum v (some w) h = ground arith

after_prefix :
    (s : Bytes) (name maximum v : ℕ) (rest : Option Bytes)
    → strip_prefix (name ∷ b'=' ∷ []) s ≡ rest
    → at_most maximum (digits_after rest) ≡ ok v
    → 0 < v
    → (named name v ≡ s) × (v ≤ maximum)
after_prefix s name maximum v none e h k = cc
after_prefix s name maximum v (some ds) e h k =
    let (parsed, bounded) = at_most_ok maximum v (parse_digits ds) h in
    (
      ap (λ x. name ∷ b'=' ∷ x) (format-parse_digits ds v parsed k)
          ∙ sym (strip_prefix-some (name ∷ b'=' ∷ []) s ds e),
      bounded,
    )

named-parse_parameter :
    (s : Bytes) (name maximum v : ℕ)
    → parse_parameter s name maximum ≡ ok v
    → 0 < v
    → (named name v ≡ s) × (v ≤ maximum)
unfolding parse_parameter
named-parse_parameter s name maximum v h k = after_prefix s name maximum v _ refl h k

check_component_ok :
    (minimum maximum : ℕ) (s d : Bytes) (o : Option Bytes)
    → check_component minimum maximum s o ≡ ok d
    → (encode std d ≡ s) × (minimum ≤ length d) × (length d ≤ maximum)
unfolding check_component
check_component_ok minimum maximum s d none h = cc
check_component_ok minimum maximum s d (some e) h = ground (arith, same_bytes_iff (encode std e) s)

decode_component_ok :
    (s d : Bytes) (minimum maximum : ℕ)
    → decode_component s minimum maximum ≡ ok d
    → (encode std d ≡ s) × (minimum ≤ length d) × (length d ≤ maximum)
unfolding decode_component
decode_component_ok s d minimum maximum h =
    ground (arith, check_component_ok minimum maximum s d (decode std s))

-- The numbers that the parser has let through.
check_parameters_ok :
    (m t p : ℕ) (r : Parameters)
    → p ≤ 4
    → check_parameters m t p ≡ ok r
    → (r.memory_kib ≡ m)
      × (r.iterations ≡ t)
      × (r.parallelism ≡ p)
      × (8 ≤ m)
      × (1 ≤ t)
      × (1 ≤ p)
      × (8 * p ≤ m)
unfolding check_parameters
check_parameters_ok m t p r h k = ground arith

parse_parameter_bound :
    (s : Bytes) (name maximum v : ℕ) → parse_parameter s name maximum ≡ ok v → v ≤ maximum
unfolding parse_parameter
parse_parameter_bound s name maximum v h =
    (at_most_ok maximum v (digits_after (strip_prefix (name ∷ b'=' ∷ []) s)) h).1

three_printed :
    (a b c : Bytes) (m t p : ℕ) (r : Parameters)
    → parse_parameter a b'm' max_memory_kib ≡ ok m
    → parse_parameter b b't' max_iterations ≡ ok t
    → parse_parameter c b'p' max_parallelism ≡ ok p
    → check_parameters m t p ≡ ok r
    → (join b',' (a ∷ b ∷ c ∷ []) ≡ print_parameters r)
      × Printable r.memory_kib r.iterations r.parallelism
unfolding print_parameters
three_printed a b c m t p r em et ep h =
    let bounded = parse_parameter_bound c b'p' max_parallelism p ep in
    let (rm, rt, rp, lm, lt, lp, lanes) = check_parameters_ok m t p r bounded h in
    let (nm, bm) = named-parse_parameter a b'm' max_memory_kib m em (omega arith) in
    let (nt, bt) = named-parse_parameter b b't' max_iterations t et (omega arith) in
    let (np, bp) = named-parse_parameter c b'p' max_parallelism p ep (omega arith) in
    (
      rw (rm, rt, rp, nm, nt, np),
      record {
        memory = omega arith;
        iterations = omega arith;
        parallelism = omega arith;
        lanes = omega arith;
      },
    )

parse_three_ok :
    (s : List Bytes) (r : Parameters)
    → parse_three s ≡ ok r
    → (join b',' s ≡ print_parameters r) × Printable r.memory_kib r.iterations r.parallelism
unfolding parse_three
parse_three_ok [] r h = cc
parse_three_ok (a ∷ []) r h = cc
parse_three_ok (a ∷ b ∷ []) r h = cc
parse_three_ok (a ∷ b ∷ c ∷ d ∷ s) r h = cc
parse_three_ok (a ∷ b ∷ c ∷ []) r h =
    let (m, em, hm) = bind_succeeds (parse_parameter a b'm' _) _ r h in
    let (t, et, ht) = bind_succeeds (parse_parameter b b't' _) _ r hm in
    let (p, ep, hp) = bind_succeeds (parse_parameter c b'p' _) _ r ht in
    three_printed a b c m t p r em et ep hp

parse_parameters_ok :
    (s : Bytes) (r : Parameters)
    → parse_parameters s ≡ ok r
    → (s ≡ print_parameters r) × Printable r.memory_kib r.iterations r.parallelism
unfolding parse_parameters
parse_parameters_ok s r h =
    let (e, v) = parse_three_ok (split b',' s) r h in (sym (join-split b',' s) ∙ e, v)

-- The parameters that a parsed text was made with.
abbrev pub parameters_of : ParsedHash → Parameters
parameters_of h = record {
  memory_kib = h.memory_kib;
  iterations = h.iterations;
  parallelism = h.parallelism;
  salt_length = length h.salt;
  key_length = length h.hash;
}

-- What the parser promises of its result.
pub record IsSafeHash (h : ParsedHash) : Type 0 where
  pub version : h.version ≡ argon2_version
  pub printable : Printable h.memory_kib h.iterations h.parallelism
  pub salted : (8 ≤ length h.salt) × (length h.salt ≤ 64)
  pub keyed : (16 ≤ length h.hash) × (length h.hash ≤ 64)

same_printed :
    (p q : Parameters)
    → p.memory_kib ≡ q.memory_kib
    → p.iterations ≡ q.iterations
    → p.parallelism ≡ q.parallelism
    → print_parameters p ≡ print_parameters q
unfolding print_parameters
same_printed p q m t l = rw (m, t, l)

fields_printed :
    (parameters salt derived s d : Bytes) (p : Parameters) (h : ParsedHash)
    → parse_parameters parameters ≡ ok p
    → decode_component salt 8 64 ≡ ok s
    → decode_component derived 16 64 ≡ ok d
    → parsed_from p s d ≡ h
    → (parameters ≡ print_parameters (parameters_of h))
      × (salt ≡ encode std h.salt)
      × (derived ≡ encode std h.hash)
      × IsSafeHash h
fields_printed parameters salt derived s d p h ep es ed e =
    let (np, v) = parse_parameters_ok parameters p ep in
    let (ns, ls, us) = decode_component_ok salt s 8 64 es in
    let (nd, ld, ud) = decode_component_ok derived d 16 64 ed in
    subst
      (λ x.
        (parameters ≡ print_parameters (parameters_of x))
        × (salt ≡ encode std x.salt)
        × (derived ≡ encode std x.hash)
        × IsSafeHash x)
      e
      (
        np ∙ same_printed p _ refl refl refl,
        sym ns,
        sym nd,
        record { version = refl; printable = v; salted = (ls, us); keyed = (ld, ud) },
      )

parse_fields_ok :
    (parameters salt derived : Bytes) (h : ParsedHash)
    → parse_fields parameters salt derived ≡ ok h
    → (parameters ≡ print_parameters (parameters_of h))
      × (salt ≡ encode std h.salt)
      × (derived ≡ encode std h.hash)
      × IsSafeHash h
unfolding parse_fields
parse_fields_ok parameters salt derived h k =
    let (p, ep, kp) = bind_succeeds (parse_parameters parameters) _ h k in
    let (s, es, ks) = bind_succeeds (decode_component salt 8 64) _ h kp in
    let (d, ed, kd) = bind_succeeds (decode_component derived 16 64) _ h ks in
    fields_printed parameters salt derived s d p h ep es ed (ground arith)

parse_body_ok :
    (version parameters salt derived : Bytes) (h : ParsedHash)
    → parse_body version parameters salt derived ≡ ok h
    → (version ≡ bytes "v=19")
      × (parameters ≡ print_parameters (parameters_of h))
      × (salt ≡ encode std h.salt)
      × (derived ≡ encode std h.hash)
      × IsSafeHash h
unfolding parse_body
parse_body_ok version parameters salt derived h k =
    ground (arith, same_bytes_iff version (bytes "v=19"), parse_fields_ok parameters salt derived h)

refuse_fails : (ps : List Bytes) (h : ParsedHash) → refuse ps ≢ ok h
unfolding refuse
refuse_fails [] h = ground arith
refuse_fails (p ∷ []) h = ground arith
refuse_fails (p ∷ q ∷ ps) h = ground arith

empty_part : (p : Bytes) → is_empty p ≡ true → p ≡ []
empty_part [] h = refl
empty_part (c ∷ p) h = cc

six_parts :
    (p a v ps s d : Bytes) (h : ParsedHash)
    → parse_parts (p ∷ a ∷ v ∷ ps ∷ s ∷ d ∷ []) ≡ ok h
    → (p ≡ []) × (a ≡ bytes "argon2id") × (parse_body v ps s d ≡ ok h)
unfolding parse_parts
six_parts p a v ps s d h k = ground (arith, same_bytes_iff a (bytes "argon2id"), empty_part p)

printed_again :
    (h : ParsedHash)
    → join b'$' (
        []
        ∷ bytes "argon2id"
        ∷ bytes "v=19"
        ∷ print_parameters (parameters_of h)
        ∷ encode std h.salt
        ∷ encode std h.hash
        ∷ [])
      ≡ encode_phc (parameters_of h) h.salt h.hash
unfolding encode_phc
printed_again h = rw version_printed

parts_parsed : (s : Bytes) (h : ParsedHash) → parse_phc s ≡ ok h → parse_parts (split b'$' s) ≡ ok h
unfolding parse_phc
parts_parsed s h k = ground arith

parts_printed :
    (ps : List Bytes) (h : ParsedHash)
    → parse_parts ps ≡ ok h
    → (join b'$' ps ≡ encode_phc (parameters_of h) h.salt h.hash) × IsSafeHash h
unfolding parse_parts
parts_printed (p ∷ a ∷ v ∷ ps ∷ s ∷ d ∷ []) h k =
    let (e, n, body) = six_parts p a v ps s d h k in
    let (nv, np, ns, nd, safe) = parse_body_ok v ps s d h body in
    (rw (e, n, nv, np, ns, nd) (printed_again h), safe)
parts_printed ps h k = absurd (refuse_fails ps h k)

-- What `ParsePHC` accepts is the text that `encodePHC` prints for its result, whose parameters and
-- lengths keep the limits.
pub encode_phc-parse_phc :
    (s : Bytes) (h : ParsedHash)
    → parse_phc s ≡ ok h
    → (encode_phc (parameters_of h) h.salt h.hash ≡ s) × IsSafeHash h
encode_phc-parse_phc s h k =
    let (e, safe) = parts_printed (split b'$' s) h (parts_parsed s h k) in
    (sym e ∙ join-split b'$' s, safe)
