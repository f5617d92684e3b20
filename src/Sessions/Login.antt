-- ===== src/Sessions/Login.antt =====
-- service.go: when a login succeeds, and that no failing login skips the verification.
use cresora.Prelude.{
  ℕ, ◌+◌, length, ◌≡◌, ◌≢◌, ◌≤◌, ◌↔◌, refl, Bool, true, Option, none, some, List, [], ◌∷◌, ◌++◌,
  if◌then◌else◌, arith,
}
use cresora.Encoding.Text.{Bytes, same_bytes_iff}
use cresora.Encoding.Base64.{url, encode}
use cresora.Sessions.{
  Ports, Credential, Session, Call, looked_up, verified, created, dummy_password,
  dummy_password_hash, candidate_of, hash_of, verify_password, is_usable, create, login_verified,
  login_found, login,
}

abbrev verifications : Call → ℕ
verifications (verified p h) = 1
verifications c = 0

-- How many verifications a list of calls has.
unfoldable pub count_verified : List Call → ℕ
count_verified [] = 0
count_verified (c ∷ cs) = verifications c + count_verified cs

count_verified-append :
    (cs ds : List Call) → count_verified (cs ++ ds) ≡ count_verified cs + count_verified ds
unfolding count_verified
count_verified-append [] ds = omega arith
count_verified-append (c ∷ cs) ds = omega (arith, count_verified-append cs ds)

module _ (ports : Ports) where
  verifies_once :
      (p h : Bytes)
      → count_verified (verify_password ports p h).0 ≡ (if ports.slot_free then 1 else 0)
  unfolding verify_password count_verified
  verifies_once p h = ground arith

  create_verifies :
      (c : Credential) (raw : Option Bytes) → count_verified (create ports c raw).0 ≡ 0
  unfolding create count_verified
  create_verifies c none = refl
  create_verifies c (some raw) = refl

  login_verified_verifies :
      (u p : Bytes) (c : Credential) (o : Option Bool)
      → count_verified (login_verified ports u p c o).0 ≡ 0
  unfolding login_verified count_verified
  login_verified_verifies u p c o = ground (arith, create_verifies c ports.random)

  login_found_verifies :
      (u p : Bytes) (o : Option Credential)
      → count_verified (login_found ports u p o).0 ≡ (if ports.slot_free then 1 else 0)
  unfolding login_found
  login_found_verifies u p none = verifies_once dummy_password dummy_password_hash
  login_found_verifies u p (some c) =
      let r = verify_password ports (candidate_of p) (hash_of c) in
      omega (
        arith,
        count_verified-append r.0 (login_verified ports u p c r.1).0,
        verifies_once (candidate_of p) (hash_of c),
        login_verified_verifies u p c r.1,
      )

  -- Whatever is wrong with a login, it makes exactly one verification; only if no slot is free, none.
  pub count_verified-login :
      (username plaintext : Bytes)
      → count_verified (login ports username plaintext).0 ≡ (if ports.slot_free then 1 else 0)
  unfolding login count_verified
  count_verified-login username plaintext =
      omega (arith, login_found_verifies username plaintext (ports.find_credential username))

  -- What must hold for a login to give the session.
  pub record LogsIn (username plaintext : Bytes) (session : Session) : Type 0 where
    pub credential : Credential
    pub raw : Bytes
    pub found : ports.find_credential username ≡ some credential
    pub admissible : (12 ≤ length plaintext) × (length plaintext ≤ 1024)
    pub active : credential.enabled ≡ true
    pub identified : credential.operator_id ≢ 0
    pub hashed : credential.password_hash ≢ []
    pub named : (username ≢ []) × (credential.username ≡ username)
    pub slot : ports.slot_free ≡ true
    pub matches : ports.verify plaintext credential.password_hash ≡ some true
    pub drawn : ports.random ≡ some raw
    pub stored :
        ports.create_session credential.operator_id username credential.password_hash
          (ports.sha256 raw)
        ≡ some session.stored
    pub owned : session.stored.operator_id ≡ credential.operator_id
    pub bearer : session.token ≡ encode url raw

  created_session :
      (c : Credential) (raw : Bytes) (session : Session)
      → (create ports c (some raw)).1 ≡ some session
      → (ports.create_session c.operator_id c.username c.password_hash (ports.sha256 raw)
          ≡ some session.stored)
        × (session.stored.operator_id ≡ c.operator_id)
        × (session.token ≡ encode url raw)
  unfolding create
  created_session c raw session h = ground arith

  usable_parts :
      (u p : Bytes) (c : Credential)
      → is_usable u p c ≡ true
      → (candidate_of p ≡ p)
        × (hash_of c ≡ c.password_hash)
        × (c.username ≡ u)
        × (u ≢ [])
        × (12 ≤ length p)
        × (length p ≤ 1024)
        × (c.enabled ≡ true)
        × (c.operator_id ≢ 0)
        × (c.password_hash ≢ [])
  usable_parts u p c h = ground (arith, same_bytes_iff c.username u)

  usable_of :
      (u p : Bytes) (session : Session) (l : LogsIn u p session) → is_usable u p l.credential ≡ true
  usable_of u p session l = ground (
    arith,
    l.admissible,
    l.active,
    l.identified,
    l.hashed,
    l.named,
    same_bytes_iff l.credential.username u,
  )

  drawn_by :
      (u p : Bytes) (c : Credential) (session : Session)
      → ports.find_credential u ≡ some c
      → ports.slot_free ≡ true
      → ports.verify (candidate_of p) (hash_of c) ≡ some true
      → is_usable u p c ≡ true
      → (o : Option Bytes) → ports.random ≡ o
      → (create ports c o).1 ≡ some session
      → LogsIn u p session
  drawn_by u p c session f s v w none r h = unfold create in cc
  drawn_by u p c session f s v w (some raw) r h =
      let (k, i, t) = created_session c raw session h in
      let (a, b, e, n, lo, hi, on, i0, h0) = usable_parts u p c w in
      record {
        credential = c;
        raw = raw;
        found = f;
        admissible = (lo, hi);
        active = on;
        identified = i0;
        hashed = h0;
        named = (n, e);
        slot = s;
        matches = rw (a, b) at v;
        drawn = r;
        stored = rw e at k;
        owned = i;
        bearer = t;
      }

  verified_by :
      (u p : Bytes) (c : Credential) (session : Session)
      → (login_verified ports u p c (verify_password ports (candidate_of p) (hash_of c)).1).1
        ≡ some session
      → (ports.slot_free ≡ true)
        × (ports.verify (candidate_of p) (hash_of c) ≡ some true)
        × (is_usable u p c ≡ true)
        × ((create ports c ports.random).1 ≡ some session)
  unfolding login_verified verify_password
  verified_by u p c session h = ground arith

  LogsIn-found :
      (u p : Bytes) (session : Session) (o : Option Credential)
      → ports.find_credential u ≡ o
      → (login_found ports u p o).1 ≡ some session
      → LogsIn u p session
  unfolding login_found
  LogsIn-found u p session none f h = cc
  LogsIn-found u p session (some c) f h =
      let (s, v, w, k) = verified_by u p c session h in
      drawn_by u p c session f s v w ports.random refl k

  completes :
      (u p : Bytes) (session : Session) → LogsIn u p session → (login ports u p).1 ≡ some session
  unfolding login login_found login_verified verify_password create
  completes u p session l = ground (
    arith,
    l.found,
    usable_of u p session l,
    l.slot,
    l.matches,
    l.drawn,
    l.stored,
    l.owned,
    l.bearer,
    usable_parts u p l.credential (usable_of u p session l),
  )

  -- The calls of such a login.
  pub login_calls :
      (u p : Bytes) (session : Session) (l : LogsIn u p session)
      → (login ports u p).0
        ≡ looked_up u
          ∷ verified p l.credential.password_hash
          ∷ created l.credential.operator_id u l.credential.password_hash (ports.sha256 l.raw)
          ∷ []
  unfolding login login_found login_verified verify_password create
  login_calls u p session l = ground (
    arith,
    l.found,
    usable_of u p session l,
    l.slot,
    l.matches,
    l.drawn,
    usable_parts u p l.credential (usable_of u p session l),
  )

  -- `Login` gives a session exactly when the credential is found for the username, is enabled and has
  -- a hash and an owner, the password has an admissible length, a slot is free and the password
  -- verifies against that hash, random bytes are drawn, and the repository stores a session for the
  -- digest of those bytes and the same owner; the token is the encoding of the bytes.
  pub login_iff :
      (username plaintext : Bytes) (session : Session)
      → ((login ports username plaintext).1 ≡ some session) ↔ LogsIn username plaintext session
  login_iff username plaintext session = (
    λ h.
        LogsIn-found username plaintext session (ports.find_credential username) refl
          (unfold login in h),
    completes username plaintext session,
  )
