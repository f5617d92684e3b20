-- ===== src/Sessions/Tokens.antt =====
-- service.go: the bearer token of a session, and what reaches the repository for it.
use cresora.Prelude.{◌≡◌, ap, subst, Option, none, some, List, [], ◌∷◌, length, arith, All}
use cresora.Encoding.Text.{Bytes, IsByte}
use cresora.Encoding.Base64.{url, encode, decode-encode, length-encode}
use cresora.Sessions.{
  Ports, Session, Call, created, searched, revoked, login, validate, validate_raw, revoke,
  revoke_raw, token_hash, decode_token,
}
use cresora.Sessions.Login.{login_iff, login_calls}

-- The random source fills its 32 bytes, and the digest is one of bytes.
abbrev pub FillsToken : Option Bytes → Type 0
FillsToken none = Unit
FillsToken (some raw) = (length raw ≡ 32) × All IsByte raw

pub decode_token-encode :
    (raw : Bytes) → length raw ≡ 32 → All IsByte raw → decode_token (encode url raw) ≡ some raw
unfolding decode_token
decode_token-encode raw h b = ground (arith, decode-encode url raw b, length-encode url raw)

-- The digests that the repository is asked for.
abbrev pub digests : List Call → List Bytes
digests [] = []
digests (created i u h d ∷ cs) = d ∷ digests cs
digests (searched d ∷ cs) = d ∷ digests cs
digests (revoked d ∷ cs) = d ∷ digests cs
digests (c ∷ cs) = digests cs

module _ (ports : Ports) (username plaintext : Bytes) (session : Session)
    (logged_in : (login ports username plaintext).1 ≡ some session)
    (fills : FillsToken ports.random) where
  raw_of :
      (raw : Bytes) × (ports.random ≡ some raw)
      × (session.token ≡ encode url raw)
      × (digests (login ports username plaintext).0 ≡ ports.sha256 raw ∷ [])
  raw_of =
      let l = (login_iff ports username plaintext session).0 logged_in in
      (l.raw, l.drawn, l.bearer, ap digests (login_calls ports username plaintext session l))

  decoded : decode_token session.token ≡ some raw_of.0
  decoded =
      let (raw, drawn, bearer, _) = raw_of in
      let filled = subst FillsToken drawn fills in
      rw bearer (decode_token-encode raw filled.0 filled.1)

  -- After a login whose random source fills the 32 bytes of a token, validating and revoking the token
  -- ask the repository for the digest under which the session was created.
  pub validate-login :
      (d : Bytes) × (digests (login ports username plaintext).0 ≡ d ∷ [])
      × ((validate ports session.token).0 ≡ searched d ∷ [])
      × ((revoke ports session.token).0 ≡ revoked d ∷ [])
      × (token_hash ports session.token ≡ some d)
  unfolding validate validate_raw revoke revoke_raw token_hash
  validate-login = (ports.sha256 raw_of.0, raw_of.3, rw decoded, rw decoded, rw decoded)
