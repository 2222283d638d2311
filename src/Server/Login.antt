-- ===== src/Server/Login.antt =====
-- A digest login at a server (src/ws_server_impl.cpp, src/wss_server_impl.cpp, src/nonce_pool.h and
-- src/auth_context_impl.cpp): the nonce of a challenge serves once.
use Prim.Native.String.{String}
use linear_cpp.Prelude.{
  ℕ, ◌≤◌, ◌≡◌, inl, inr, refl, ap, ◌∙◌, Bool, false, List, Option, some, arith, if◌then◌else◌,
  Bytes, codes, is_empty,
}
use linear_cpp.Prelude.Int.{ℤ}
use linear_cpp.Auth.Header.{digest}
use linear_cpp.Auth.Parsing.{ArePlain}
use linear_cpp.Auth.Authorization
use linear_cpp.Auth.Authorization.{Authorization, Result, valid, ambiguous, validate}
use linear_cpp.Auth.Authenticate
use linear_cpp.Auth.Authenticate.{Authenticate, create_authorization_header}
use linear_cpp.Auth.Answer.{IsHash, IsAnswerable}
use linear_cpp.Auth.RoundTrip.{received}
use linear_cpp.Auth.Login.{read-header, digest_login}
use linear_cpp.NoncePool
use linear_cpp.NoncePool.{is_valid, Nonce}
use linear_cpp.NoncePool.SingleUse.{held, held-remove_self, held-is_valid}
use linear_cpp.Timer.{Answers}
use linear_cpp.Group.{Groups}
use linear_cpp.SocketImpl.{SocketImpl}
use linear_cpp.Server.{ServerImpl}
use linear_cpp.Server.Accept.{Accepted}
use linear_cpp.Server.Challenge.{challenge, read-challenge}
use linear_cpp.Server.WebSocket.{Handshake, Response, digest_challenge, on_accept}
use linear_cpp.Server.Arrival.{IsTaken}
use linear_cpp.Server.Judging.{Decides, on_accept-IsJudged}

module _ (md5sum to_base64 : Bytes → Option Bytes)
    (realm nonce uri username password cnonce : Bytes) (nc : ℕ) where
  -- What a client of this user sends on the challenge.
  abbrev pub answer : Bytes
  answer =
      create_authorization_header md5sum to_base64 (some cnonce)
        (record (Authenticate.read (digest_challenge realm nonce)) { nc = nc }) uri username
        password

  -- The texts that a header can carry.
  pub record AreTexts : Type 0 where
    pub plain_realm : ArePlain realm
    pub plain_nonce : ArePlain nonce
    pub plain_uri : ArePlain uri
    pub plain_username : ArePlain username
    pub plain_cnonce : ArePlain cnonce
    pub with_nonce : is_empty nonce ≡ false
    pub with_uri : is_empty uri ≡ false
    pub with_username : is_empty username ≡ false

  abbrev pub counted : Authenticate
  counted = record (challenge realm nonce) { nc = nc }

  pub counted-IsAnswerable : AreTexts → IsAnswerable counted uri username
  counted-IsAnswerable t = record {
    kind_digest = refl;
    with_nonce = t.with_nonce;
    with_uri = t.with_uri;
    with_username = t.with_username;
    md5 = inr (inl refl);
    plain_nonce = t.plain_nonce;
    plain_uri = t.plain_uri;
    plain_username = t.plain_username;
    plain_realm = t.plain_realm;
  }

  read-answer :
      (from_base64 : Bytes → Option Bytes) (memory : Bool)
      → IsHash md5sum
      → AreTexts
      → (d : Bytes) × (Authorization.read from_base64 memory answer
          ≡ received memory counted uri username (codes "auth") cnonce d)
  read-answer from_base64 memory h t = (
    _,
    ap
          (λ c. Authorization.read from_base64 memory (
            create_authorization_header md5sum to_base64 (some cnonce) (record c { nc = nc }) uri
              username password))
          (read-challenge realm nonce t.plain_realm t.plain_nonce)
        ∙ read-header md5sum to_base64 from_base64 memory counted uri username password cnonce h
            (counted-IsAnswerable t) t.plain_cnonce,
  )

  -- The judgement on the fields that the server read.
  validate-answer :
      (from_base64 : Bytes → Option Bytes) (memory v : Bool)
      → IsHash md5sum
      → AreTexts
      → validate md5sum password
          (record (Authorization.read from_base64 memory answer) { valid_nonce = v })
        ≡ (if v then valid else ambiguous)
  validate-answer from_base64 memory v h t =
      ap
        (λ c.
          validate md5sum password
            (record (Authorization.read from_base64 memory (
              create_authorization_header md5sum to_base64 (some cnonce) (record c { nc = nc }) uri
                username password)) { valid_nonce = v }))
        (read-challenge realm nonce t.plain_realm t.plain_nonce)
      ∙ digest_login md5sum to_base64 from_base64 memory v counted uri username password cnonce h
          (counted-IsAnswerable t) t.plain_cnonce

  is_valid-remove :
      (pool : List Nonce)
      → held nonce pool ≤ 1
      → is_valid nonce (NoncePool.remove nonce pool).0 ≡ false
  is_valid-remove pool h = ground (
    arith,
    held-remove_self nonce pool h,
    held-is_valid nonce (NoncePool.remove nonce pool).0
        (omega (arith, held-remove_self nonce pool h)),
  )

  -- A connection to a server for digest authentication that brings the header with which a client
  -- answers to a challenge: with the password that the client used, the handler's check of the
  -- authorization that it gets says valid if the pool holds the challenge's nonce, and ambiguous if
  -- not; and the pool does not hold the nonce any more, so the header serves once. The connection is
  -- one that libtv took, for which there is room, and that the handler answers with another code than
  -- 401; the texts are such as a header can carry.
  pub accept_login :
      (stores : Bytes → Bytes → Bool) (tv : String → ℤ) (random : ℕ → Option Bytes)
      (answers : ℕ → Answers) (next_id : ℕ) (from_base64 : Bytes → Option Bytes)
      (finds : Bytes → List (Bytes × Bytes) → Option Bytes) (during : SocketImpl → SocketImpl)
      (fuel : ℕ) (a : Accepted) (memory : Bool) (h : Handshake) (r : Response) (srv : ServerImpl)
      (groups : Groups)
      → IsHash md5sum
      → AreTexts
      → Decides during
      → IsTaken a h srv
      → h.authorization ≡ some answer
      → srv.auth_type ≡ digest
      → held nonce srv.nonce_pool ≤ 1
      → let o =
          on_accept stores tv random answers next_id from_base64 finds during fuel a memory h r srv
            groups in
        ((x : Authorization) × (o.authorization ≡ some x)
          × (validate md5sum password x
              ≡ (if is_valid nonce srv.nonce_pool then valid else ambiguous)))
        × (is_valid nonce o.srv.nonce_pool ≡ false)
  accept_login stores tv random answers next_id from_base64 finds during fuel a memory h r srv
        groups hash t decides taken given p single =
      let (d, read) = read-answer from_base64 memory hash t in
      let same = ap (λ x. x.nonce) read in
      let judged =
        on_accept-IsJudged stores tv random answers next_id from_base64 finds during fuel a memory
          answer h r srv groups decides given taken p (ap (λ x. x.kind) read) in
      (
        (
          record (Authorization.read from_base64 memory answer) {
            valid_nonce = is_valid nonce srv.nonce_pool;
          },
          judged.0
              ∙ ap
                  (λ n. some (record (Authorization.read from_base64 memory answer) {
                    valid_nonce = is_valid n srv.nonce_pool;
                  }))
                  same,
          validate-answer from_base64 memory (is_valid nonce srv.nonce_pool) hash t,
        ),
        ap (is_valid nonce) (judged.1 ∙ ap (λ n. (NoncePool.remove n srv.nonce_pool).0) same)
            ∙ is_valid-remove srv.nonce_pool single,
      )
