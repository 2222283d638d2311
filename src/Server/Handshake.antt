-- ===== src/Server/Handshake.antt =====
-- A digest login over two handshakes: the challenge of the server, what the client makes of it, and
-- the server's judgement of the answer (src/ws_socket_impl.cpp, src/ws_server_impl.cpp and
-- src/auth_context_impl.cpp).
use Prim.Native.String.{String}
use linear_cpp.Prelude.{
  ℕ, ◌≤◌, ◌≡◌, refl, sym, ap, ◌∙◌, Bool, true, false, List, [], Option, some, if◌then◌else◌, if_no,
  Bytes, codes, is_empty,
}
use linear_cpp.Prelude.Int.{ℤ}
use linear_cpp.Ordered.{bytes_order}
use linear_cpp.Ordered.Map.{find, modify, find-modify}
use linear_cpp.Auth.Header.{digest}
use linear_cpp.Auth.Authorization.{Authorization, valid, ambiguous, validate}
use linear_cpp.Auth.Authenticate
use linear_cpp.Auth.Authenticate.{Authenticate, create_authorization_header}
use linear_cpp.Auth.Answer.{IsHash, header-qop}
use linear_cpp.NoncePool.{is_valid}
use linear_cpp.NoncePool.SingleUse.{held}
use linear_cpp.Timer.{Answers}
use linear_cpp.Group.{Groups}
use linear_cpp.HandlerDelegate.{HandlerDelegate}
use linear_cpp.SocketImpl.{connecting, SocketImpl, WsRequestContext, World}
use linear_cpp.SocketImpl.Send
use linear_cpp.SocketImpl.Connect.{ConnectAnswers}
use linear_cpp.SocketImpl.Events.{Connection, check_retry_auth}
use linear_cpp.SocketImpl.Reconnect.{IsReconnecting, refused, refused_lem}
use linear_cpp.SocketImpl.Open.{
  StreamAnswers, url, with_authorization, authorize, prepare, read_handshake, read_challenge,
}
use linear_cpp.Server.{ServerImpl}
use linear_cpp.Server.Accept.{Accepted}
use linear_cpp.Server.WebSocket.{Handshake, Response, digest_challenge, on_accept}
use linear_cpp.Server.Challenge.{read-challenge}
use linear_cpp.Server.Arrival.{IsTaken}
use linear_cpp.Server.Judging.{Decides}
use linear_cpp.Server.Login.{AreTexts, answer, counted, counted-IsAnswerable, accept_login}

abbrev pub authorization : Bytes
authorization = codes "Authorization"

find-with_authorization :
    (header : Bytes) (r : WsRequestContext)
    → is_empty header ≡ false
    → find authorization (with_authorization header r).headers ≡ some header
unfolding with_authorization
find-with_authorization header r e =
    if_no (λ x. find authorization x.headers ≡ some header) (is_empty header) r
      (record r { headers = modify authorization [] (λ old. header) r.headers }) e
      (find-modify authorization authorization [] (λ old. header) r.headers)

module _ (md5sum to_base64 : Bytes → Option Bytes) (realm nonce cnonce : Bytes) (code : ℕ)
    (headers : List (Bytes × Bytes)) (s : SocketImpl) where
  -- The client behind the handshake that brought the challenge.
  abbrev challenged : SocketImpl
  challenged = read_handshake code headers (some (digest_challenge realm nonce)) s

  -- The count of its answer.
  abbrev count : ℕ
  count = challenged.authenticate_context.nc

  -- What the client's next handshake brings for `Authorization`.
  abbrev sent : Option Bytes
  sent =
      find authorization (prepare md5sum to_base64 (some cnonce) challenged).request_context.headers

  abbrev expected : Bytes
  expected =
      answer md5sum to_base64 realm nonce (url s.request_context) s.request_context.username
        s.request_context.password cnonce count

  abbrev pub Texts : Type 0
  Texts =
      AreTexts md5sum to_base64 realm nonce (url s.request_context) s.request_context.username
        s.request_context.password cnonce count

  counted_challenge :
      Texts
      → record (Authenticate.read (digest_challenge realm nonce)) { nc = count }
        ≡ counted md5sum to_base64 realm nonce
            (url s.request_context)
            s.request_context.username
            s.request_context.password
            cnonce
            count
  counted_challenge t =
      ap (λ (c : Authenticate). record c { nc = count })
        (read-challenge realm nonce t.plain_realm t.plain_nonce)

  kind_challenge : Texts → (Authenticate.read (digest_challenge realm nonce)).kind ≡ digest
  kind_challenge t = ap (λ c. c.kind) (read-challenge realm nonce t.plain_realm t.plain_nonce)

  some_expected : Texts → is_empty expected ≡ false
  some_expected t =
      ap
        (λ c. is_empty (
          create_authorization_header md5sum to_base64 (some cnonce) c (url s.request_context)
            s.request_context.username s.request_context.password))
        (counted_challenge t)
      ∙ ap is_empty (
          header-qop md5sum to_base64
            (counted md5sum to_base64 realm nonce (url s.request_context) s.request_context.username
              s.request_context.password cnonce count)
            (url s.request_context) s.request_context.username s.request_context.password
            (counted-IsAnswerable md5sum to_base64 realm nonce (url s.request_context)
              s.request_context.username s.request_context.password cnonce count t)
            cnonce refl)

  -- The client answers to the challenge.
  sent-answer : Texts → s.request_context.auth_type ≡ digest → sent ≡ some expected
  unfolding prepare read_handshake read_challenge
  sent-answer t p =
      let r = s.request_context in
      let c = record (Authenticate.read (digest_challenge realm nonce)) { nc = count } in
      ap
        (λ k.
          find authorization
            (authorize md5sum to_base64 (some cnonce) k (record c { kind = k }) r).headers)
        p
      ∙ ap
          (λ k.
            find authorization
              (authorize md5sum to_base64 (some cnonce) digest (record c { kind = k }) r).headers)
          (sym (kind_challenge t))
      ∙ unfold authorize in find-with_authorization expected r (some_expected t)

  retries :
      (Authenticate.read (digest_challenge realm nonce)).kind ≡ digest
      → code ≡ 401
      → s.authenticate_context.nc ≡ 0
      → check_retry_auth challenged ≡ true
  unfolding check_retry_auth read_handshake read_challenge
  retries k e n = rw (e, k, n) refl

module _ (md5sum to_base64 : Bytes → Option Bytes) (realm nonce cnonce : Bytes)
    (headers : List (Bytes × Bytes)) (tv : String → ℤ) (c : Connection) (waiting : ℕ → Send.Answers)
    (again : ConnectAnswers) (opening : StreamAnswers) where
  -- The client when libtv has reported the 401 with the challenge, and the end of the connection.
  abbrev pub after_refusal : HandlerDelegate → Groups → SocketImpl → World
  after_refusal d groups s =
      refused tv md5sum to_base64 (some cnonce)
        (record { code = 401; headers = headers; challenge = some (digest_challenge realm nonce) })
        c waiting again opening (record { sock = s; delegate = some d; groups = groups })

-- A client of plain WebSockets that wants digest authentication and has not been challenged is
-- connecting, and libtv reports that the server refused it with 401 and a challenge (EWS, an error
-- with a number of its own), and then that the stream is closed. With nothing done in between, the
-- client is then connecting again: its OnDisconnect has called Connect. On the connection that this
-- makes with a WebSocket server, if the Authorization header that it brings is that of the client's
-- new request, the handler's check of the authorization with the client's password says valid if the
-- pool of the server holds the nonce of the challenge (which it holds at most once), ambiguous if
-- not, and the pool does not hold it any more. The event and the stream of the new connection can be
-- made, the socket has an address and lives, and the pool of the client takes it in again; the server
-- is for digest authentication, its connection is one that libtv took, there is room for it, its
-- handler answers with another code than 401; MD5 gives hashes, and the texts are such as a header
-- can carry.
pub retry_login :
    (md5sum to_base64 : Bytes → Option Bytes) (realm nonce cnonce : Bytes)
    (headers : List (Bytes × Bytes)) (tv : String → ℤ) (c : Connection) (waiting : ℕ → Send.Answers)
    (again : ConnectAnswers) (opening : StreamAnswers) (d : HandlerDelegate) (own : Groups)
    (s : SocketImpl) (stores : Bytes → Bytes → Bool) (random : ℕ → Option Bytes)
    (answers : ℕ → Answers) (next_id : ℕ) (from_base64 : Bytes → Option Bytes)
    (finds : Bytes → List (Bytes × Bytes) → Option Bytes) (during : SocketImpl → SocketImpl)
    (fuel : ℕ) (a : Accepted) (memory : Bool) (h : Handshake) (r : Response) (srv : ServerImpl)
    (groups : Groups)
    → IsHash md5sum
    → Texts md5sum to_base64 realm nonce cnonce 401 headers s
    → s.request_context.auth_type ≡ digest
    → s.authenticate_context.nc ≡ 0
    → IsReconnecting tv c again opening d own s
    → Decides during
    → IsTaken a h srv
    → let client =
        after_refusal md5sum to_base64 realm nonce cnonce headers tv c waiting again opening d own
          s in
      h.authorization ≡ find authorization client.sock.request_context.headers
      → srv.auth_type ≡ digest
      → held nonce srv.nonce_pool ≤ 1
      → let o =
          on_accept stores tv random answers next_id from_base64 finds during fuel a memory h r srv
            groups in
        (client.sock.state ≡ connecting)
        × ((x : Authorization) × (o.authorization ≡ some x)
            × (validate md5sum s.request_context.password x
                ≡ (if is_valid nonce srv.nonce_pool then valid else ambiguous)))
        × (is_valid nonce o.srv.nonce_pool ≡ false)
retry_login md5sum to_base64 realm nonce cnonce headers tv c waiting again opening d own s stores
      random answers next_id from_base64 finds during fuel a memory h r srv groups hash t p fresh
      ready decides taken given q single =
    let guard =
      retries md5sum to_base64 realm nonce cnonce 401 headers s
        (kind_challenge md5sum to_base64 realm nonce cnonce 401 headers s t) refl fresh in
    let begun =
      refused_lem tv md5sum to_base64 (some cnonce)
        (record { code = 401; headers = headers; challenge = some (digest_challenge realm nonce) })
        c waiting again opening d own s ready guard in
    let given' =
      given
      ∙ ap (λ (x : WsRequestContext). find authorization x.headers) begun.1
      ∙ sent-answer md5sum to_base64 realm nonce cnonce 401 headers s t p in
    let login =
      accept_login md5sum to_base64 realm nonce (url s.request_context) s.request_context.username
        s.request_context.password cnonce (count md5sum to_base64 realm nonce cnonce 401 headers s)
        stores tv random answers next_id from_base64 finds during fuel a memory h r srv groups hash
        t decides taken given' q single in
    (begun.0, login.0, login.1)
