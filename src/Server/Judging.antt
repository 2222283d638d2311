-- ===== src/Server/Judging.antt =====
-- What a WebSocket server makes of an Authorization header that comes with a handshake: `OnAccept` of
-- src/ws_server_impl.cpp and src/wss_server_impl.cpp.
use Prim.Native.String.{String}
use linear_cpp.Prelude.{
  ℕ, ◌≡◌, refl, ap, ◌∙◌, Bool, true, false, not, ◌&&◌, List, [], ◌∷◌, Option, some, arith, ◌==◌,
  if_yes, if_no, Bytes,
}
use linear_cpp.Prelude.Int.{ℤ}
use linear_cpp.Auth.Header.{AuthType, unused, digest, eq_type}
use linear_cpp.Auth.Authorization
use linear_cpp.Auth.Authorization.{Authorization, Result, valid, ambiguous, validate}
use linear_cpp.NoncePool
use linear_cpp.NoncePool.{is_valid}
use linear_cpp.Timer.{Answers}
use linear_cpp.Group.{Groups}
use linear_cpp.SocketImpl.{SocketImpl}
use linear_cpp.Server.{ServerImpl}
use linear_cpp.Server.Accept.{Accepted}
use linear_cpp.Server.WebSocket.{
  Handshake, Response, Outcome, insert, copy_headers, answered, announced, context, respond,
  open_socket, check_nonce, unauthorized, check_authorization, admit, on_accept,
}
use linear_cpp.Server.Arrival.{IsTaken, accepted_socket, entered, room-retain, on_accept-admits}

-- What stands of an outcome until the end.
abbrev Kept : Outcome → Outcome → Type 0
Kept o o' = (o'.authorization ≡ o.authorization) × (o'.srv ≡ o.srv)

-- The handler answers with a code of its own, whatever the socket was like.
abbrev pub Decides : (SocketImpl → SocketImpl) → Type 0
Decides during = (s : SocketImpl) → ((during s).response_context.code == 401) ≡ false

-- The header's fields are judged and its nonce is taken out of the pool.
abbrev pub IsJudged : Authorization → ServerImpl → Outcome → Type 0
IsJudged x srv o =
    (o.authorization ≡ some (record x { valid_nonce = is_valid x.nonce srv.nonce_pool }))
    × (o.srv.nonce_pool ≡ (NoncePool.remove x.nonce srv.nonce_pool).0)

Kept-IsJudged :
    (x : Authorization) (srv : ServerImpl) (o o' : Outcome)
    → IsJudged x srv o
    → Kept o o'
    → IsJudged x srv o'
Kept-IsJudged x srv o o' j k = (k.0 ∙ j.0, ap (λ s. s.nonce_pool) k.1 ∙ j.1)

eq_type-digest : (b c : AuthType) → b ≡ digest → c ≡ digest → eq_type b c ≡ true
eq_type-digest b c p q = rw (p, q) refl

eq_type-unused : (b : AuthType) → b ≡ digest → eq_type b unused ≡ false
eq_type-unused b p = rw p refl

at_some :
    {A : Type 0} (P : Option A → Type 0) (o : Option A) (v : A) → o ≡ some v → P (some v) → P o
at_some P o v h p = rw h p

guarded : (a b c : Bool) → b ≡ false → (a && (b && c)) ≡ false
guarded a b c h = ground (arith, h)

module _ (stores : Bytes → Bytes → Bool) where
  insert-code :
      (key text : Bytes) (r : Response)
      → (r.code == 401) ≡ false
      → ((insert stores r.code key text r).code == 401) ≡ false
  unfolding insert
  insert-code key text r h = ground (arith, h)

  copy_headers-code :
      (kvs : List (Bytes × Bytes)) (r : Response)
      → (r.code == 401) ≡ false
      → ((copy_headers stores kvs r).code == 401) ≡ false
  unfolding copy_headers
  copy_headers-code [] r h = h
  copy_headers-code ((key, text) ∷ kvs) r h =
      copy_headers-code kvs (insert stores r.code key text r) (insert-code key text r h)

  module _ (tv : String → ℤ) (random : ℕ → Option Bytes) (answers : ℕ → Answers) (next_id : ℕ)
      (from_base64 : Bytes → Option Bytes) (finds : Bytes → List (Bytes × Bytes) → Option Bytes)
      (during : SocketImpl → SocketImpl) (fuel : ℕ) where
    respond-Kept :
        (s : SocketImpl) (o : Outcome)
        → (s.response_context.code == 401) ≡ false
        → Kept o (respond stores tv random answers next_id from_base64 finds during fuel s o)
    unfolding respond answered
    respond-Kept s o h =
        if_no (Kept o) _ _ _
          (guarded (not (eq_type o.srv.auth_type unused)) _ _ (
            copy_headers-code s.response_context.headers
              (record (o.response) { code = s.response_context.code }) h))
          (refl, refl)

    open_socket-Kept :
        (h : Handshake) (s : SocketImpl) (o : Outcome)
        → Decides during
        → Kept o (open_socket stores tv random answers next_id from_base64 finds during fuel h s o)
    unfolding open_socket
    open_socket-Kept h s o decides =
        let s' = record s { request_context = context h } in
        let k =
          respond-Kept (during s')
            (announced stores tv random answers next_id from_base64 finds during fuel s o)
            (decides s') in
        unfold announced in k

    check_nonce-IsJudged :
        (b : Bool) (x : Authorization) (o : Outcome)
        → b ≡ true
        → IsJudged x o.srv
            (check_nonce stores tv random answers next_id from_base64 finds during fuel b x o)
    unfolding check_nonce
    check_nonce-IsJudged true x o h = (refl, refl)
    check_nonce-IsJudged false x o h = cc

    check_authorization-IsJudged :
        (memory : Bool) (v : Bytes) (h : Handshake) (s : SocketImpl) (o : Outcome)
        → Decides during
        → o.srv.auth_type ≡ digest
        → (Authorization.read from_base64 memory v).kind ≡ digest
        → IsJudged (Authorization.read from_base64 memory v) o.srv (
            check_authorization stores tv random answers next_id from_base64 finds during fuel
              memory
              (some v)
              h
              s
              o)
    unfolding check_authorization
    check_authorization-IsJudged memory v h s o decides p q =
        let x = Authorization.read from_base64 memory v in
        let checked =
          check_nonce stores tv random answers next_id from_base64 finds during fuel
            (eq_type o.srv.auth_type digest) x o in
        let s' = unauthorized stores tv random answers next_id from_base64 finds during fuel s in
        if_yes (IsJudged x o.srv) _ _ _ (eq_type-digest o.srv.auth_type x.kind p q) (
          Kept-IsJudged x o.srv checked
            (open_socket stores tv random answers next_id from_base64 finds during fuel h s'
              checked)
            (check_nonce-IsJudged (eq_type o.srv.auth_type digest) x o
              (eq_type-digest o.srv.auth_type digest p refl))
            (open_socket-Kept h s' checked decides))

    -- Where a connection that is taken is checked.
    pub on_accept-checks :
        (P : Outcome → Type 0) (a : Accepted) (memory : Bool) (h : Handshake) (r : Response)
        (srv : ServerImpl) (groups : Groups)
        → IsTaken a h srv
        → srv.auth_type ≡ digest
        → P (
            check_authorization stores tv random answers next_id from_base64 finds during fuel
              memory h.authorization h
              (accepted_socket a srv)
              (entered tv a r srv groups))
        → P (
            on_accept stores tv random answers next_id from_base64 finds during fuel a memory h r
              srv groups)
    unfolding admit
    on_accept-checks P a memory h r srv groups taken p q =
        on_accept-admits stores tv random answers next_id from_base64 finds during fuel P a memory h
          r srv groups taken.is_heard
          (if_no P _ _ _ (room-retain a h srv taken)
            (if_no P _ _ _ (eq_type-unused srv.auth_type p) q))

    -- What a server makes of an Authorization header for digest that comes with a handshake.
    pub on_accept-IsJudged :
        (a : Accepted) (memory : Bool) (v : Bytes) (h : Handshake) (r : Response) (srv : ServerImpl)
        (groups : Groups)
        → Decides during
        → h.authorization ≡ some v
        → IsTaken a h srv
        → srv.auth_type ≡ digest
        → (Authorization.read from_base64 memory v).kind ≡ digest
        → IsJudged (Authorization.read from_base64 memory v) srv (
            on_accept stores tv random answers next_id from_base64 finds during fuel a memory h r
              srv groups)
    on_accept-IsJudged a memory v h r srv groups decides given taken p q =
        let s = accepted_socket a srv in
        let o = entered tv a r srv groups in
        let judged = IsJudged (Authorization.read from_base64 memory v) srv in
        on_accept-checks judged a memory h r srv groups taken p (
          at_some
            (λ w. judged (
              check_authorization stores tv random answers next_id from_base64 finds during fuel
                memory w h s o))
            h.authorization v given (check_authorization-IsJudged memory v h s o decides p q))
