-- ===== src/SocketImpl/Secure/Agreement.antt =====
-- Where a secure WebSocket connects as a plain one (src/wss_socket_impl.cpp, src/ws_socket_impl.cpp).
use Prim.Native.String.{String}
use linear_cpp.Prelude.{
  ◌≡◌, refl, ap, ◌∙◌, false, [], Option, some, if◌then◌else◌, Bytes, codes, is_empty, arith, ◌||◌,
  if_yes, ◌++◌,
}
use linear_cpp.Prelude.Int.{ℤ, nonzero}
use linear_cpp.ErrorMap.{lnr_enomem}
use linear_cpp.Error.{error, from_status}
use linear_cpp.Auth.Header.{AuthType, unused, basic, digest, unknown, eq_type}
use linear_cpp.Ordered.{bytes_order}
use linear_cpp.Ordered.Map.{modify, erase}
use linear_cpp.Auth.Authenticate.{
  Authenticate, create_authorization_header, create_kind, create_basic,
}
use linear_cpp.SocketImpl.{SocketImpl, WsRequestContext}
use linear_cpp.SocketImpl.Open.{
  StreamAnswers, url, with_prefix, connect_prepared, authorize, prepare, ws_connect,
  with_authorization,
}
use linear_cpp.SocketImpl.Secure.{wss_authorize, wss_prepare, wss_connect}

module _ (md5sum to_base64 : Bytes → Option Bytes) (random : Option Bytes) where
  authorize-agrees :
      (k : AuthType) (c : Authenticate) (r : WsRequestContext)
      → r.query ≡ []
      → r.auth_type ≡ k
      → c.kind ≡ k
      → wss_authorize md5sum to_base64 random c r ≡ authorize md5sum to_base64 random k c r
  unfolding wss_authorize authorize url
  authorize-agrees unused c r q h k = rw (h, k) refl
  authorize-agrees basic c r q h k = rw (h, k, q) refl
  authorize-agrees digest c r q h k = rw (h, k, q) refl
  authorize-agrees unknown c r q h k = rw (h, k) refl

  prepare-agrees :
      (s : SocketImpl)
      → s.request_context.query ≡ []
      → s.authenticate_context.kind ≡ s.request_context.auth_type
      → wss_prepare md5sum to_base64 random s ≡ prepare md5sum to_base64 random s
  unfolding wss_prepare prepare
  prepare-agrees s q k =
      let c = s.authenticate_context in
      let r = s.request_context in
      let same : c ≡ record c { kind = r.auth_type } = ap (λ x. record c { kind = x }) k in
      ap (λ x. record s { request_context = x }) (authorize-agrees r.auth_type c r q refl k)
      ∙ ap
          (λ x. record s {
            authenticate_context = x;
            request_context = authorize md5sum to_base64 random r.auth_type x r;
          })
          same

  -- Connect of a secure WebSocket does what Connect of a plain one does, whatever the allocations and
  -- libtv answer, for a socket without a query whose authentication is of the kind that the request
  -- asks for: such as one without authentication, or one that was challenged.
  pub connect-agrees :
      (tv : String → ℤ) (a : StreamAnswers) (s : SocketImpl)
      → s.request_context.query ≡ []
      → s.authenticate_context.kind ≡ s.request_context.auth_type
      → wss_connect md5sum to_base64 random tv a s ≡ ws_connect md5sum to_base64 random tv a s
  unfolding wss_connect ws_connect
  connect-agrees tv a s q k =
      ap
        (λ p.
          if a.allocated
          then if nonzero a.init_status
            then (s, from_status tv a.init_status, [])
            else if a.url_stored
            then if a.headers_stored
              then connect_prepared md5sum to_base64 random tv a p
              else (p, error lnr_enomem, [])
            else (s, error lnr_enomem, [])
          else (s, error lnr_enomem, []))
        (prepare-agrees s q k)

  unanswered :
      (c : Authenticate) (uri username password : Bytes)
      → c.kind ≡ unused
      → create_authorization_header md5sum to_base64 random c uri username password ≡ []
  unfolding create_authorization_header create_kind
  unanswered c uri username password k = ground (arith, k)

  basic_header :
      (c : Authenticate) (uri username password t : Bytes)
      → c.kind ≡ basic
      → is_empty username ≡ false
      → to_base64 (username ++ (codes ":" ++ password)) ≡ some t
      → create_authorization_header md5sum to_base64 random c uri username password
        ≡ codes "Basic " ++ t
  unfolding create_authorization_header create_kind create_basic
  basic_header c uri username password t k e h = rw (e, k, h) refl

  wss_authorize-basic :
      (c : Authenticate) (r : WsRequestContext)
      → c.kind ≡ unused
      → r.auth_type ≡ basic
      → wss_authorize md5sum to_base64 random c r ≡ r
  unfolding wss_authorize
  wss_authorize-basic c r k b =
      let header =
        create_authorization_header md5sum to_base64 random c (with_prefix b'/' r.path) r.username
          r.password in
      if_yes (λ x. x ≡ r) (eq_type r.auth_type basic || eq_type c.kind digest)
        (with_authorization header r)
        (if eq_type c.kind unused || eq_type c.kind unknown
          then record r { headers = erase (codes "Authorization") r.headers }
          else r)
        (rw b refl)
        (ap (λ h. with_authorization h r) (unanswered c _ _ _ k)
          ∙ unfold with_authorization in refl)

  authorize-basic :
      (kind : AuthType) (c : Authenticate) (r : WsRequestContext) (t : Bytes)
      → kind ≡ basic
      → c.kind ≡ basic
      → is_empty r.username ≡ false
      → to_base64 (r.username ++ (codes ":" ++ r.password)) ≡ some t
      → (authorize md5sum to_base64 random kind c r).headers
        ≡ modify (codes "Authorization") [] (λ old. codes "Basic " ++ t) r.headers
  unfolding authorize with_authorization
  authorize-basic basic c r t p k e h =
      ap (λ x. (with_authorization x r).headers)
        (basic_header c (url r) r.username r.password t k e h)
  authorize-basic unused c r t p k e h = cc
  authorize-basic digest c r t p k e h = cc
  authorize-basic unknown c r t p k e h = cc

  -- A new socket with basic authentication: on its first Connect the secure WebSocket adds no
  -- Authorization header (its context still says that none is used), where the plain one adds the
  -- user name and the password in Base64.
  pub wss_basic :
      (s : SocketImpl) (t : Bytes)
      → s.authenticate_context.kind ≡ unused
      → s.request_context.auth_type ≡ basic
      → is_empty s.request_context.username ≡ false
      → to_base64 (s.request_context.username ++ (codes ":" ++ s.request_context.password)) ≡ some t
      → (wss_prepare md5sum to_base64 random s ≡ s)
        × ((prepare md5sum to_base64 random s).request_context.headers
            ≡ modify
                (codes "Authorization")
                []
                (λ old. codes "Basic " ++ t)
                s.request_context.headers)
  unfolding wss_prepare prepare
  wss_basic s t k b e h =
      let c = s.authenticate_context in
      let r = s.request_context in
      (
        ap (λ x. record s { request_context = x }) (wss_authorize-basic c r k b),
        authorize-basic r.auth_type (record c { kind = r.auth_type }) r t b b e h,
      )
