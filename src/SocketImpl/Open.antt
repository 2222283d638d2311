-- ===== src/SocketImpl/Open.antt =====
-- The subclasses' `Connect()`: src/tcp_socket_impl.cpp and src/ws_socket_impl.cpp, with the reading
-- of the server's answer to a WebSocket handshake.
use Prim.Native.String.{String}
use linear_cpp.Prelude.{
  ℕ, ◌+◌, Bool, true, false, not, ◌&&◌, List, [], ◌∷◌, ◌++◌, Option, none, some, ltb, ◌==◌,
  if◌then◌else◌, Bytes, codes, is_empty,
}
use linear_cpp.Prelude.Int.{ℤ, nonzero}
use linear_cpp.Ordered.{bytes_order}
use linear_cpp.Ordered.Map.{modify, erase}
use linear_cpp.ErrorMap.{lnr_ok, lnr_enomem}
use linear_cpp.Error.{Error, error, from_status}
use linear_cpp.Auth.Header.{AuthType, unused, unknown}
use linear_cpp.Auth.Authenticate
use linear_cpp.Auth.Authenticate.{Authenticate, blank, create_authorization_header}
use linear_cpp.SocketImpl.{SocketImpl, WsRequestContext, Action, connects}

-- What malloc, libtv and its buffers answer.
pub record StreamAnswers : Type 0 where
  pub allocated : Bool
  pub init_status : ℤ
  pub url_stored : Bool
  pub headers_stored : Bool
  pub bind_status : ℤ
  pub connect_status : ℤ

abbrev pub bind_fails : StreamAnswers → SocketImpl → Bool
bind_fails a s = not (is_empty s.bind_ifname) && nonzero a.bind_status

module _ (tv : String → ℤ) where
  unfoldable pub start_connect : StreamAnswers → SocketImpl → SocketImpl × Error × List Action
  start_connect a s =
      if nonzero a.connect_status
      then (s, from_status tv a.connect_status, [])
      else (s, error lnr_ok, connects ∷ [])

  -- `TCPSocketImpl::Connect`. `stream_` is left as it is when its memory is freed on an error.
  unfoldable pub tcp_connect : StreamAnswers → SocketImpl → SocketImpl × Error × List Action
  unfolding start_connect
  tcp_connect a s =
      let s' = record s { has_stream = true } in
      if a.allocated
      then if nonzero a.init_status
        then (s', from_status tv a.init_status, [])
        else if bind_fails a s
        then (s', from_status tv a.bind_status, [])
        else start_connect a s'
      else (record s { has_stream = false }, error lnr_enomem, [])

abbrev starts_with : ℕ → Bytes → Bool
starts_with c [] = false
starts_with c (x ∷ xs) = c == x

abbrev pub with_prefix : ℕ → Bytes → Bytes
with_prefix c s = if starts_with c s then s else c ∷ s

-- The URL of a handshake.
unfoldable pub url : WsRequestContext → Bytes
url r =
    if is_empty r.query
    then with_prefix b'/' r.path
    else with_prefix b'/' r.path ++ with_prefix b'?' r.query

-- `request_context_.headers` with an Authorization header, if there is one.
unfoldable pub with_authorization : Bytes → WsRequestContext → WsRequestContext
with_authorization authorization r =
    if is_empty authorization
    then r
    else record r { headers = modify (codes "Authorization") [] (λ old. authorization) r.headers }

module _ (md5sum to_base64 : Bytes → Option Bytes) (random : Option Bytes) where
  unfoldable pub authorize : AuthType → Authenticate → WsRequestContext → WsRequestContext
  authorize unused c r = record r { headers = erase (codes "Authorization") r.headers }
  authorize unknown c r = record r { headers = erase (codes "Authorization") r.headers }
  authorize _ c r =
      with_authorization
        (create_authorization_header md5sum to_base64 random c (url r) r.username r.password) r

  -- The part of `WSSocketImpl::Connect` on the two contexts.
  unfoldable pub prepare : SocketImpl → SocketImpl
  unfolding authorize
  prepare s =
      let c = record (s.authenticate_context) { kind = s.request_context.auth_type } in
      record s { authenticate_context = c; request_context = authorize c.kind c s.request_context }

  module _ (tv : String → ℤ) where
    -- From the interface on.
    unfoldable pub connect_prepared : StreamAnswers → SocketImpl → SocketImpl × Error × List Action
    connect_prepared a s =
        if bind_fails a s
        then (s, from_status tv a.bind_status, [])
        else start_connect tv a (record s {
          has_stream = true;
          response_context = record (s.response_context) { headers = [] };
        })

    -- `WSSocketImpl::Connect`.
    unfoldable pub ws_connect : StreamAnswers → SocketImpl → SocketImpl × Error × List Action
    unfolding connect_prepared start_connect
    ws_connect a s =
        if a.allocated
        then if nonzero a.init_status
          then (s, from_status tv a.init_status, [])
          else if a.url_stored
          then if a.headers_stored
            then connect_prepared a (prepare s)
            else (prepare s, error lnr_enomem, [])
          else (s, error lnr_enomem, [])
        else (s, error lnr_enomem, [])

unfoldable pub add_headers : List (Bytes × Bytes) → List (Bytes × Bytes) → List (Bytes × Bytes)
add_headers [] m = m
add_headers ((k, v) ∷ kvs) m = add_headers kvs (modify k [] (λ old. v) m)

unfoldable pub read_challenge : Option Bytes → Authenticate → Authenticate
read_challenge none c = blank unused
read_challenge (some v) c = record (Authenticate.read v) {
  nc = (if ltb 65533 c.nc then 0 else c.nc) + 1;
}

-- `WSSocketImpl::OnConnect` before that of the base class: the handshake's status code, its headers
-- and the WWW-Authenticate among them.
unfoldable pub read_handshake : ℕ → List (Bytes × Bytes) → Option Bytes → SocketImpl → SocketImpl
unfolding read_challenge add_headers
read_handshake code headers challenge s = record s {
  response_context = record {
    code = code;
    headers = add_headers headers s.response_context.headers;
  };
  authenticate_context = read_challenge challenge s.authenticate_context;
}
