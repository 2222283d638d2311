-- ===== src/SocketImpl/Secure.antt =====
-- The sockets over SSL: src/ssl_socket_impl.cpp and src/wss_socket_impl.cpp.
pub mod Agreement
use Prim.Native.String.{String}
use linear_cpp.Prelude.{
  ℕ, Bool, true, false, ◌||◌, List, [], Option, none, some, if◌then◌else◌, Bytes, codes,
}
use linear_cpp.Prelude.Int.{ℤ, nonzero}
use linear_cpp.Ordered.{bytes_order}
use linear_cpp.Ordered.Map.{erase}
use linear_cpp.ErrorMap.{lnr_ok, lnr_enomem, lnr_enotconn}
use linear_cpp.Error.{Error, error, from_status}
use linear_cpp.Auth.Header.{unused, basic, digest, unknown, eq_type}
use linear_cpp.Auth.Authenticate.{Authenticate, create_authorization_header}
use linear_cpp.SocketImpl.{
  State, disconnecting, disconnected, connecting, connected, SocketImpl, WsRequestContext, Action,
}
use linear_cpp.SocketImpl.Open.{
  StreamAnswers, bind_fails, start_connect, with_prefix, with_authorization, connect_prepared,
}

-- `state_` is CONNECTED or CONNECTING.
abbrev pub is_open : State → Bool
is_open connecting = true
is_open connected = true
is_open _ = false

module _ (tv : String → ℤ) where
  -- `SSLSocketImpl::Connect`.
  unfoldable pub ssl_connect : StreamAnswers → SocketImpl → SocketImpl × Error × List Action
  unfolding start_connect
  ssl_connect a s =
      let s' = record s { has_stream = true } in
      if a.allocated
      then if nonzero a.init_status
        then (s', from_status tv a.init_status, [])
        else if bind_fails a s
        then (s', from_status tv a.bind_status, [])
        else start_connect tv a s'
      else (record s { has_stream = false }, error lnr_enomem, [])

  -- `GetVerifyResult` of both classes, with the result of tv_ssl_get_verify_result and the SSL error
  -- of the stream.
  unfoldable pub get_verify_result : ℤ → ℕ → SocketImpl → Error
  get_verify_result status ssl_error s =
      if is_open s.state
      then if nonzero status
        then record (from_status tv status) { detail_code = ssl_error }
        else error lnr_ok
      else error lnr_enotconn

module _ {X : Type 0} where
  -- `PresentPeerCertificate`, with what tv_ssl_get_peer_certificate gives.
  unfoldable pub present_peer_certificate : Option X → SocketImpl → Bool
  present_peer_certificate none s = false
  present_peer_certificate (some x) s = is_open s.state

  -- `GetPeerCertificate`; `none` is a `runtime_error`.
  unfoldable pub get_peer_certificate : Option X → SocketImpl → Option X
  get_peer_certificate x s = if is_open s.state then x else none

module _ (md5sum to_base64 : Bytes → Option Bytes) (random : Option Bytes) where
  -- The part of `WSSSocketImpl::Connect` on the two contexts.
  unfoldable pub wss_authorize : Authenticate → WsRequestContext → WsRequestContext
  wss_authorize c r =
      if eq_type r.auth_type basic || eq_type c.kind digest
      then with_authorization
          (create_authorization_header md5sum to_base64 random c (with_prefix b'/' r.path)
            r.username r.password)
          r
      else if eq_type c.kind unused || eq_type c.kind unknown
      then record r { headers = erase (codes "Authorization") r.headers }
      else r

  unfoldable pub wss_prepare : SocketImpl → SocketImpl
  unfolding wss_authorize
  wss_prepare s = record s {
    request_context = wss_authorize s.authenticate_context s.request_context;
  }

  -- `WSSSocketImpl::Connect`.
  unfoldable pub wss_connect :
      (String → ℤ) → StreamAnswers → SocketImpl → SocketImpl × Error × List Action
  unfolding wss_prepare
  wss_connect tv a s =
      if a.allocated
      then if nonzero a.init_status
        then (s, from_status tv a.init_status, [])
        else if a.url_stored
        then if a.headers_stored
          then connect_prepared md5sum to_base64 random tv a (wss_prepare s)
          else (wss_prepare s, error lnr_enomem, [])
        else (s, error lnr_enomem, [])
      else (s, error lnr_enomem, [])
