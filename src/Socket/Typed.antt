-- ===== src/Socket/Typed.antt =====
-- The handles of each protocol: src/tcp_socket.cpp, src/ssl_socket.cpp, src/ws_socket.cpp and
-- src/wss_socket.cpp.
use Prim.Native.String.{String}
use linear_cpp.Prelude.{ℕ, Bool, true, false, Option, none, some, if◌then◌else◌}
use linear_cpp.Prelude.Int.{ℤ}
use linear_cpp.ErrorMap.{lnr_ebadf}
use linear_cpp.Error.{Error, error}
use linear_cpp.SocketImpl.{
  Kind, nil, tcp, ssl, ws, wss, WsRequestContext, WsResponseContext, SocketImpl, World,
}
use linear_cpp.SocketImpl.Secure
use linear_cpp.Socket.{get_type}

-- `==` of two types.
abbrev pub eq_kind : Kind → Kind → Bool
eq_kind nil nil = true
eq_kind tcp tcp = true
eq_kind ssl ssl = true
eq_kind ws ws = true
eq_kind wss wss = true
eq_kind _ _ = false

-- `TCPSocket(socket)` and the like, of the type given; `none` is a `bad_cast`.
unfoldable pub typed : Kind → Option World → Option (Option World)
typed kind h = if eq_kind (get_type h) kind then some h else none

-- `GetWSRequestContext` and `GetWSResponseContext`, with what the default constructor gives.
unfoldable pub get_ws_request_context : WsRequestContext → Option World → WsRequestContext
get_ws_request_context default none = default
get_ws_request_context default (some w) = w.sock.request_context

unfoldable pub get_ws_response_context : WsResponseContext → Option World → WsResponseContext
get_ws_response_context default none = default
get_ws_response_context default (some w) = w.sock.response_context

with_sock : (SocketImpl → SocketImpl) → Option World → Option World
with_sock f none = none
with_sock f (some w) = some (record w { sock = f w.sock })

unfoldable pub set_ws_request_context : WsRequestContext → Option World → Option World
unfolding with_sock
set_ws_request_context c h = with_sock (λ s. record s { request_context = c }) h

unfoldable pub set_ws_response_context : WsResponseContext → Option World → Option World
unfolding with_sock
set_ws_response_context c h = with_sock (λ s. record s { response_context = c }) h

-- `GetVerifyResult`.
unfoldable pub get_verify_result : (String → ℤ) → ℤ → ℕ → Option World → Error
get_verify_result tv status ssl_error none = error lnr_ebadf
get_verify_result tv status ssl_error (some w) = Secure.get_verify_result tv status ssl_error w.sock

module _ {X : Type 0} where
  -- `PresentPeerCertificate`.
  unfoldable pub present_peer_certificate : Option X → Option World → Bool
  present_peer_certificate x none = false
  present_peer_certificate x (some w) = Secure.present_peer_certificate x w.sock

  -- `GetPeerCertificate`, with an empty certificate; `none` is a `runtime_error`.
  unfoldable pub get_peer_certificate : X → Option X → Option World → Option X
  get_peer_certificate empty x none = some empty
  get_peer_certificate empty x (some w) = Secure.get_peer_certificate x w.sock
