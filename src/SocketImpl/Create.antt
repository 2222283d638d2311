-- ===== src/SocketImpl/Create.antt =====
-- The constructors of src/socket_impl.cpp and the setting of options.
use Prim.Native.String.{String}
use linear_cpp.Prelude.{
  ℕ, Bool, true, false, ◌&&◌, List, [], Option, none, some, if◌then◌else◌, Bytes,
}
use linear_cpp.Prelude.Int.{ℤ, nonzero}
use linear_cpp.ErrorMap.{lnr_ok, lnr_einval, lnr_enotconn}
use linear_cpp.Error.{Error, error, from_status}
use linear_cpp.Addrinfo
use linear_cpp.Addrinfo.{Addrinfo, SockAddr}
use linear_cpp.Auth.Header.{unused}
use linear_cpp.Auth.Authenticate.{blank}
use linear_cpp.Timer
use linear_cpp.SocketImpl.{
  State, disconnecting, disconnected, connecting, connected, Kind, WsRequestContext, SocketImpl,
  Action, default_max_buffer_size,
}
use linear_cpp.SocketImpl.Connect.{set_max_send_buffer_size}
use linear_cpp.SocketImpl.Events.{is_web, with_self}

unfoldable pub set_max_recv_buffer_size : ℕ → SocketImpl → SocketImpl
set_max_recv_buffer_size limit s = record s { max_recv_buffer_size = limit }

unfoldable pub set_max_buffer_size : ℕ → SocketImpl → SocketImpl × List Action
unfolding set_max_recv_buffer_size
set_max_buffer_size limit s =
    let (s', actions) = set_max_send_buffer_size limit s in
    (set_max_recv_buffer_size limit s', actions)

-- The fields that both constructors give the same value, with the id that `Id()` gives.
abbrev blank_socket : Kind → ℤ → WsRequestContext → SocketImpl
blank_socket kind id request = record {
  state = disconnected;
  has_stream = false;
  self = Addrinfo.undefined;
  peer = Addrinfo.undefined;
  bind_ifname = [];
  kind = kind;
  id = id;
  connectable = false;
  handshaking = false;
  last_error = error lnr_ok;
  connect_timeout = 0;
  connect_timer = Timer.new;
  pending_messages = [];
  request_timers = [];
  max_send_buffer_size = 0;
  max_recv_buffer_size = 0;
  request_context = request;
  response_context = record { code = 101; headers = [] };
  authenticate_context = blank unused;
}

-- The constructor of a client's socket, with `Addrinfo(host, port)`.
unfoldable pub new_client : Kind → ℤ → WsRequestContext → Addrinfo → SocketImpl × List Action
new_client kind id request peer =
    set_max_buffer_size default_max_buffer_size
      (record (blank_socket kind id request) { peer = peer; connectable = true })

unfoldable pub with_peer : Option SockAddr → SocketImpl → SocketImpl
with_peer none s = s
with_peer (some sa) s = record s { peer = Addrinfo.from_sockaddr sa }

-- The constructor of a server's socket, with what tv_getsockname and tv_getpeername give.
unfoldable pub new_server :
    Kind → ℤ → WsRequestContext → Option SockAddr → Option SockAddr → SocketImpl × List Action
unfolding with_peer
new_server kind id request self peer = set_max_buffer_size default_max_buffer_size (
    with_peer peer (
      with_self self (record (blank_socket kind id request) {
        has_stream = true;
        handshaking = is_web kind;
        state = if is_web kind then connecting else connected;
      })))

-- `BindToDevice`.
unfoldable pub bind_to_device : Bytes → SocketImpl → SocketImpl × Error
bind_to_device ifname s = (record s { bind_ifname = ifname }, error lnr_ok)

-- `Socket::KeepAliveType`.
pub data KeepAliveType : Type 0 where
  keepalive_tcp keepalive_ws : KeepAliveType

abbrev is_ws_keepalive : KeepAliveType → Bool
is_ws_keepalive keepalive_ws = true
is_ws_keepalive keepalive_tcp = false

module _ (tv : String → ℤ) where
  keep_alive_open : KeepAliveType → ℤ → ℤ → ℤ → SocketImpl → Error
  keep_alive_open type ws_status tcp_status user_timeout_status s =
      if is_ws_keepalive type && is_web s.kind
      then from_status tv ws_status
      else if nonzero tcp_status
      then from_status tv tcp_status
      else from_status tv user_timeout_status

  keep_alive_state : State → KeepAliveType → ℤ → ℤ → ℤ → SocketImpl → Error
  unfolding keep_alive_open
  keep_alive_state disconnecting type ws_status tcp_status user_timeout_status s =
      error lnr_enotconn
  keep_alive_state disconnected type ws_status tcp_status user_timeout_status s = error lnr_enotconn
  keep_alive_state _ type ws_status tcp_status user_timeout_status s =
      keep_alive_open type ws_status tcp_status user_timeout_status s

  -- `KeepAlive`, with what tv_ws_keepalive, tv_keepalive and tv_setsockopt (TCP_USER_TIMEOUT, on
  -- a system that has it) return.
  unfoldable pub keep_alive : KeepAliveType → ℤ → ℤ → ℤ → SocketImpl → Error
  unfolding keep_alive_state
  keep_alive type ws_status tcp_status user_timeout_status s =
      keep_alive_state s.state type ws_status tcp_status user_timeout_status s

set_sock_opt_state : State → ℤ → Error
set_sock_opt_state disconnecting status = error lnr_enotconn
set_sock_opt_state disconnected status = error lnr_enotconn
set_sock_opt_state _ status = if nonzero status then error lnr_einval else error lnr_ok

-- `SetSockOpt`, with what tv_setsockopt returns.
unfoldable pub set_sock_opt : ℤ → SocketImpl → Error
unfolding set_sock_opt_state
set_sock_opt status s = set_sock_opt_state s.state status
