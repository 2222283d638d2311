-- ===== src/Socket.antt =====
-- src/socket.cpp: the handle that an application holds, which may refer to no socket. The socket
-- that a handle refers to is passed with its client or server, as a `World`.
pub mod Typed
use Prim.Native.String.{String}
use linear_cpp.Prelude.{ℕ, Bool, false, List, [], Option, none, some, if◌then◌else◌, Bytes}
use linear_cpp.Prelude.Int.{ℤ, negsuc, eq_ℤ}
use linear_cpp.Ordered.{lt_ℤ}
use linear_cpp.ErrorMap.{lnr_ok, lnr_ebadf, lnr_enomem}
use linear_cpp.Error.{Error, error}
use linear_cpp.Addrinfo
use linear_cpp.Addrinfo.{Addrinfo}
use linear_cpp.Message.{Message}
use linear_cpp.SocketImpl
use linear_cpp.SocketImpl.{State, disconnected, Kind, nil, SocketImpl, World, Action}
use linear_cpp.SocketImpl.Send.{Answers}
use linear_cpp.SocketImpl.Connect.{ConnectAnswers}
use linear_cpp.SocketImpl.Create.{KeepAliveType}

unfoldable pub get_id : Option World → ℤ
get_id none = negsuc 0
get_id (some w) = w.sock.id

unfoldable pub get_type : Option World → Kind
get_type none = nil
get_type (some w) = w.sock.kind

unfoldable pub get_state : Option World → State
get_state none = disconnected
get_state (some w) = w.sock.state

unfoldable pub get_self_info : Option World → Addrinfo
get_self_info none = Addrinfo.undefined
get_self_info (some w) = w.sock.self

unfoldable pub get_peer_info : Option World → Addrinfo
get_peer_info none = Addrinfo.undefined
get_peer_info (some w) = w.sock.peer

-- `operator==` and `operator<`.
unfoldable pub eq_socket : Option World → Option World → Bool
eq_socket a b = eq_ℤ (get_id a) (get_id b)

unfoldable pub lt_socket : Option World → Option World → Bool
lt_socket a b = lt_ℤ (get_id a) (get_id b)

abbrev Reply : Type 0
Reply = Option World × Error × List Action

on_sock : World → SocketImpl × Error × List Action → Reply
on_sock w (s, e, actions) = (some (record w { sock = s }), e, actions)

on_world : World × Error × List Action → Reply
on_world (w, e, actions) = (some w, e, actions)

unfoldable pub set_max_buffer_size : ℕ → Option World → Reply
unfolding on_sock
set_max_buffer_size limit none = (none, error lnr_ebadf, [])
set_max_buffer_size limit (some w) =
    let (s, actions) = SocketImpl.Create.set_max_buffer_size limit w.sock in
    on_sock w (s, error lnr_ok, actions)

unfoldable pub set_max_send_buffer_size : ℕ → Option World → Reply
unfolding on_sock
set_max_send_buffer_size limit none = (none, error lnr_ebadf, [])
set_max_send_buffer_size limit (some w) =
    let (s, actions) = SocketImpl.Connect.set_max_send_buffer_size limit w.sock in
    on_sock w (s, error lnr_ok, actions)

unfoldable pub set_max_recv_buffer_size : ℕ → Option World → Reply
unfolding on_sock
set_max_recv_buffer_size limit none = (none, error lnr_ebadf, [])
set_max_recv_buffer_size limit (some w) =
    on_sock w (SocketImpl.Create.set_max_recv_buffer_size limit w.sock, error lnr_ok, [])

unfoldable pub disconnect : Option World → Reply
unfolding on_sock
disconnect none = (none, error lnr_ebadf, [])
disconnect (some w) = on_sock w (SocketImpl.Connect.disconnect false w.sock)

unfoldable pub bind_to_device : Bytes → Option World → Reply
unfolding on_sock
bind_to_device ifname none = (none, error lnr_ebadf, [])
bind_to_device ifname (some w) =
    let (s, e) = SocketImpl.Create.bind_to_device ifname w.sock in on_sock w (s, e, [])

unfoldable pub set_sock_opt : ℤ → Option World → Error
set_sock_opt status none = error lnr_ebadf
set_sock_opt status (some w) = SocketImpl.Create.set_sock_opt status w.sock

module _ (tv : String → ℤ) where
  unfoldable pub keep_alive : KeepAliveType → ℤ → ℤ → ℤ → Option World → Error
  keep_alive type ws_status tcp_status user_timeout_status none = error lnr_ebadf
  keep_alive type ws_status tcp_status user_timeout_status (some w) =
      SocketImpl.Create.keep_alive tv type ws_status tcp_status user_timeout_status w.sock

  unfoldable pub send : Message → ℤ → Answers → Option World → Reply
  unfolding on_sock
  send m timeout a none = (none, error lnr_ebadf, [])
  send m timeout a (some w) = on_sock w (SocketImpl.Send.send tv m timeout a w.sock)

  -- `Connect`, if the event for it can be allocated. Of what is thrown behind the allocation the
  -- models of `Connect` and `Start` make an error of their own.
  unfoldable pub connect :
      (SocketImpl → SocketImpl × Error × List Action)
      → Bool
      → ℕ
      → ConnectAnswers
      → Option World
      → Reply
  unfolding on_world
  connect open_stream allocated timeout a none = (none, error lnr_ebadf, [])
  connect open_stream allocated timeout a (some w) =
      if allocated
      then on_world (SocketImpl.Connect.connect tv open_stream timeout a w)
      else (some w, error lnr_enomem, [])
