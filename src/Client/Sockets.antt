-- ===== src/Client/Sockets.antt =====
-- What a client's new socket is to an application (src/ws_client.cpp and the other clients, with the
-- handles of src/socket.cpp and src/ws_socket.cpp).
use Prim.Native.String.{String}
use mathlib.Core.Option.{get_or}
use linear_cpp.Prelude.{ℕ, ◌≡◌, refl, Option, none, some, [], if◌then◌else◌, Bytes}
use linear_cpp.Prelude.Int.{ℤ, pos}
use linear_cpp.Addrinfo
use linear_cpp.ErrorMap.{lnr_ealready, lnr_enotconn}
use linear_cpp.Error.{error}
use linear_cpp.Group.{Groups}
use linear_cpp.Message.{Message}
use linear_cpp.SocketImpl
use linear_cpp.SocketImpl.{Kind, WsRequestContext, World, disconnected}
use linear_cpp.SocketImpl.Create.{new_client}
use linear_cpp.SocketImpl.Send.{Answers}
use linear_cpp.Socket
use linear_cpp.Socket.Typed.{typed, eq_kind, get_ws_request_context, set_ws_request_context}
use linear_cpp.Client.{ClientImpl, Made, create, create_socket}

module _ {X : Type 0} where
  -- A socket that a client made, with its client.
  abbrev pub made : ClientImpl X → Groups → Option (Made X) → Option World
  made c groups none = none
  made c groups (some m) =
      some (record { sock = m.sock; delegate = some c.delegate; groups = groups })

  -- The handle to a socket that a client made converts to the handle of the client's protocol and to
  -- no other; it has the context of the call, or else that of the client, and what is set in its
  -- place; it has the id and the address that it was given; it is disconnected, so that Disconnect
  -- and Send fail and change nothing.
  pub typed-create_socket :
      (tv : String → ℤ) (request : Option WsRequestContext) (ssl : Option X) (r4 r6 : ℤ)
      (hostname : Bytes) (port : ℤ) (id : ℕ) (c : ClientImpl X) (groups : Groups) (kind : Kind)
      (context default : WsRequestContext) (m : Message) (timeout : ℤ) (a : Answers)
      → let h = made c groups (create_socket request ssl r4 r6 hostname port id (some c)) in
        (typed kind h ≡ (if eq_kind c.kind kind then some h else none))
        × (get_ws_request_context default h ≡ get_or request c.request_context)
        × (get_ws_request_context default (set_ws_request_context context h) ≡ context)
        × (Socket.get_id h ≡ pos id)
        × (Socket.get_peer_info h ≡ Addrinfo.resolve r4 r6 hostname port)
        × (Socket.get_state h ≡ disconnected)
        × (Socket.disconnect h ≡ (h, error lnr_ealready, []))
        × (Socket.send tv m timeout a h ≡ (h, error lnr_enotconn, []))
  unfolding create_socket create new_client typed get_ws_request_context set_ws_request_context
      Socket.get_type Socket.get_id Socket.get_peer_info Socket.get_state Socket.disconnect
      Socket.send SocketImpl.Connect.disconnect SocketImpl.Send.send
      SocketImpl.Create.set_max_buffer_size SocketImpl.Connect.set_max_send_buffer_size
  typed-create_socket tv request ssl r4 r6 hostname port id c groups kind context default m timeout
        a =
      (refl, refl, refl, refl, refl, refl, refl, refl)
