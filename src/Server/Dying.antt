-- ===== src/Server/Dying.antt =====
-- What the end of a new socket of a server does (`SocketImpl::~SocketImpl` of src/socket_impl.cpp).
use linear_cpp.Prelude.{
  ◌≡◌, ◌⊎◌, inl, inr, refl, Bool, true, false, [], ◌∷◌, Option, none, some, if◌then◌else◌,
}
use linear_cpp.Prelude.Int.{ℤ}
use linear_cpp.Addrinfo.{SockAddr}
use linear_cpp.Timer
use linear_cpp.SocketImpl.{
  State, disconnecting, disconnected, connecting, connected, Kind, WsRequestContext, SocketImpl,
  closes,
}
use linear_cpp.SocketImpl.Connect.{
  set_max_send_buffer_size, stop_connect_timer, disconnect_state, disconnect,
}
use linear_cpp.SocketImpl.Create.{
  set_max_buffer_size, set_max_recv_buffer_size, with_peer, new_server,
}
use linear_cpp.SocketImpl.Events.{with_self, is_web}

by_kind :
    (b : Bool)
    → ((if b then connecting else connected) ≡ connecting)
      ⊎ ((if b then connecting else connected) ≡ connected)
by_kind true = inl refl
by_kind false = inr refl

-- A new socket is open, and its end closes the stream and no more.
open-new_server :
    (kind : Kind) (id : ℤ) (context : WsRequestContext) (self peer : Option SockAddr)
    → let s = (new_server kind id context self peer).0 in
      ((s.state ≡ connecting) ⊎ (s.state ≡ connected)) × (s.connect_timer ≡ Timer.new)
unfolding new_server set_max_buffer_size set_max_recv_buffer_size set_max_send_buffer_size with_peer
    with_self
open-new_server kind id context none none = (by_kind (is_web kind), refl)
open-new_server kind id context none (some peer) = (by_kind (is_web kind), refl)
open-new_server kind id context (some self) none = (by_kind (is_web kind), refl)
open-new_server kind id context (some self) (some peer) = (by_kind (is_web kind), refl)

closes-open :
    (st : State) (s : SocketImpl)
    → (st ≡ connecting) ⊎ (st ≡ connected)
    → s.connect_timer ≡ Timer.new
    → (disconnect_state st s).2 ≡ closes ∷ []
unfolding disconnect_state stop_connect_timer Timer.stop Timer.stop_state Timer.new
closes-open disconnecting s (inl e) t = cc
closes-open disconnecting s (inr e) t = cc
closes-open disconnected s (inl e) t = cc
closes-open disconnected s (inr e) t = cc
closes-open connecting s h t = rw t refl
closes-open connected s h t = rw t refl

pub closing-new_server :
    (kind : Kind) (id : ℤ) (context : WsRequestContext) (self peer : Option SockAddr)
    → (disconnect false (new_server kind id context self peer).0).2 ≡ closes ∷ []
unfolding disconnect
closing-new_server kind id context self peer =
    let s = (new_server kind id context self peer).0 in
    let is_open = open-new_server kind id context self peer in
    closes-open s.state (record s { handshaking = false }) is_open.0 is_open.1
