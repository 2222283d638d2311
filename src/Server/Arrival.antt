-- ===== src/Server/Arrival.antt =====
-- How far a connection to a WebSocket server gets (`OnAccept` of src/ws_server_impl.cpp and
-- src/wss_server_impl.cpp): it is taken by libtv and there is room for it, or not.
use Prim.Native.String.{String}
use linear_cpp.Prelude.{
  ℕ, ◌≡◌, refl, Bool, true, false, List, ◌++◌, Option, none, some, if_yes, if_no, Bytes,
}
use linear_cpp.Prelude.Int.{ℤ, pos, nonzero}
use linear_cpp.ErrorMap.{lnr_ok, lnr_enospc}
use linear_cpp.Error.{error, eq_error, ne_error}
use linear_cpp.Addrinfo.{SockAddr}
use linear_cpp.Timer.{Answers}
use linear_cpp.Group.{Groups}
use linear_cpp.HandlerDelegate
use linear_cpp.SocketImpl
use linear_cpp.SocketImpl.{SocketImpl, Kind, WsRequestContext}
use linear_cpp.SocketImpl.Create.{new_server}
use linear_cpp.SocketImpl.Events.{start_read, with_self}
use linear_cpp.Server.{ServerImpl}
use linear_cpp.Server.Accept.{Accepted, refuses, default_context}
use linear_cpp.Server.WebSocket.{
  Handshake, Response, Outcome, begun, context, admit, take_in, on_accept,
}

-- The server is started and libtv took the connection and its handshake.
pub record IsHeard (a : Accepted) (h : Handshake) (srv : ServerImpl) : Type 0 where
  pub heard : refuses a srv ≡ false
  pub allocated : a.allocated ≡ true
  pub reads : nonzero a.read_status ≡ false
  pub successful : h.successful ≡ true

-- And there is room for it.
pub record IsTaken (a : Accepted) (h : Handshake) (srv : ServerImpl) : Type 0 where
  pub is_heard : IsHeard a h srv
  pub room : eq_error (HandlerDelegate.retain (pos a.id) srv.delegate).1 (error lnr_enospc) ≡ false

pub id-new_server :
    (kind : Kind) (id : ℤ) (context : WsRequestContext) (self peer : Option SockAddr)
    → (new_server kind id context self peer).0.id ≡ id
unfolding new_server SocketImpl.Create.set_max_buffer_size
    SocketImpl.Create.set_max_recv_buffer_size SocketImpl.Connect.set_max_send_buffer_size
    SocketImpl.Create.with_peer with_self
id-new_server kind id context none none = refl
id-new_server kind id context none (some peer) = refl
id-new_server kind id context (some self) none = refl
id-new_server kind id context (some self) (some peer) = refl

pub reads-start_read :
    (tv : String → ℤ) (status : ℤ)
    → nonzero status ≡ false
    → ne_error (start_read tv status).0 (error lnr_ok) ≡ false
unfolding start_read
reads-start_read tv status h = rw h refl

-- The socket of an accepted connection, and the outcome when it is in the server's pool.
abbrev pub accepted_socket : Accepted → ServerImpl → SocketImpl
accepted_socket a srv = (new_server srv.kind (pos a.id) default_context a.self a.peer).0

abbrev pub entered : (String → ℤ) → Accepted → Response → ServerImpl → Groups → Outcome
entered tv a r srv groups =
    let (s, limits) = new_server srv.kind (pos a.id) default_context a.self a.peer in
    record (begun r srv groups) {
      srv = record srv { delegate = (HandlerDelegate.retain s.id srv.delegate).0 };
      sock = some s;
      actions = limits ++ (start_read tv a.read_status).1;
    }

pub room-retain :
    (a : Accepted) (h : Handshake) (srv : ServerImpl)
    → IsTaken a h srv
    → eq_error (HandlerDelegate.retain (accepted_socket a srv).id srv.delegate).1 (error lnr_enospc)
      ≡ false
room-retain a h srv taken =
    rw (id-new_server srv.kind (pos a.id) default_context a.self a.peer) taken.room

module _ (stores : Bytes → Bytes → Bool) (tv : String → ℤ) (random : ℕ → Option Bytes)
    (answers : ℕ → Answers) (next_id : ℕ) (from_base64 : Bytes → Option Bytes)
    (finds : Bytes → List (Bytes × Bytes) → Option Bytes) (during : SocketImpl → SocketImpl)
    (fuel : ℕ) where
  -- Where a connection that libtv took is admitted, if there is room or not.
  pub on_accept-admits :
      (P : Outcome → Type 0) (a : Accepted) (memory : Bool) (h : Handshake) (r : Response)
      (srv : ServerImpl) (groups : Groups)
      → IsHeard a h srv
      → P (
          admit stores tv random answers next_id from_base64 finds during fuel
            (HandlerDelegate.retain (accepted_socket a srv).id srv.delegate).1
            memory
            h
            (accepted_socket a srv)
            (entered tv a r srv groups))
      → P (
          on_accept stores tv random answers next_id from_base64 finds during fuel a memory h r srv
            groups)
  unfolding on_accept take_in
  on_accept-admits P a memory h r srv groups heard q = if_no P _ _ _ heard.heard (
      if_yes P _ _ _ heard.allocated (
        if_no P _ _ _ (reads-start_read tv a.read_status heard.reads)
          (if_yes P _ _ _ heard.successful q)))
