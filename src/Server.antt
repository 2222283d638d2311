-- ===== src/Server.antt =====
-- src/server.cpp, src/server_impl.h and the servers of the four protocols (src/tcp_server_impl.cpp,
-- src/ssl_server_impl.cpp, src/ws_server_impl.cpp, src/wss_server_impl.cpp): their state, how they
-- start and how they stop. A server's lock covers each method, so a method is one step.
pub mod Accept
pub mod Draw
pub mod WebSocket
pub mod Challenge
pub mod Arrival
pub mod Judging
pub mod Login
pub mod Refusal
pub mod Handshake
pub mod Keeping
pub mod Headers
pub mod Dying
pub mod Opening
pub mod Lifecycle
pub mod Admission
pub mod Run
use Prim.Native.String.{String}
use linear_cpp.Prelude.{ℕ, Bool, List, [], ◌∷◌, Option, none, some, if◌then◌else◌, Bytes}
use linear_cpp.Prelude.Int.{ℤ, nonzero}
use linear_cpp.ErrorMap.{lnr_ok, lnr_einval, lnr_ealready, lnr_enomem, lnr_eaddrnotavail}
use linear_cpp.Error.{Error, error, from_status}
use linear_cpp.Addrinfo
use linear_cpp.Addrinfo.{Addrinfo, is_unknown}
use linear_cpp.Auth.Header.{AuthType, unused}
use linear_cpp.NoncePool.{Nonce}
use linear_cpp.SocketPool
use linear_cpp.Group.{Groups}
use linear_cpp.HandlerDelegate
use linear_cpp.HandlerDelegate.{HandlerDelegate, server}
use linear_cpp.SocketImpl.{Kind}

-- `ServerImpl::State`.
pub data State : Type 0 where
  stop start : State

-- A `ServerImpl`. The last three fields are those of `WSServerImpl` and `WSSServerImpl`.
pub record ServerImpl : Type 0 where
  pub delegate : HandlerDelegate
  pub kind : Kind
  pub state : State
  pub self : Addrinfo
  pub nonce_pool : List Nonce
  pub auth_type : AuthType
  pub realm : Bytes

-- The constructors.
unfoldable pub new : Bool → Kind → AuthType → Bytes → ServerImpl
new handler_alive kind auth_type realm = record {
  delegate = record { owner = server; handler_alive = handler_alive; pool = SocketPool.new };
  kind = kind;
  state = stop;
  self = Addrinfo.undefined;
  nonce_pool = [];
  auth_type = auth_type;
  realm = realm;
}

-- `UseAuthentication` of the WebSocket servers.
unfoldable pub use_authentication : AuthType → Bytes → ServerImpl → ServerImpl
use_authentication auth_type realm srv = record srv { auth_type = auth_type; realm = realm }

-- What a server does to its listening handle.
pub data HandleAction : Type 0 where
  listens closes : HandleAction

-- The answers that a start gets: of getaddrinfo for the two families, of malloc, of tv_tcp_init or
-- its like, and of tv_listen.
pub record StartAnswers : Type 0 where
  pub resolved_4 : ℤ
  pub resolved_6 : ℤ
  pub allocated : Bool
  pub init_status : ℤ
  pub listen_status : ℤ

module _ (tv : String → ℤ) where
  unfoldable pub start_handle : StartAnswers → ServerImpl → ServerImpl × Error × List HandleAction
  start_handle a srv =
      if a.allocated
      then if nonzero a.init_status
        then (srv, from_status tv a.init_status, [])
        else if nonzero a.listen_status
        then (srv, from_status tv a.listen_status, [])
        else (record srv { state = start }, error lnr_ok, listens ∷ [])
      else (srv, error lnr_enomem, [])

  unfoldable pub start_state :
      State → StartAnswers → Bytes → ℤ → ServerImpl → ServerImpl × Error × List HandleAction
  unfolding start_handle
  start_state start a hostname port srv = (srv, error lnr_ealready, [])
  start_state stop a hostname port srv =
      let self = Addrinfo.resolve a.resolved_4 a.resolved_6 hostname port in
      let srv' = record srv { self = self } in
      if is_unknown self.proto then (srv', error lnr_eaddrnotavail, []) else start_handle a srv'

  -- `ServerImpl::Start`.
  unfoldable pub start_server :
      StartAnswers → Bytes → ℤ → ServerImpl → ServerImpl × Error × List HandleAction
  unfolding start_state
  start_server a hostname port srv = start_state srv.state a hostname port srv

  -- `Server::Start`, whether the event can be allocated; `none` is a server without an
  -- implementation.
  unfoldable pub start_facade :
      Bool
      → StartAnswers
      → Bytes
      → ℤ
      → Option ServerImpl
      → Option ServerImpl × Error × List HandleAction
  start_facade allocated a host port none = (none, error lnr_einval, [])
  start_facade allocated a host port (some srv) =
      let (srv', e, actions) = start_server a host port srv in
      if allocated then (some srv', e, actions) else (some srv, error lnr_enomem, [])

unfoldable pub stop_state :
    State → ServerImpl → Groups → ServerImpl × Groups × Error × List HandleAction
stop_state stop srv groups = (srv, groups, error lnr_ealready, [])
stop_state start srv groups =
    let (pool, groups') = SocketPool.clear srv.delegate.pool groups in
    (
      record srv { state = stop; delegate = record (srv.delegate) { pool = pool } },
      groups',
      error lnr_ok,
      closes ∷ [],
    )

-- `ServerImpl::Stop`, which the destructors call too.
unfoldable pub stop_server : ServerImpl → Groups → ServerImpl × Groups × Error × List HandleAction
unfolding stop_state
stop_server srv groups = stop_state srv.state srv groups

-- `Server::Stop`.
unfoldable pub stop_facade :
    Option ServerImpl → Groups → Option ServerImpl × Groups × Error × List HandleAction
stop_facade none groups = (none, groups, error lnr_ealready, [])
stop_facade (some srv) groups =
    let (srv', groups', e, actions) = stop_server srv groups in (some srv', groups', e, actions)

-- `Server::SetMaxClients`.
unfoldable pub set_max_clients : ℕ → Option ServerImpl → Option ServerImpl × Error
set_max_clients max_clients none = (none, error lnr_einval)
set_max_clients max_clients (some srv) = (
  some (record srv { delegate = HandlerDelegate.set_max_limit max_clients srv.delegate }),
  error lnr_ok,
)

-- `ServerImpl::Release`, which a socket calls when it closes: the groups, then the pool.
unfoldable pub release : ℤ → ServerImpl → Groups → ServerImpl × Groups
release socket srv groups =
    let (d, groups') = HandlerDelegate.release socket srv.delegate groups in
    (record srv { delegate = d }, groups')
