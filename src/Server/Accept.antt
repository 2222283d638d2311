-- ===== src/Server/Accept.antt =====
-- `OnAccept` of src/tcp_server_impl.cpp and src/ssl_server_impl.cpp.
use Prim.Native.String.{String}
use linear_cpp.Prelude.{
  ℕ, Bool, true, false, not, ◌||◌, List, [], ◌++◌, map, Option, none, some, if◌then◌else◌, codes,
}
use linear_cpp.Prelude.Int.{ℤ, pos, nonzero}
use linear_cpp.ErrorMap.{lnr_ok, lnr_enospc}
use linear_cpp.Error.{Error, error, eq_error, ne_error}
use linear_cpp.Addrinfo.{SockAddr}
use linear_cpp.Auth.Header.{unused}
use linear_cpp.Group
use linear_cpp.Group.{Groups, broadcast_group}
use linear_cpp.HandlerDelegate
use linear_cpp.HandlerDelegate.{HandlerDelegate}
use linear_cpp.SocketImpl.{SocketImpl, WsRequestContext, Action, calls}
use linear_cpp.SocketImpl.Connect.{disconnect}
use linear_cpp.SocketImpl.Create.{new_server}
use linear_cpp.SocketImpl.Events.{start_read}
use linear_cpp.Server.{State, stop, start, ServerImpl}

-- What libtv reports with an accepted connection, and the answers that the new socket gets: the id
-- that the counter of `Id()` gives, its addresses, and the result of tv_read_start.
pub record Accepted : Type 0 where
  pub status : ℤ
  pub has_stream : Bool
  pub allocated : Bool
  pub id : ℕ
  pub self : Option SockAddr
  pub peer : Option SockAddr
  pub read_status : ℤ

-- The server, the groups, the new socket if it lives on, and what was done.
pub record Outcome : Type 0 where
  pub srv : ServerImpl
  pub groups : Groups
  pub sock : Option SocketImpl
  pub actions : List Action

-- `WSRequestContext()`.
abbrev pub default_context : WsRequestContext
default_context = record {
  path = codes "/";
  query = [];
  headers = [];
  auth_type = unused;
  username = [];
  password = [];
}

abbrev pub unchanged : ServerImpl → Groups → Outcome
unchanged srv groups = record { srv = srv; groups = groups; sock = none; actions = [] }

abbrev pub is_stopped : State → Bool
is_stopped stop = true
is_stopped start = false

-- The guards before the `try`.
abbrev pub refuses : Accepted → ServerImpl → Bool
refuses a srv = is_stopped srv.state || (nonzero a.status || not a.has_stream)

-- Behind `Retain`. A socket without room is closed, and dies.
unfoldable pub admit : Error → SocketImpl → List Action → ServerImpl → Groups → Outcome
admit e s actions srv groups =
    let (s', _, closing) = disconnect false s in
    if eq_error e (error lnr_enospc)
    then record { srv = srv; groups = groups; sock = none; actions = actions ++ closing }
    else record {
      srv = srv;
      groups = Group.join broadcast_group s.id groups;
      sock = some s;
      actions = actions ++ map calls (HandlerDelegate.connected s.id srv.delegate);
    }

module _ (tv : String → ℤ) where
  -- The body of the `try`. Where StartRead fails the socket dies: `~SocketImpl` disconnects it.
  unfoldable pub take_in : Accepted → ServerImpl → Groups → Outcome
  unfolding admit
  take_in a srv groups =
      let (s, limits) = new_server srv.kind (pos a.id) default_context a.self a.peer in
      let (e, reading) = start_read tv a.read_status in
      let (d, retained) = HandlerDelegate.retain s.id srv.delegate in
      let (s', _, closing) = disconnect false s in
      if ne_error e (error lnr_ok)
      then record {
        srv = srv;
        groups = groups;
        sock = none;
        actions = limits ++ (reading ++ closing);
      }
      else admit retained s (limits ++ reading) (record srv { delegate = d }) groups

  -- `OnAccept`.
  unfoldable pub on_accept : Accepted → ServerImpl → Groups → Outcome
  unfolding take_in
  on_accept a srv groups =
      let outcome = take_in a srv groups in
      if refuses a srv
      then unchanged srv groups
      else if a.allocated
      then outcome
      else unchanged srv groups
