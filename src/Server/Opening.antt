-- ===== src/Server/Opening.antt =====
-- What the servers make of a connection for which no authentication is asked, and of one for which
-- there is no room (`OnAccept` of src/tcp_server_impl.cpp, src/ssl_server_impl.cpp,
-- src/ws_server_impl.cpp and src/wss_server_impl.cpp).
use Prim.Native.String.{String}
use linear_cpp.Prelude.{
  codes, none, ℕ, ◌≤◌, ◌<◌, ◌≡◌, refl, ap, ◌∙◌, Bool, true, false, not, ◌&&◌, List, [], ◌∷◌, ◌++◌,
  map, Option, some, arith, length, if_yes, if_no, Bytes,
}
use linear_cpp.Prelude.Int.{ℤ, pos, nonzero}
use linear_cpp.ErrorMap.{lnr_enospc}
use linear_cpp.Error.{error, eq_error}
use linear_cpp.Auth.Header.{AuthType, unused, eq_type}
use linear_cpp.Timer.{Answers}
use linear_cpp.Group
use linear_cpp.Group.{Groups, broadcast_group}
use linear_cpp.SocketPool
use linear_cpp.HandlerDelegate
use mathlib.Core.Option.{get_or}
use linear_cpp.Ordered.{bytes_order}
use linear_cpp.Ordered.Map.{find}
use linear_cpp.SocketImpl.Connect.{disconnect}
use linear_cpp.Server.Headers.{
  last_of, find-add_headers, or_none, all_stored, copy_headers-stored, copy_headers-lost,
}
use linear_cpp.Server.Dying.{closing-new_server}
use linear_cpp.SocketImpl.{WsRequestContext, closes, SocketImpl, Action, calls, reads}
use linear_cpp.SocketImpl.Create.{new_server}
use linear_cpp.SocketImpl.Events.{start_read}
use linear_cpp.Server.{ServerImpl}
use linear_cpp.Server.Accept.{Accepted, default_context}
use linear_cpp.Server.WebSocket.{
  Handshake, Response, Outcome, context, answered, announced, respond, open_socket, admit,
  on_accept,
}
use linear_cpp.Server.Arrival.{
  IsHeard, IsTaken, accepted_socket, entered, room-retain, id-new_server, on_accept-admits,
}

-- The pool has reached its limit.
pub record IsFull (p : SocketPool.SocketPool) : Type 0 where
  pub limited : 0 < p.max
  pub reached : p.max ≤ length p.pool

add_full :
    (id : ℕ) (p : SocketPool.SocketPool)
    → IsFull p
    → SocketPool.add (pos id) p ≡ (p, error lnr_enospc)
unfolding SocketPool.add
add_full id p h = ground (arith, h.limited, h.reached)

retain_full :
    (id : ℕ) (srv : ServerImpl)
    → IsFull srv.delegate.pool
    → HandlerDelegate.retain (pos id) srv.delegate ≡ (srv.delegate, error lnr_enospc)
unfolding HandlerDelegate.retain
retain_full id srv h =
    ap (λ r. (record (srv.delegate) { pool = r.0 }, r.1)) (add_full id srv.delegate.pool h)

-- The same of the socket of a connection.
full_retained :
    (a : Accepted) (srv : ServerImpl)
    → IsFull srv.delegate.pool
    → HandlerDelegate.retain (accepted_socket a srv).id srv.delegate
      ≡ (srv.delegate, error lnr_enospc)
full_retained a srv h =
    ap (λ i. HandlerDelegate.retain i srv.delegate)
      (id-new_server srv.kind (pos a.id) default_context a.self a.peer)
    ∙ retain_full a.id srv h

reading :
    (tv : String → ℤ) (status : ℤ) → nonzero status ≡ false → (start_read tv status).1 ≡ reads ∷ []
unfolding start_read
reading tv status h = rw h refl

module _ (stores : Bytes → Bytes → Bool) (tv : String → ℤ) (random : ℕ → Option Bytes)
    (answers : ℕ → Answers) (next_id : ℕ) (from_base64 : Bytes → Option Bytes)
    (finds : Bytes → List (Bytes × Bytes) → Option Bytes) (during : SocketImpl → SocketImpl)
    (fuel : ℕ) where
  -- The socket as the handler leaves it.
  abbrev pub opened : WsRequestContext → SocketImpl → SocketImpl
  opened c s = during (record s { request_context = c })

  -- The new socket has what the handshake brought, with the last of the headers of a name; the handler
  -- was told of it, and it is in the broadcast group; the response has the code that the handler left
  -- and the headers behind those that were there, or the code 500 if one cannot be stored.
  pub record IsOpened (id : ℤ) (h : Handshake) (s : SocketImpl) (o o' : Outcome) : Type 0 where
    pub context : WsRequestContext
    pub same_path : context.path ≡ get_or h.path (codes "/")
    pub same_query : context.query ≡ get_or h.query []
    pub same_headers : (k : Bytes) → find k context.headers ≡ last_of k h.headers
    pub made : o'.sock ≡ some (opened context s)
    pub joined : o'.groups ≡ Group.join broadcast_group id o.groups
    pub told : o'.actions ≡ o.actions ++ map calls (HandlerDelegate.connected id o.srv.delegate)
    pub answer :
        all_stored stores (opened context s).response_context.headers ≡ true
        → o'.response ≡ record {
          code = (opened context s).response_context.code;
          headers = o.response.headers ++ (opened context s).response_context.headers;
        }
    pub lost :
        all_stored stores (opened context s).response_context.headers ≡ false
        → o'.response.code ≡ 500
    pub unauthorized : o'.authorization ≡ o.authorization

  same_headers_lem : (k : Bytes) (h : Handshake) → find k (context h).headers ≡ last_of k h.headers
  unfolding context find
  same_headers_lem k h = find-add_headers k h.headers [] ∙ or_none (last_of k h.headers)

  unasked : (t : AuthType) (b : Bool) → t ≡ unused → (not (eq_type t unused) && b) ≡ false
  unasked t b h = rw h refl

  is_unused : (t : AuthType) → t ≡ unused → eq_type t unused ≡ true
  is_unused t h = rw h refl

  open_socket-IsOpened :
      (id : ℤ) (h : Handshake) (s : SocketImpl) (o : Outcome)
      → o.srv.auth_type ≡ unused
      → s.id ≡ id
      → IsOpened id h s o
          (open_socket stores tv random answers next_id from_base64 finds during fuel h s o)
  unfolding open_socket respond announced answered
  open_socket-IsOpened id h s o p i =
      let left = (opened (context h) s).response_context in
      let begun = record (o.response) { code = left.code } in
      if_no (IsOpened id h s o) _ _ _ (unasked o.srv.auth_type _ p) (record {
        context = context h;
        same_path = unfold context in refl;
        same_query = unfold context in refl;
        same_headers = λ k. same_headers_lem k h;
        made = refl;
        joined = ap (λ x. Group.join broadcast_group x o.groups) i;
        told = ap (λ x. o.actions ++ map calls (HandlerDelegate.connected x o.srv.delegate)) i;
        answer = λ e. copy_headers-stored stores left.headers begun e;
        lost = λ e. copy_headers-lost stores left.headers begun e;
        unauthorized = refl;
      })

  -- A connection to a WebSocket server that asks for no authentication, which libtv took and for which
  -- there is room: its socket, with the path of the handshake ("/" if it has none), its query and of
  -- each header the last value, is put into the broadcast group, the handler is told of it, and the
  -- handshake is answered with the code and the headers that the handler left on the socket, or with
  -- 500 if one of these headers cannot be stored.
  pub accept_open :
      (a : Accepted) (memory : Bool) (h : Handshake) (r : Response) (srv : ServerImpl)
      (groups : Groups)
      → IsTaken a h srv
      → srv.auth_type ≡ unused
      → IsOpened (pos a.id) h (accepted_socket a srv) (entered tv a r srv groups) (
          on_accept stores tv random answers next_id from_base64 finds during fuel a memory h r srv
            groups)
  unfolding admit
  accept_open a memory h r srv groups taken p =
      let o = entered tv a r srv groups in
      let s = accepted_socket a srv in
      let P = IsOpened (pos a.id) h s o in
      on_accept-admits stores tv random answers next_id from_base64 finds during fuel P a memory h r
        srv groups taken.is_heard
        (if_no P _ _ _ (room-retain a h srv taken) (
          if_yes P _ _ _ (is_unused srv.auth_type p) (
            open_socket-IsOpened (pos a.id) h s o p
              (id-new_server srv.kind (pos a.id) default_context a.self a.peer))))

  -- The server and its groups are as before, the handler was not told, the socket is gone and its stream
  -- closed, and the answer is 503.
  pub record IsTurnedAway (limits : List Action) (srv : ServerImpl) (groups : Groups) (o : Outcome)
      : Type 0 where
    pub same_server : o.srv ≡ srv
    pub same_groups : o.groups ≡ groups
    pub gone : o.sock ≡ none
    pub closed : o.actions ≡ (limits ++ reads ∷ []) ++ closes ∷ []
    pub unavailable : o.response.code ≡ 503

  -- A connection to a WebSocket server that holds as many sockets as its limit allows is answered with
  -- 503, whatever the authentication: its stream is closed and its socket ends, the server and the
  -- groups stay as they are, and nothing reaches the handler.
  pub accept_full :
      (a : Accepted) (memory : Bool) (h : Handshake) (r : Response) (srv : ServerImpl)
      (groups : Groups)
      → IsHeard a h srv
      → IsFull srv.delegate.pool
      → IsTurnedAway (new_server srv.kind (pos a.id) default_context a.self a.peer).1 srv groups (
          on_accept stores tv random answers next_id from_base64 finds during fuel a memory h r srv
            groups)
  unfolding admit
  accept_full a memory h r srv groups heard full =
      let limits = (new_server srv.kind (pos a.id) default_context a.self a.peer).1 in
      let P = IsTurnedAway limits srv groups in
      let retained = full_retained a srv full in
      on_accept-admits stores tv random answers next_id from_base64 finds during fuel P a memory h r
        srv groups heard
        (if_yes P _ _ _ (ap (λ x. eq_error x.1 (error lnr_enospc)) retained) (record {
          same_server = ap (λ x. record srv { delegate = x.0 }) retained;
          same_groups = refl;
          gone = refl;
          closed =
              ap (λ x. (limits ++ x) ++ (disconnect false (accepted_socket a srv)).2)
                (reading tv a.read_status heard.reads)
              ∙ ap (λ x. (limits ++ reads ∷ []) ++ x)
                  (closing-new_server srv.kind (pos a.id) default_context a.self a.peer);
          unavailable = refl;
        }))
