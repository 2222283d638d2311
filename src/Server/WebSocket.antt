-- ===== src/Server/WebSocket.antt =====
-- `OnAccept` and `CreateAuthenticationHeader` of src/ws_server_impl.cpp and src/wss_server_impl.cpp.
-- The handshake's buffers are libtv's: a list of headers with what a search finds in it and which
-- insertions succeed.
use Prim.Native.String.{String}
use linear_cpp.Prelude.{
  ℕ, Bool, true, false, not, ◌&&◌, List, [], ◌∷◌, ◌++◌, map, Option, none, some, ◌==◌,
  if◌then◌else◌, Bytes, codes,
}
use mathlib.Core.Option.{get_or}
use linear_cpp.Prelude.Int.{ℤ, pos}
use linear_cpp.ErrorMap.{lnr_ok, lnr_enospc}
use linear_cpp.Error.{Error, error, eq_error, ne_error}
use linear_cpp.Auth.Header.{unused, basic, digest, eq_type}
use linear_cpp.Auth.Authorization
use linear_cpp.Auth.Authorization.{Authorization}
use linear_cpp.NoncePool
use linear_cpp.NoncePool.{Nonce}
use linear_cpp.Timer.{Answers, Effect}
use linear_cpp.Group
use linear_cpp.Group.{Groups, broadcast_group}
use linear_cpp.HandlerDelegate
use linear_cpp.HandlerDelegate.{HandlerDelegate}
use linear_cpp.SocketImpl.{SocketImpl, WsRequestContext, Action, calls}
use linear_cpp.SocketImpl.Connect.{disconnect}
use linear_cpp.SocketImpl.Create.{new_server}
use linear_cpp.SocketImpl.Events.{start_read}
use linear_cpp.SocketImpl.Open.{add_headers}
use linear_cpp.Server.{ServerImpl}
use linear_cpp.Server.Accept.{Accepted, refuses, default_context}
use linear_cpp.Server.Draw.{Drawn, exhausted, failed, drawn, draw}

-- `handle->handshake.response`.
pub record Response : Type 0 where
  pub code : ℕ
  pub headers : List (Bytes × Bytes)

-- `handle->handshake.request`, with whether libtv took the handshake (WSHS_SUCCESS), the fields of
-- the URL that are set, and the value of the Authorization header in any case of its name.
pub record Handshake : Type 0 where
  pub successful : Bool
  pub path : Option Bytes
  pub query : Option Bytes
  pub headers : List (Bytes × Bytes)
  pub authorization : Option Bytes

-- As the outcome of the other servers, with the handshake's response and with
-- `authorization` of the new socket's request context. `endless`: the loop for a nonce goes on.
pub record Outcome : Type 0 where
  pub srv : ServerImpl
  pub groups : Groups
  pub sock : Option SocketImpl
  pub authorization : Option Authorization
  pub response : Response
  pub endless : Bool
  pub effects : List (Effect Bytes)
  pub actions : List Action

abbrev pub begun : Response → ServerImpl → Groups → Outcome
begun r srv groups = record {
  srv = srv;
  groups = groups;
  sock = none;
  authorization = none;
  response = r;
  endless = false;
  effects = [];
  actions = [];
}

abbrev pub with_response : ℕ → Outcome → Outcome
with_response code o = record o { response = record (o.response) { code = code } }

-- The last pointer to the new socket goes: `~SocketImpl` disconnects it.
abbrev pub dropped : SocketImpl → Outcome → Outcome
dropped s o =
    let (s', _, closing) = disconnect false s in
    record o { sock = none; actions = o.actions ++ closing }

abbrev pub basic_challenge : Bytes → Bytes
basic_challenge realm = codes "Basic realm=\"" ++ (realm ++ codes "\"")

abbrev pub digest_challenge : Bytes → Bytes → Bytes
digest_challenge realm nonce =
    codes "Digest realm=\""
    ++ (realm ++ (codes "\", algorithm=MD5, qop=\"auth\", nonce=\"" ++ (nonce ++ codes "\"")))

-- `request_context_` as the handshake fills it in.
unfoldable pub context : Handshake → WsRequestContext
context h = record default_context {
  path = get_or h.path (default_context.path);
  query = get_or h.query [];
  headers = add_headers h.headers [];
}

-- Whether buffers of libtv take a header.
module _ (stores : Bytes → Bytes → Bool) where
  -- `buffer_kvs_insert`, with the code that follows.
  unfoldable pub insert : ℕ → Bytes → Bytes → Response → Response
  insert code key text r =
      if stores key text
      then record { code = code; headers = r.headers ++ (key, text) ∷ [] }
      else record r { code = 500 }

  -- The loop over the headers of the socket's response context.
  unfoldable pub copy_headers : List (Bytes × Bytes) → Response → Response
  unfolding insert
  copy_headers [] r = r
  copy_headers ((key, text) ∷ kvs) r = copy_headers kvs (insert r.code key text r)

  module _ (tv : String → ℤ) (random : ℕ → Option Bytes) (answers : ℕ → Answers) (next_id : ℕ) where
    unfoldable pub with_nonce : Drawn → Outcome → Outcome
    unfolding insert
    with_nonce exhausted o = record o { endless = true }
    with_nonce (failed pool next_id' effects) o = record o {
      srv = record (o.srv) { nonce_pool = pool };
      effects = o.effects ++ effects;
      response = record (o.response) { code = 500 };
    }
    with_nonce (drawn nonce pool next_id' effects) o = record o {
      srv = record (o.srv) { nonce_pool = pool };
      effects = o.effects ++ effects;
      response =
          insert 401 (codes "WWW-Authenticate") (digest_challenge o.srv.realm nonce) o.response;
    }

    -- `CreateAuthenticationHeader`, with fuel for the loop.
    unfoldable pub create_authentication_header : ℕ → Outcome → Outcome
    unfolding with_nonce insert
    create_authentication_header fuel o =
        if eq_type o.srv.auth_type basic
        then record o {
          response = insert 401 (codes "WWW-Authenticate") (basic_challenge o.srv.realm) o.response;
        }
        else with_nonce (draw tv random answers fuel 0 next_id o.srv.nonce_pool) o

    -- `finds` is buffer_kvs_case_find, and `during` what the handler's OnConnect does to the socket.
    module _ (from_base64 : Bytes → Option Bytes)
        (finds : Bytes → List (Bytes × Bytes) → Option Bytes) (during : SocketImpl → SocketImpl)
        (fuel : ℕ) where
      lacks_challenge : Response → Bool
      lacks_challenge r = elim (finds (codes "www-authenticate") r.headers) [
        | none ↦ true
        | some v ↦ false
      ]

      -- The handshake's response made from that of the socket.
      unfoldable pub answered : SocketImpl → Outcome → Outcome
      unfolding copy_headers
      answered s o = record o {
        sock = some s;
        response =
            copy_headers s.response_context.headers
              (record (o.response) { code = s.response_context.code });
      }

      -- Behind `OnConnect`.
      unfoldable pub respond : SocketImpl → Outcome → Outcome
      unfolding answered create_authentication_header lacks_challenge
      respond s o =
          let o' = answered s o in
          let challenged = create_authentication_header fuel o' in
          if not (eq_type o.srv.auth_type unused)
            && (o'.response.code == 401 && lacks_challenge o'.response)
          then challenged
          else o'

      -- The socket is put into the broadcast group and the handler is told.
      unfoldable pub announced : SocketImpl → Outcome → Outcome
      announced s o = record o {
        groups = Group.join broadcast_group s.id o.groups;
        actions = o.actions ++ map calls (HandlerDelegate.connected s.id o.srv.delegate);
      }

      -- From `SetWSRequestContext` on.
      unfoldable pub open_socket : Handshake → SocketImpl → Outcome → Outcome
      unfolding announced respond
      open_socket h s o =
          respond (during (record s { request_context = context h })) (announced s o)

      pub unauthorized : SocketImpl → SocketImpl
      unauthorized s = record s { response_context = record (s.response_context) { code = 401 } }

      unfoldable pub check_nonce : Bool → Authorization → Outcome → Outcome
      check_nonce false a o = record o { authorization = some a }
      check_nonce true a o =
          let (pool, effects) = NoncePool.remove a.nonce o.srv.nonce_pool in
          record o {
            srv = record (o.srv) { nonce_pool = pool };
            effects = o.effects ++ effects;
            authorization =
                some (record a { valid_nonce = NoncePool.is_valid a.nonce o.srv.nonce_pool });
          }

      unfoldable pub check_authorization :
          Bool → Option Bytes → Handshake → SocketImpl → Outcome → Outcome
      unfolding check_nonce unauthorized open_socket
      check_authorization memory none h s o = create_authentication_header fuel o
      check_authorization memory (some v) h s o =
          let a = Authorization.read from_base64 memory v in
          let refused = create_authentication_header fuel o in
          let accepted =
            open_socket h (unauthorized s) (check_nonce (eq_type o.srv.auth_type digest) a o) in
          if eq_type o.srv.auth_type a.kind then accepted else refused

      -- Behind `Retain`.
      unfoldable pub admit : Error → Bool → Handshake → SocketImpl → Outcome → Outcome
      unfolding check_authorization
      admit e memory h s o =
          let opened = open_socket h s o in
          let checked = check_authorization memory h.authorization h s o in
          if eq_error e (error lnr_enospc)
          then dropped s (with_response 503 o)
          else if eq_type o.srv.auth_type unused
          then opened
          else checked

      -- The body of the `try`.
      unfoldable pub take_in : Accepted → Bool → Handshake → Outcome → Outcome
      unfolding admit
      take_in a memory h o =
          let (s, limits) = new_server o.srv.kind (pos a.id) default_context a.self a.peer in
          let (e, reading) = start_read tv a.read_status in
          let (d, retained) = HandlerDelegate.retain s.id o.srv.delegate in
          let o' = record o { sock = some s; actions = limits ++ reading } in
          let admitted =
            admit retained memory h s (record o' { srv = record (o.srv) { delegate = d } }) in
          if ne_error e (error lnr_ok)
          then dropped s (with_response 500 o')
          else if h.successful
          then admitted
          else dropped s o'

      -- `OnAccept`, from the response as libtv made it. `memory` is what the memory of `valid_nonce`
      -- held.
      unfoldable pub on_accept :
          Accepted → Bool → Handshake → Response → ServerImpl → Groups → Outcome
      unfolding take_in
      on_accept a memory h r srv groups =
          let o = begun r srv groups in
          let outcome = take_in a memory h o in
          if refuses a srv then o else if a.allocated then outcome else with_response 500 o
