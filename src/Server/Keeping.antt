-- ===== src/Server/Keeping.antt =====
-- What a WebSocket server's `OnAccept` does to the server besides its nonces (src/ws_server_impl.cpp,
-- src/wss_server_impl.cpp): at most it takes the new socket into its pool.
use Prim.Native.String.{String}
use linear_cpp.Prelude.{
  ℕ, ◌≡◌, refl, ap, ◌∙◌, Bool, true, false, ◌||◌, arith, List, Option, none, some, if_lem,
  if◌then◌else◌, Bytes,
}
use linear_cpp.Prelude.Int.{ℤ}
use linear_cpp.ErrorMap.{lnr_ok, lnr_enospc}
use linear_cpp.Error.{Error, error, eq_error, ne_error}
use linear_cpp.Auth.Header.{basic, digest, unused, eq_type}
use linear_cpp.Auth.Authorization
use linear_cpp.Auth.Authorization.{Authorization}
use linear_cpp.Timer.{Answers}
use linear_cpp.Group.{Groups}
use linear_cpp.HandlerDelegate
use linear_cpp.SocketImpl.{SocketImpl}
use linear_cpp.SocketImpl.Events.{start_read}
use linear_cpp.Server.{State, ServerImpl}
use linear_cpp.Server.Accept.{Accepted, is_stopped, refuses}
use linear_cpp.Server.Draw.{Drawn, exhausted, failed, drawn, draw}
use linear_cpp.Server.WebSocket.{
  Handshake, Response, Outcome, begun, with_response, dropped, with_nonce,
  create_authentication_header, answered, announced, context, respond, open_socket, check_nonce,
  unauthorized, check_authorization, admit, take_in, on_accept,
}
use linear_cpp.Server.Arrival.{accepted_socket, entered}

-- The same state and the same sockets.
pub record Keeps (srv : ServerImpl) (o : Outcome) : Type 0 where
  pub same_state : o.srv.state ≡ srv.state
  pub same_delegate : o.srv.delegate ≡ srv.delegate

-- The server is as it was, or it has started and has taken the new socket in.
pub data IsKept (srv entered : ServerImpl) (o : Outcome) : Type 0 where
  as_before : Keeps srv o → IsKept srv entered o
  taken_in : is_stopped srv.state ≡ false → Keeps entered o → IsKept srv entered o

carry : (srv : ServerImpl) (o o' : Outcome) → o'.srv ≡ o.srv → Keeps srv o → Keeps srv o'
carry srv o o' e k = record {
  same_state = ap (λ x. x.state) e ∙ k.same_state;
  same_delegate = ap (λ x. x.delegate) e ∙ k.same_delegate;
}

pub refuses-started : (s : State) (b : Bool) → (is_stopped s || b) ≡ false → is_stopped s ≡ false
refuses-started s b h = ground (arith, h)

module _ (stores : Bytes → Bytes → Bool) (tv : String → ℤ) (random : ℕ → Option Bytes)
    (answers : ℕ → Answers) (next_id : ℕ) where
  with_nonce-Keeps :
      (srv : ServerImpl) (d : Drawn) (o : Outcome)
      → Keeps srv o
      → Keeps srv (with_nonce stores tv random answers next_id d o)
  unfolding with_nonce
  with_nonce-Keeps srv exhausted o k = record {
    same_state = k.same_state;
    same_delegate = k.same_delegate;
  }
  with_nonce-Keeps srv (failed pool next effects) o k = record {
    same_state = k.same_state;
    same_delegate = k.same_delegate;
  }
  with_nonce-Keeps srv (drawn n pool next effects) o k = record {
    same_state = k.same_state;
    same_delegate = k.same_delegate;
  }

  create-Keeps :
      (srv : ServerImpl) (fuel : ℕ) (o : Outcome)
      → Keeps srv o
      → Keeps srv (create_authentication_header stores tv random answers next_id fuel o)
  unfolding create_authentication_header
  create-Keeps srv fuel o k =
      if_lem (Keeps srv) (eq_type o.srv.auth_type basic) _ _ (λ e. carry srv o _ refl k)
        (λ e. with_nonce-Keeps srv (draw tv random answers fuel 0 next_id o.srv.nonce_pool) o k)

  module _ (from_base64 : Bytes → Option Bytes)
      (finds : Bytes → List (Bytes × Bytes) → Option Bytes) (during : SocketImpl → SocketImpl)
      (fuel : ℕ) where
    respond-Keeps :
        (srv : ServerImpl) (s : SocketImpl) (o : Outcome)
        → Keeps srv o
        → Keeps srv (respond stores tv random answers next_id from_base64 finds during fuel s o)
    unfolding respond
    respond-Keeps srv s o k =
        let o' = answered stores tv random answers next_id from_base64 finds during fuel s o in
        let k' : Keeps srv o' = carry srv o o' (unfold answered in refl) k in
        if_lem (Keeps srv) _ (create_authentication_header stores tv random answers next_id fuel o')
          o' (λ e. create-Keeps srv fuel o' k') (λ e. k')

    open_socket-Keeps :
        (srv : ServerImpl) (h : Handshake) (s : SocketImpl) (o : Outcome)
        → Keeps srv o
        → Keeps srv
            (open_socket stores tv random answers next_id from_base64 finds during fuel h s o)
    unfolding open_socket
    open_socket-Keeps srv h s o k =
        let o' = announced stores tv random answers next_id from_base64 finds during fuel s o in
        respond-Keeps srv (during (record s { request_context = context h })) o'
          (carry srv o o' (unfold announced in refl) k)

    check_nonce-Keeps :
        (srv : ServerImpl) (b : Bool) (x : Authorization) (o : Outcome)
        → Keeps srv o
        → Keeps srv
            (check_nonce stores tv random answers next_id from_base64 finds during fuel b x o)
    unfolding check_nonce
    check_nonce-Keeps srv true x o k = record {
      same_state = k.same_state;
      same_delegate = k.same_delegate;
    }
    check_nonce-Keeps srv false x o k = record {
      same_state = k.same_state;
      same_delegate = k.same_delegate;
    }

    check_authorization-Keeps :
        (srv : ServerImpl) (memory : Bool) (v : Option Bytes) (h : Handshake) (s : SocketImpl)
        (o : Outcome)
        → Keeps srv o
        → Keeps srv (
            check_authorization stores tv random answers next_id from_base64 finds during fuel
              memory v h s o)
    unfolding check_authorization
    check_authorization-Keeps srv memory none h s o k = create-Keeps srv fuel o k
    check_authorization-Keeps srv memory (some v) h s o k =
        let x = Authorization.read from_base64 memory v in
        if_lem (Keeps srv) _ _ _
          (λ e.
            open_socket-Keeps srv h
              (unauthorized stores tv random answers next_id from_base64 finds during fuel s)
              (check_nonce stores tv random answers next_id from_base64 finds during fuel
                (eq_type o.srv.auth_type digest) x o)
              (check_nonce-Keeps srv (eq_type o.srv.auth_type digest) x o k))
          (λ e. create-Keeps srv fuel o k)

    admit-Keeps :
        (srv : ServerImpl) (e : Error) (memory : Bool) (h : Handshake) (s : SocketImpl)
        (o : Outcome)
        → Keeps srv o
        → Keeps srv
            (admit stores tv random answers next_id from_base64 finds during fuel e memory h s o)
    unfolding admit
    admit-Keeps srv e memory h s o k =
        let full = dropped s (with_response 503 o) in
        let opened =
          open_socket stores tv random answers next_id from_base64 finds during fuel h s o in
        let checked =
          check_authorization stores tv random answers next_id from_base64 finds during fuel memory
            h.authorization h s o in
        let is_unused = eq_type o.srv.auth_type unused in
        if_lem (Keeps srv) (eq_error e (error lnr_enospc)) full
          (if is_unused then opened else checked) (λ p. carry srv o full refl k)
          (λ p.
            if_lem (Keeps srv) is_unused opened checked (λ q. open_socket-Keeps srv h s o k)
              (λ q. check_authorization-Keeps srv memory h.authorization h s o k))

    before : (o : Outcome) (srv e : ServerImpl) → o.srv ≡ srv → IsKept srv e o
    before o srv e p =
        as_before
          (record { same_state = ap (λ x. x.state) p; same_delegate = ap (λ x. x.delegate) p })

    take_in-IsKept :
        (a : Accepted) (memory : Bool) (h : Handshake) (r : Response) (srv : ServerImpl)
        (groups : Groups)
        → is_stopped srv.state ≡ false
        → IsKept srv (entered tv a r srv groups).srv (
            take_in stores tv random answers next_id from_base64 finds during fuel a memory h
              (begun r srv groups))
    unfolding take_in
    take_in-IsKept a memory h r srv groups started =
        let s = accepted_socket a srv in
        let o = entered tv a r srv groups in
        let o' = record o { srv = srv } in
        let e = (HandlerDelegate.retain s.id srv.delegate).1 in
        let admitted =
          admit stores tv random answers next_id from_base64 finds during fuel e memory h s o in
        if_lem (IsKept srv o.srv) (ne_error (start_read tv a.read_status).0 (error lnr_ok))
          (dropped s (with_response 500 o')) (if h.successful then admitted else dropped s o')
          (λ p. before (dropped s (with_response 500 o')) srv o.srv refl)
          (λ p.
            if_lem (IsKept srv o.srv) h.successful admitted (dropped s o')
              (λ q. taken_in started (
                admit-Keeps o.srv e memory h s o
                  (record { same_state = refl; same_delegate = refl })))
              (λ q. before (dropped s o') srv o.srv refl))

    -- The server as it was, or with the new socket in its pool.
    pub on_accept-IsKept :
        (a : Accepted) (memory : Bool) (h : Handshake) (r : Response) (srv : ServerImpl)
        (groups : Groups)
        → IsKept srv (entered tv a r srv groups).srv (
            on_accept stores tv random answers next_id from_base64 finds during fuel a memory h r
              srv groups)
    unfolding on_accept
    on_accept-IsKept a memory h r srv groups =
        let o = begun r srv groups in
        let e = (entered tv a r srv groups).srv in
        let taken =
          take_in stores tv random answers next_id from_base64 finds during fuel a memory h o in
        if_lem (IsKept srv e) (refuses a srv) o (if a.allocated then taken else with_response 500 o)
          (λ p. before o srv e refl)
          (λ p.
            if_lem (IsKept srv e) a.allocated taken (with_response 500 o)
              (λ q. take_in-IsKept a memory h r srv groups (refuses-started srv.state _ p))
              (λ q. before (with_response 500 o) srv e refl))
