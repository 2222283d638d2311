-- ===== src/Server/Admission.antt =====
-- What the connections that come in do to a server's pool (`OnAccept` of src/tcp_server_impl.cpp,
-- src/ssl_server_impl.cpp, src/ws_server_impl.cpp and src/wss_server_impl.cpp).
use Prim.Native.String.{String}
use linear_cpp.Prelude.{
  none, ℕ, ◌≡◌, refl, ap, ◌∙◌, sym, Bool, false, List, ◌++◌, Option, arith, if_lem, if◌then◌else◌,
  Bytes,
}
use linear_cpp.Prelude.Int.{ℤ, pos}
use linear_cpp.ErrorMap.{lnr_ok}
use linear_cpp.Error.{Error, error, ne_error}
use linear_cpp.Timer.{Answers}
use linear_cpp.Group.{Groups}
use linear_cpp.HandlerDelegate
use linear_cpp.HandlerDelegate.{HandlerDelegate, client, server, release_owner}
use linear_cpp.SocketImpl.{SocketImpl, Action}
use linear_cpp.SocketImpl.Connect.{disconnect}
use linear_cpp.SocketImpl.Create.{new_server}
use linear_cpp.SocketImpl.Events.{start_read}
use linear_cpp.Server.{ServerImpl}
use linear_cpp.Server.Accept
use linear_cpp.Server.Accept.{
  Accepted, is_stopped, refuses, default_context, unchanged, admit, take_in,
}
use linear_cpp.Server.WebSocket
use linear_cpp.Server.WebSocket.{Handshake, Response}
use linear_cpp.Server.Arrival.{entered}
use linear_cpp.Server.Keeping.{refuses-started, IsKept, as_before, taken_in, on_accept-IsKept}
use linear_cpp.Server.Lifecycle.{IsSound, carried, retain-IsSound}

module _ (max : ℕ) where
  abbrev SoundAs : ServerImpl → Accept.Outcome → Type 0
  SoundAs srv o = IsSound max o.srv × (o.srv.state ≡ srv.state)

  srv-admit :
      (e : Error) (s : SocketImpl) (actions : List Action) (srv : ServerImpl) (groups : Groups)
      → (admit e s actions srv groups).srv ≡ srv
  unfolding admit
  srv-admit e s actions srv groups = ground arith

  take_in-IsSound :
      (tv : String → ℤ) (a : Accepted) (srv : ServerImpl) (groups : Groups)
      → is_stopped srv.state ≡ false
      → IsSound max srv
      → SoundAs srv (take_in tv a srv groups)
  unfolding take_in
  take_in-IsSound tv a srv groups running k =
      let (s, limits) = new_server srv.kind (pos a.id) default_context a.self a.peer in
      let (e, reading) = start_read tv a.read_status in
      let (d, retained) = HandlerDelegate.retain s.id srv.delegate in
      let srv' = record srv { delegate = d } in
      let closing = (disconnect false s).2 in
      let same = srv-admit retained s (limits ++ reading) srv' groups in
      if_lem (SoundAs srv) (ne_error e (error lnr_ok))
        (record {
          srv = srv;
          groups = groups;
          sock = none;
          actions = limits ++ (reading ++ closing);
        })
        (admit retained s (limits ++ reading) srv' groups) (λ p. (k, refl))
        (λ p. (rw same (retain-IsSound max s.id srv running k), ap (λ x. x.state) same))

  -- TCP and SSL.
  pub accept-IsSound :
      (tv : String → ℤ) (a : Accepted) (srv : ServerImpl) (groups : Groups)
      → IsSound max srv
      → SoundAs srv (Accept.on_accept tv a srv groups)
  unfolding Accept.on_accept
  accept-IsSound tv a srv groups k =
      let o = unchanged srv groups in
      let taken = take_in tv a srv groups in
      if_lem (SoundAs srv) (refuses a srv) o (if a.allocated then taken else o) (λ e. (k, refl))
        (λ e.
          if_lem (SoundAs srv) a.allocated taken o
            (λ p. take_in-IsSound tv a srv groups (refuses-started srv.state _ e) k)
            (λ p. (k, refl)))

  IsKept-IsSound :
      (srv e : ServerImpl) (o : WebSocket.Outcome)
      → IsKept srv e o
      → (is_stopped srv.state ≡ false → IsSound max e)
      → e.state ≡ srv.state
      → IsSound max srv
      → IsSound max o.srv × (o.srv.state ≡ srv.state)
  IsKept-IsSound srv e o (as_before k) sound same h = (
    carried max srv o.srv k.same_delegate (λ p. ap is_stopped (sym k.same_state) ∙ p) h,
    k.same_state,
  )
  IsKept-IsSound srv e o (taken_in running k) sound same h = (
    carried max e o.srv k.same_delegate (λ p. ap is_stopped (sym k.same_state) ∙ p) (sound running),
    k.same_state ∙ same,
  )

  -- WebSocket, with and without SSL.
  pub handshake-IsSound :
      (stores : Bytes → Bytes → Bool) (tv : String → ℤ) (random : ℕ → Option Bytes)
      (answers : ℕ → Answers) (next_id : ℕ) (from_base64 : Bytes → Option Bytes)
      (finds : Bytes → List (Bytes × Bytes) → Option Bytes) (during : SocketImpl → SocketImpl)
      (fuel : ℕ) (a : Accepted) (memory : Bool) (h : Handshake) (r : Response) (srv : ServerImpl)
      (groups : Groups)
      → IsSound max srv
      → let o =
          WebSocket.on_accept stores tv random answers next_id from_base64 finds during fuel a
            memory h r srv groups in
        IsSound max o.srv × (o.srv.state ≡ srv.state)
  handshake-IsSound stores tv random answers next_id from_base64 finds during fuel a memory h r srv
        groups k =
      IsKept-IsSound srv (entered tv a r srv groups).srv _
        (on_accept-IsKept stores tv random answers next_id from_base64 finds during fuel a memory h
          r srv groups)
        (λ running.
          retain-IsSound max (new_server srv.kind (pos a.id) default_context a.self a.peer).0.id srv
            running k)
        refl k
