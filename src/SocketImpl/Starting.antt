-- ===== src/SocketImpl/Starting.antt =====
-- `Connect` of src/socket_impl.cpp where nothing fails, and the retry of `OnDisconnect` that calls it.
use Prim.Native.String.{String}
use linear_cpp.Prelude.{
  ℕ, ◌≡◌, refl, ◌∙◌, subst, true, false, List, if_lem, if_yes, if_no, sym, not, ◌||◌, ◌&&◌, ltb,
}
use linear_cpp.Prelude.Int.{ℤ}
use linear_cpp.ErrorMap.{lnr_ok, lnr_ews}
use linear_cpp.Error.{Error, error, eq_error, ne_error}
use linear_cpp.Addrinfo
use linear_cpp.Addrinfo.{is_unknown}
use linear_cpp.SocketImpl.{
  disconnected, connecting, State, SocketImpl, WsRequestContext, World, Action,
}
use linear_cpp.SocketImpl.Connect.{
  ConnectAnswers, connect, connect_state, connect_idle, connect_retained, connect_started,
  start_connect_timer, retain,
}
use linear_cpp.SocketImpl.Events.{after_release, retry, check_retry_auth, is_web, alone}
use linear_cpp.SocketImpl.Timed.{connect_started_lem}

-- A connect is under way, with such a request.
abbrev pub Starts : WsRequestContext → World → Type 0
Starts x w = (w.sock.state ≡ connecting) × (w.sock.request_context ≡ x)

-- The opening of the stream succeeds, with such a request.
unfoldable pub Opens :
    (SocketImpl → SocketImpl × Error × List Action) → WsRequestContext → SocketImpl → Type 0
Opens f x s =
    let opened = f (record s { self = Addrinfo.undefined }) in
    (opened.0.request_context ≡ x) × (eq_error opened.1 (error lnr_ok) ≡ true)

module _ (tv : String → ℤ) where
  context-connect_started :
      (t : ℕ) (a : ConnectAnswers) (s : SocketImpl)
      → (connect_started tv t a s).0.request_context ≡ s.request_context
  unfolding connect_started start_connect_timer
  context-connect_started t a s =
      if_lem (λ (r : SocketImpl × List Action). r.0.request_context ≡ s.request_context) (ltb 0 t) _
        _ (λ e. refl) (λ e. refl)

  module _ (f : SocketImpl → SocketImpl × Error × List Action) (t : ℕ) (a : ConnectAnswers)
      (x : WsRequestContext) where
    retained-Starts : (w : World) → Opens f x w.sock → Starts x (connect_retained tv f t a w).0
    unfolding connect_retained Opens
    retained-Starts w o =
        let opened = f (record (w.sock) { self = Addrinfo.undefined }) in
        if_yes (λ (r : World × Error × List Action). Starts x r.0)
          (eq_error opened.1 (error lnr_ok)) _ _ o.1
          (connect_started_lem tv t a opened.0, context-connect_started t a opened.0 ∙ o.0)

    idle-Starts :
        (w : World)
        → ne_error (retain tv a.socket_alive w.sock.id w.delegate).1 (error lnr_ok) ≡ false
        → Opens f x w.sock
        → Starts x (connect_idle tv f t a w).0
    unfolding connect_idle
    idle-Starts w r o =
        let kept = retain tv a.socket_alive w.sock.id w.delegate in
        if_no (λ (r : World × Error × List Action). Starts x r.0) (ne_error kept.1 (error lnr_ok)) _
          _ r (retained-Starts (record w { delegate = kept.0 }) o)

    connect-Starts :
        (w : World)
        → w.sock.connectable ≡ true
        → is_unknown w.sock.peer.proto ≡ false
        → w.sock.state ≡ disconnected
        → ne_error (retain tv a.socket_alive w.sock.id w.delegate).1 (error lnr_ok) ≡ false
        → Opens f x w.sock
        → Starts x (connect tv f t a w).0
    unfolding connect connect_state
    connect-Starts w c u d r o =
        if_no (λ (r : World × Error × List Action). Starts x r.0)
          (not w.sock.connectable || is_unknown w.sock.peer.proto) _ _ (rw (c, u) refl)
          (subst (λ (st : State). Starts x (connect_state tv f st t a w).0) (sym d)
            (idle-Starts w r o))

  -- The retry of `OnDisconnect`.
  pub retry-Starts :
      (f : SocketImpl → SocketImpl × Error × List Action) (a : ConnectAnswers)
      (x : WsRequestContext) (w : World)
      → w.sock.connectable ≡ true
      → is_web w.sock.kind ≡ true
      → eq_error w.sock.last_error (error lnr_ews) ≡ true
      → check_retry_auth w.sock ≡ true
      → is_unknown w.sock.peer.proto ≡ false
      → w.sock.state ≡ disconnected
      → ne_error (retain tv a.socket_alive w.sock.id w.delegate).1 (error lnr_ok) ≡ false
      → Opens f x w.sock
      → Starts x (after_release tv f alone true a w).0
  unfolding after_release retry
  retry-Starts f a x w c k e q u d r o =
      let P = λ (r : World × List Action). Starts x r.0 in
      if_yes P (w.sock.connectable && is_web w.sock.kind) _ _ (rw (c, k) refl) (
        if_yes P (eq_error w.sock.last_error (error lnr_ews)) _ _ e (
          if_yes P (check_retry_auth w.sock) _ _ q
            (connect-Starts f w.sock.connect_timeout a x w c u d r o)))
