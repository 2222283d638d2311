-- ===== src/SocketImpl/Timed.antt =====
-- The connect timer under the calls of an application (src/socket_impl.cpp).
use Prim.Native.String.{String}
use linear_cpp.Prelude.{
  ℕ, ◌≡◌, ◌≢◌, refl, inl, false, List, [], ◌∷◌, Option, none, some, if_lem, ltb, not, ◌||◌,
}
use linear_cpp.Prelude.Int.{ℤ}
use linear_cpp.ErrorMap.{lnr_ok}
use linear_cpp.Error.{Error, error, eq_error, ne_error}
use linear_cpp.Addrinfo
use linear_cpp.Addrinfo.{is_unknown}
use linear_cpp.HandlerDelegate.{HandlerDelegate}
use linear_cpp.SocketImpl.{
  State, disconnecting, disconnected, connecting, connected, SocketImpl, World, Action,
}
use linear_cpp.SocketImpl.Send.{send}
use linear_cpp.SocketImpl.Connect.{
  ConnectAnswers, connect_started, start_connect_timer, retain, release_from, connect_retained,
  connect_idle, connect_state, connect, set_max_send_buffer_size,
}
use linear_cpp.SocketImpl.ConnectTimer.{
  IsTimed, IsHeld, Keeps, Keeps-IsTimed, Keeps-IsHeld, disconnect-IsTimed, disconnect-IsHeld,
  send-Keeps,
}
use linear_cpp.SocketImpl.Run.{Call, sends, disconnects, connects, limits, act, acts}

pub release_from-sock :
    (tv : String → ℤ) (d : Option HandlerDelegate) (w : World) → (release_from tv d w).sock ≡ w.sock
unfolding release_from
release_from-sock tv none w = refl
release_from-sock tv (some d) w = refl

module _ (tv : String → ℤ) where
  pub connect_started_lem :
      (timeout : ℕ) (a : ConnectAnswers) (s : SocketImpl)
      → (connect_started tv timeout a s).0.state ≡ connecting
  unfolding connect_started start_connect_timer
  connect_started_lem timeout a s =
      if_lem (λ (r : SocketImpl × List Action). r.0.state ≡ connecting) (ltb 0 timeout) _ _
        (λ e. refl) (λ e. refl)

  module _ (open_stream : SocketImpl → SocketImpl × Error × List Action)
      (keeps : (s : SocketImpl) → Keeps s (open_stream s).0) where
    abbrev Ends : World × Error × List Action → Type 0
    Ends r = IsTimed r.0.sock

    connect_retained_timed :
        (timeout : ℕ) (a : ConnectAnswers) (w : World)
        → IsTimed w.sock
        → Ends (connect_retained tv open_stream timeout a w)
    unfolding connect_retained
    connect_retained_timed timeout a w h =
        let s = record (w.sock) { self = Addrinfo.undefined } in
        let r = open_stream s in
        let kept : IsTimed r.0 = Keeps-IsTimed s r.0 (keeps s) h in
        if_lem Ends (eq_error r.1 (error lnr_ok)) _ _ (λ e. inl (connect_started_lem timeout a r.0))
          (λ e.
            if_lem (λ (x : World). IsTimed x.sock) a.socket_alive _ _
              (λ f. rw (release_from-sock tv w.delegate (record w { sock = r.0 })) kept)
              (λ f. kept))

    connect_idle_timed :
        (timeout : ℕ) (a : ConnectAnswers) (w : World)
        → IsTimed w.sock
        → Ends (connect_idle tv open_stream timeout a w)
    unfolding connect_idle
    connect_idle_timed timeout a w h =
        let r = retain tv a.socket_alive w.sock.id w.delegate in
        if_lem Ends (ne_error r.1 (error lnr_ok)) _ _ (λ e. h)
          (λ e. connect_retained_timed timeout a (record w { delegate = r.0 }) h)

    connect_state_timed :
        (st : State) (timeout : ℕ) (a : ConnectAnswers) (w : World)
        → IsTimed w.sock
        → Ends (connect_state tv open_stream st timeout a w)
    unfolding connect_state
    connect_state_timed connecting timeout a w h = h
    connect_state_timed connected timeout a w h = h
    connect_state_timed disconnecting timeout a w h = h
    connect_state_timed disconnected timeout a w h = connect_idle_timed timeout a w h

    pub connect_timed :
        (timeout : ℕ) (a : ConnectAnswers) (w : World)
        → IsTimed w.sock
        → Ends (connect tv open_stream timeout a w)
    unfolding connect
    connect_timed timeout a w h =
        if_lem Ends (not w.sock.connectable || is_unknown w.sock.peer.proto) _ _ (λ e. h)
          (λ e. connect_state_timed w.sock.state timeout a w h)

    -- On a socket that is not disconnected a connect changes nothing.
    connect_state_held :
        (st : State) (timeout : ℕ) (a : ConnectAnswers) (w : World)
        → st ≢ disconnected
        → (connect_state tv open_stream st timeout a w).0 ≡ w
    unfolding connect_state
    connect_state_held connecting timeout a w h = refl
    connect_state_held connected timeout a w h = refl
    connect_state_held disconnecting timeout a w h = refl
    connect_state_held disconnected timeout a w h = elim (h refl) [ ]

    connect_held :
        (timeout : ℕ) (a : ConnectAnswers) (w : World)
        → w.sock.state ≢ disconnected
        → (connect tv open_stream timeout a w).0 ≡ w
    unfolding connect
    connect_held timeout a w h =
        if_lem (λ (r : World × Error × List Action). r.0 ≡ w)
          (not w.sock.connectable || is_unknown w.sock.peer.proto) _ _ (λ e. refl)
          (λ e. connect_state_held w.sock.state timeout a w h)

  module _ (open_stream : ℕ → SocketImpl → SocketImpl × Error × List Action)
      (keeps : (k : ℕ) (s : SocketImpl) → Keeps s (open_stream k s).0) where
    pub act-IsTimed :
        (c : Call) (w : World) → IsTimed w.sock → IsTimed (act tv open_stream c w).sock
    unfolding act set_max_send_buffer_size
    act-IsTimed (sends m timeout a) w h =
        Keeps-IsTimed w.sock (send tv m timeout a w.sock).0 (send-Keeps tv m timeout a w.sock) h
    act-IsTimed disconnects w h = disconnect-IsTimed false w.sock h
    act-IsTimed (connects timeout a k) w h = connect_timed (open_stream k) (keeps k) timeout a w h
    act-IsTimed (limits n) w h = h

    act-IsHeld : (c : Call) (w : World) → IsHeld w.sock → IsHeld (act tv open_stream c w).sock
    unfolding act set_max_send_buffer_size
    act-IsHeld (sends m timeout a) w h =
        Keeps-IsHeld w.sock (send tv m timeout a w.sock).0 (send-Keeps tv m timeout a w.sock) h
    act-IsHeld disconnects w h = disconnect-IsHeld false w.sock h
    act-IsHeld (connects timeout a k) w h =
        rw (connect_held (open_stream k) (keeps k) timeout a w h.1) h
    act-IsHeld (limits n) w h = h

    pub acts-IsHeld :
        (cs : List Call) (w : World) → IsHeld w.sock → IsHeld (acts tv open_stream cs w).sock
    unfolding acts
    acts-IsHeld [] w h = h
    acts-IsHeld (c ∷ cs) w h = acts-IsHeld cs (act tv open_stream c w) (act-IsHeld c w h)

    pub acts-IsTimed :
        (cs : List Call) (w : World) → IsTimed w.sock → IsTimed (acts tv open_stream cs w).sock
    unfolding acts
    acts-IsTimed [] w h = h
    acts-IsTimed (c ∷ cs) w h = acts-IsTimed cs (act tv open_stream c w) (act-IsTimed c w h)
