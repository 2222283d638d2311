-- ===== src/SocketImpl/Calls.antt =====
-- The states through which the calls of an application lead a socket (`Connect`, `Disconnect`, `Send`
-- and `SetMaxSendBufferSize` of src/socket_impl.cpp).
use Prim.Native.String.{String}
use linear_cpp.Prelude.{
  arith, true, ℕ, ◌≡◌, refl, ap, ◌∙◌, ◌⊎◌, inl, inr, false, ◌||◌, not, List, if_lem,
}
use linear_cpp.Prelude.Int.{ℤ}
use linear_cpp.ErrorMap.{lnr_ok}
use linear_cpp.Error.{Error, error, eq_error, ne_error}
use linear_cpp.Addrinfo
use linear_cpp.Addrinfo.{is_unknown}
use linear_cpp.SocketImpl.{
  State, disconnecting, disconnected, connecting, connected, SocketImpl, World, Action,
}
use linear_cpp.SocketImpl.Send.{send}
use linear_cpp.SocketImpl.Connect.{
  ConnectAnswers, disconnect_state, disconnect, stop_connect_timer, connect_retained, connect_idle,
  connect_state, connect, retain, set_max_send_buffer_size,
}
use linear_cpp.SocketImpl.ConnectTimer.{Keeps, send-Keeps}
use linear_cpp.SocketImpl.Timed.{release_from-sock, connect_started_lem}
use linear_cpp.SocketImpl.Run.{Call, sends, disconnects, connects, limits}

-- What Disconnect makes of a state.
abbrev pub hung_up : State → State
hung_up connecting = disconnecting
hung_up connected = disconnecting
hung_up st = st

disconnect_state-hung_up :
    (st : State) (s : SocketImpl) → s.state ≡ st → (disconnect_state st s).0.state ≡ hung_up st
unfolding disconnect_state stop_connect_timer
disconnect_state-hung_up disconnecting s e = e
disconnect_state-hung_up disconnected s e = e
disconnect_state-hung_up connecting s e = refl
disconnect_state-hung_up connected s e = refl

-- A connect succeeds on a disconnected socket, which is connecting then, or it fails and leaves the
-- state as it was.
abbrev pub Opened : World → World × Error × List Action → Type 0
Opened w r =
    (eq_error r.1 (error lnr_ok) ≡ true)
      × (w.sock.state ≡ disconnected)
      × (r.0.sock.state ≡ connecting)
    ⊎ (eq_error r.1 (error lnr_ok) ≡ false) × (r.0.sock.state ≡ w.sock.state)

failed_lem : (e : Error) → ne_error e (error lnr_ok) ≡ true → eq_error e (error lnr_ok) ≡ false
failed_lem e h = ground (arith, h)

module _ (tv : String → ℤ) where
  module _ (open_stream : SocketImpl → SocketImpl × Error × List Action)
      (keeps : (s : SocketImpl) → Keeps s (open_stream s).0) where
    connect_retained-Opened :
        (timeout : ℕ) (a : ConnectAnswers) (w : World)
        → w.sock.state ≡ disconnected
        → Opened w (connect_retained tv open_stream timeout a w)
    unfolding connect_retained
    connect_retained-Opened timeout a w d =
        let s = record (w.sock) { self = Addrinfo.undefined } in
        let r = open_stream s in
        let kept : r.0.state ≡ w.sock.state = (keeps s).0 in
        if_lem (Opened w) (eq_error r.1 (error lnr_ok)) _ _
          (λ e. inl (e, d, connect_started_lem tv timeout a r.0))
          (λ e. inr (
            e,
            if_lem (λ (x : World). x.sock.state ≡ w.sock.state) a.socket_alive _ _
                (λ f.
                  ap (λ x. x.state) (release_from-sock tv w.delegate (record w { sock = r.0 }))
                  ∙ kept)
                (λ f. kept),
          ))

    connect_idle-Opened :
        (timeout : ℕ) (a : ConnectAnswers) (w : World)
        → w.sock.state ≡ disconnected
        → Opened w (connect_idle tv open_stream timeout a w)
    unfolding connect_idle
    connect_idle-Opened timeout a w d =
        let r = retain tv a.socket_alive w.sock.id w.delegate in
        if_lem (Opened w) (ne_error r.1 (error lnr_ok)) _ _ (λ e. inr (failed_lem r.1 e, refl))
          (λ e. connect_retained-Opened timeout a (record w { delegate = r.0 }) d)

    connect_state-Opened :
        (st : State) (timeout : ℕ) (a : ConnectAnswers) (w : World)
        → w.sock.state ≡ st
        → Opened w (connect_state tv open_stream st timeout a w)
    unfolding connect_state
    connect_state-Opened connecting timeout a w e = inr (refl, refl)
    connect_state-Opened connected timeout a w e = inr (refl, refl)
    connect_state-Opened disconnecting timeout a w e = inr (refl, refl)
    connect_state-Opened disconnected timeout a w e = connect_idle-Opened timeout a w e

    connect-Opened :
        (timeout : ℕ) (a : ConnectAnswers) (w : World)
        → Opened w (connect tv open_stream timeout a w)
    unfolding connect
    connect-Opened timeout a w =
        if_lem (Opened w) (not w.sock.connectable || is_unknown w.sock.peer.proto) _ _
          (λ e. inr (refl, refl)) (λ e. connect_state-Opened w.sock.state timeout a w refl)

  module _ (open_stream : ℕ → SocketImpl → SocketImpl × Error × List Action)
      (keeps : (k : ℕ) (s : SocketImpl) → Keeps s (open_stream k s).0) where
    -- What a call may do to the state.
    abbrev pub Edge : Call → World → Type 0
    Edge (sends m timeout a) w = (send tv m timeout a w.sock).0.state ≡ w.sock.state
    Edge disconnects w = (disconnect false w.sock).0.state ≡ hung_up w.sock.state
    Edge (connects timeout a k) w = Opened w (connect tv (open_stream k) timeout a w)
    Edge (limits n) w = (set_max_send_buffer_size n w.sock).0.state ≡ w.sock.state

    -- Send and the limit of the send buffer leave the state of a socket alone. Disconnect leads from
    -- connecting and from connected to disconnecting, and leaves the other two states. Connect
    -- succeeds only on a disconnected socket, which is connecting then, and leaves the state where it
    -- fails; if the subclass's Connect() leaves the state alone.
    pub act-Edge : (c : Call) (w : World) → Edge c w
    unfolding disconnect set_max_send_buffer_size
    act-Edge (sends m timeout a) w = (send-Keeps tv m timeout a w.sock).0
    act-Edge disconnects w =
        disconnect_state-hung_up w.sock.state (record (w.sock) { handshaking = false }) refl
    act-Edge (connects timeout a k) w = connect-Opened (open_stream k) (keeps k) timeout a w
    act-Edge (limits n) w = refl
