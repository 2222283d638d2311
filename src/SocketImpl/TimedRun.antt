-- ===== src/SocketImpl/TimedRun.antt =====
-- The connect timer over whole runs of a client socket (src/socket_impl.cpp).
use Prim.Native.String.{String}
use linear_cpp.Prelude.{
  ℕ, ◌≡◌, ◌≢◌, refl, ap, ◌∙◌, inr, Bool, true, List, [], ◌∷◌, Option, none, some, if_lem, ◌&&◌,
}
use linear_cpp.Prelude.Int.{ℤ, nonzero}
use linear_cpp.ErrorMap.{lnr_ews}
use linear_cpp.Error.{Error, error, eq_error}
use linear_cpp.Addrinfo.{SockAddr}
use linear_cpp.SocketImpl.{
  State, disconnecting, disconnected, connecting, connected, SocketImpl, World, Action,
}
use linear_cpp.SocketImpl.Send.{Answers, send_pending, discard}
use linear_cpp.SocketImpl.Connect.{
  ConnectAnswers, stop_connect_timer, release_from, set_max_send_buffer_size,
}
use linear_cpp.SocketImpl.Events.{
  Connection, open_connection, connect_begin_state, connect_begin, finish_state, connect_finish,
  on_connect, on_connect_timeout, check_retry_auth, is_web, with_code, with_self, finish_disconnect,
  retry, after_release, disconnect_by_state, on_disconnect,
}
use linear_cpp.SocketImpl.Receive.{on_read, on_write, on_request_timeout, request_timed_out}
use linear_cpp.SocketImpl.ConnectTimer.{
  IsStopped, IsTimed, IsHeld, Keeps, Keeps-IsTimed, Keeps-IsHeld, stop_connect_timer_lem,
  send_pending-Keeps,
}
use linear_cpp.SocketImpl.Run.{
  Call, Event, calls, connected as reports_connected, disconnected as reports_disconnected,
  times_out, hears, acts, reads, wrote, request_timeout, interleaved, step, run,
}
use linear_cpp.SocketImpl.Timed.{
  release_from-sock, connect_timed, act-IsTimed, acts-IsHeld, acts-IsTimed,
}
use linear_cpp.SocketImpl.Kept.{read_state-IsTimed, on_write-Keeps}

module _ (tv : String → ℤ) where
  with_self-Keeps : (o : Option SockAddr) (s : SocketImpl) → Keeps s (with_self o s)
  unfolding with_self
  with_self-Keeps none s = (refl, refl)
  with_self-Keeps (some sa) s = (refl, refl)

  -- What OnConnect leaves when it lets go of the lock.
  abbrev IsBegun : SocketImpl × Bool × List Action → Type 0
  IsBegun r = IsStopped r.0 × (r.1 ≡ true → r.0.state ≢ disconnected)

  open_connection_lem :
      (c : Connection) (s : SocketImpl)
      → s.state ≡ connecting
      → IsStopped s
      → IsBegun (open_connection tv c s)
  unfolding open_connection set_max_send_buffer_size
  open_connection_lem c s e h =
      let k = with_self-Keeps c.self s in
      if_lem IsBegun (nonzero c.status) _ _ (λ f. (h, λ g. cc))
        (λ f. (ap (λ t. t.state) k.1 ∙ h, λ g i. cc (k.0, e, i)))

  connect_begin_state_lem :
      (st : State) (c : Connection) (s : SocketImpl)
      → s.state ≡ st
      → IsStopped s
      → IsBegun (connect_begin_state tv st c s)
  unfolding connect_begin_state
  connect_begin_state_lem connecting c s e h = open_connection_lem c s e h
  connect_begin_state_lem connected c s e h = (h, λ g. cc)
  connect_begin_state_lem disconnecting c s e h = (h, λ g. cc)
  connect_begin_state_lem disconnected c s e h = (h, λ g. cc)

  connect_begin_lem : (c : Connection) (s : SocketImpl) → IsBegun (connect_begin tv c s)
  unfolding connect_begin
  connect_begin_lem c s =
      let s' = (stop_connect_timer s).0 in
      connect_begin_state_lem s'.state c s' refl (stop_connect_timer_lem s)

  finish_state-IsHeld : (st : State) (s : SocketImpl) → IsHeld s → IsHeld (finish_state tv st s)
  unfolding finish_state
  finish_state-IsHeld connecting s h = (h.0, λ e. cc)
  finish_state-IsHeld connected s h = h
  finish_state-IsHeld disconnecting s h = h
  finish_state-IsHeld disconnected s h = h

  connect_finish-IsHeld : (s : SocketImpl) → IsHeld s → IsHeld (connect_finish tv s)
  unfolding connect_finish
  connect_finish-IsHeld s h = finish_state-IsHeld s.state s h

  module _ (open_stream : ℕ → SocketImpl → SocketImpl × Error × List Action)
      (keeps : (k : ℕ) (s : SocketImpl) → Keeps s (open_stream k s).0) where
    on_connect-IsTimed :
        (c : Connection) (during between : List Call) (answers : ℕ → Answers) (w : World)
        (s : SocketImpl)
        → IsTimed
            (on_connect tv c
              (interleaved tv open_stream during w)
              (interleaved tv open_stream between w)
              answers
              w.delegate
              s).0
    unfolding on_connect
    on_connect-IsTimed c during between answers w s =
        let b = connect_begin tv c s in
        let begun = connect_begin_lem c s in
        let s₁ = interleaved tv open_stream during w b.0 in
        let s₂ = interleaved tv open_stream between w (connect_finish tv s₁) in
        if_lem (λ (r : SocketImpl × List Action). IsTimed r.0) b.1 _ _
          (λ e.
            let held₁ =
              acts-IsHeld tv open_stream keeps during (record w { sock = b.0 })
                (begun.0, begun.1 e) in
            let held₂ =
              acts-IsHeld tv open_stream keeps between (record w { sock = connect_finish tv s₁ })
                (connect_finish-IsHeld s₁ held₁) in
            inr
              (Keeps-IsHeld s₂ (send_pending tv w.delegate answers s₂).0
                (send_pending-Keeps tv w.delegate answers s₂) held₂).0)
          (λ e. inr begun.0)

    abbrev EndsWorld : World × List Action → Type 0
    EndsWorld r = IsTimed r.0.sock

    module _ (k : ℕ) (between : World → World)
        (timed : (w : World) → IsTimed w.sock → IsTimed (between w).sock) where
      finish_disconnect_timed :
          (w : World) → IsTimed w.sock → EndsWorld (finish_disconnect tv (open_stream k) w)
      unfolding finish_disconnect discard
      finish_disconnect_timed w h = h

      retry_timed :
          (allocated : Bool) (a : ConnectAnswers) (w : World)
          → IsTimed w.sock
          → EndsWorld (retry tv (open_stream k) allocated a w)
      unfolding retry
      retry_timed allocated a w h =
          if_lem EndsWorld allocated _ _
            (λ e. connect_timed tv (open_stream k) (keeps k) w.sock.connect_timeout a w h) (λ e. h)

      after_release_timed :
          (allocated : Bool) (a : ConnectAnswers) (w : World)
          → IsTimed w.sock
          → EndsWorld (after_release tv (open_stream k) between allocated a w)
      unfolding after_release
      after_release_timed allocated a w h =
          let failed = record w { sock = with_code 503 w.sock } in
          if_lem EndsWorld (w.sock.connectable && is_web w.sock.kind) _ _
            (λ e.
              if_lem EndsWorld (eq_error w.sock.last_error (error lnr_ews)) _ _
                (λ f.
                  if_lem EndsWorld (check_retry_auth w.sock) _ _
                    (λ g. retry_timed allocated a (between w) (timed w h))
                    (λ g. finish_disconnect_timed (between w) (timed w h)))
                (λ f. finish_disconnect_timed (between failed) (timed failed h)))
            (λ e. finish_disconnect_timed (between w) (timed w h))

      released_timed :
          (allocated : Bool) (a : ConnectAnswers) (w : World)
          → IsTimed w.sock
          → EndsWorld
              (after_release tv (open_stream k) between allocated a (release_from tv w.delegate w))
      released_timed allocated a w h =
          after_release_timed allocated a (release_from tv w.delegate w)
            (rw (release_from-sock tv w.delegate w) h)

      disconnect_by_state_timed :
          (st : State) (during : World → World) (allocated : Bool) (a : ConnectAnswers) (w : World)
          → ((v : World) → IsTimed v.sock → IsTimed (during v).sock)
          → IsStopped w.sock
          → EndsWorld (disconnect_by_state tv (open_stream k) st during between allocated a w)
      unfolding disconnect_by_state
      disconnect_by_state_timed disconnected during allocated a w t h = inr h
      disconnect_by_state_timed connecting during allocated a w t h =
          released_timed allocated a _ (t _ (inr h))
      disconnect_by_state_timed connected during allocated a w t h =
          released_timed allocated a _ (t _ (inr h))
      disconnect_by_state_timed disconnecting during allocated a w t h =
          released_timed allocated a _ (t _ (inr h))

    step-IsTimed : (e : Event) (w : World) → IsTimed w.sock → IsTimed (step tv open_stream e w).sock
    unfolding step on_connect_timeout on_read on_disconnect request_timed_out on_request_timeout
    step-IsTimed (calls c) w h = act-IsTimed tv open_stream keeps c w h
    step-IsTimed (reports_connected r c during between answers) w h =
        on_connect-IsTimed c during between answers w (hears r w.sock)
    step-IsTimed (times_out r c during between answers) w h =
        on_connect-IsTimed (record c { status = tv "ETIMEDOUT" }) during between answers w
          (hears r w.sock)
    step-IsTimed (reports_disconnected during between allocated a k) w h =
        disconnect_by_state_timed k (acts tv open_stream between)
          (acts-IsTimed tv open_stream keeps between) (stop_connect_timer w.sock).0.state
          (acts tv open_stream during) allocated a
          (record w { sock = (stop_connect_timer w.sock).0 })
          (acts-IsTimed tv open_stream keeps during) (stop_connect_timer_lem w.sock)
    step-IsTimed (reads during r) w h =
        read_state-IsTimed tv w.sock.state (interleaved tv open_stream during w) w.delegate r w.sock
          h (acts-IsTimed tv open_stream keeps during w h)
    step-IsTimed (wrote m status) w h =
        Keeps-IsTimed w.sock (on_write tv w.delegate m status w.sock).0
          (on_write-Keeps tv w.delegate m status w.sock) h
    step-IsTimed (request_timeout t) w h = h

    -- The connect timer runs only while the socket is connecting: this holds after any run of calls
    -- and of reports of the event loop (OnHandshakeComplete, which only a server's socket gets, is
    -- not among them), from a socket for which it holds, whatever the calls do while OnConnect, OnRead
    -- and OnDisconnect let go of the lock, if the subclass's Connect() leaves the state and the connect timer alone.
    pub run_connect_timer :
        (es : List Event) (w : World) → IsTimed w.sock → IsTimed (run tv open_stream es w).sock
    unfolding run
    run_connect_timer [] w h = h
    run_connect_timer (e ∷ es) w h =
        run_connect_timer es (step tv open_stream e w) (step-IsTimed e w h)
