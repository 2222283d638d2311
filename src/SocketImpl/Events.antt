-- ===== src/SocketImpl/Events.antt =====
-- What the event loop reports of a connection: `StartRead`, `OnConnect`, `OnHandshakeComplete`,
-- `OnConnectTimeout` and `OnDisconnect` of src/socket_impl.cpp, and `CheckRetryAuth` of
-- src/ws_socket_impl.cpp and src/wss_socket_impl.cpp.
use Prim.Native.String.{String}
use linear_cpp.Prelude.{
  ℕ, Bool, true, false, ◌&&◌, List, [], ◌∷◌, ◌++◌, map, Option, none, some, ltb, ◌==◌,
  if◌then◌else◌,
}
use linear_cpp.Prelude.Int.{ℤ, nonzero, eq_ℤ}
use linear_cpp.ErrorMap.{lnr_ok, lnr_ews, lnr_essl, lnr_ex509}
use linear_cpp.Error.{Error, error, from_status, eq_error}
use linear_cpp.Addrinfo
use linear_cpp.Addrinfo.{SockAddr}
use linear_cpp.Auth.Header.{digest, eq_type}
use linear_cpp.HandlerDelegate
use linear_cpp.HandlerDelegate.{HandlerDelegate}
use linear_cpp.SocketImpl.{
  State, disconnecting, disconnected, connecting, connected, Kind, ws, wss, SocketImpl, World,
  Action, closes, reads, calls,
}
use linear_cpp.SocketImpl.Send.{Answers, send_pending, discard}
use linear_cpp.SocketImpl.Connect.{
  ConnectAnswers, set_max_send_buffer_size, stop_connect_timer, disconnect, connect, release_from,
}

-- What libtv reports with a connection: the status, the SSL error of the stream, the socket's own
-- address, and the result of tv_read_start.
pub record Connection : Type 0 where
  pub status : ℤ
  pub ssl_error : ℕ
  pub self : Option SockAddr
  pub read_status : ℤ

-- `delegate->OnConnect(socket)`, if the delegate lives.
report_connect : Option HandlerDelegate → ℤ → List Action
report_connect none id = []
report_connect (some d) id = map calls (HandlerDelegate.connected id d)

unfoldable pub report_disconnect : Option HandlerDelegate → ℤ → Error → List Action
report_disconnect none id e = []
report_disconnect (some d) id e = map calls (HandlerDelegate.disconnected id e d)

unfoldable pub with_self : Option SockAddr → SocketImpl → SocketImpl
with_self none s = s
with_self (some sa) s = record s { self = Addrinfo.from_sockaddr sa }

module _ (tv : String → ℤ) where
  -- The error of a failed connection.
  unfoldable pub connection_error : Connection → Error
  connection_error c =
      if eq_ℤ c.status (tv "ESSL")
      then record { code = lnr_essl; detail_code = c.ssl_error }
      else if eq_ℤ c.status (tv "EX509")
      then record { code = lnr_ex509; detail_code = c.ssl_error }
      else if eq_ℤ c.status (tv "EWS")
      then error lnr_ews
      else from_status tv c.status

  -- `StartRead`.
  unfoldable pub start_read : ℤ → Error × List Action
  start_read status =
      if nonzero status then (from_status tv status, closes ∷ []) else (error lnr_ok, reads ∷ [])

  -- `OnConnect` on a socket that is connecting, up to the handler: true if it goes on.
  unfoldable pub open_connection : Connection → SocketImpl → SocketImpl × Bool × List Action
  unfolding connection_error with_self
  open_connection c s =
      let (s', limits) = set_max_send_buffer_size s.max_send_buffer_size (with_self c.self s) in
      let (e, actions) = start_read c.read_status in
      if nonzero c.status
      then (record s { state = disconnecting; last_error = connection_error c }, false, closes ∷ [])
      else (record s' { last_error = e }, eq_error e (error lnr_ok), limits ++ actions)

  unfoldable pub connect_begin_state :
      State → Connection → SocketImpl → SocketImpl × Bool × List Action
  unfolding open_connection
  connect_begin_state connecting c s = open_connection c s
  connect_begin_state _ c s = (s, false, [])

  -- `OnConnect` from its start to where it lets go of the lock: true if it goes on to the handler.
  unfoldable pub connect_begin : Connection → SocketImpl → SocketImpl × Bool × List Action
  unfolding connect_begin_state
  connect_begin c s =
      let (s', stopped) = stop_connect_timer s in
      let (s'', go_on, actions) = connect_begin_state s'.state c s' in
      (s'', go_on, stopped ++ actions)

  unfoldable pub finish_state : State → SocketImpl → SocketImpl
  finish_state connecting s = record s { state = connected }
  finish_state _ s = s

  -- Behind the handler, under the lock again.
  unfoldable pub connect_finish : SocketImpl → SocketImpl
  unfolding finish_state
  connect_finish s = finish_state s.state s

  -- `OnConnect`. `during` is what the handler's OnConnect and other threads do to the socket while
  -- the lock is free, and `between` what they do before the pending messages are sent.
  unfoldable pub on_connect :
      Connection
      → (SocketImpl → SocketImpl)
      → (SocketImpl → SocketImpl)
      → (ℕ → Answers)
      → Option HandlerDelegate
      → SocketImpl
      → SocketImpl × List Action
  unfolding report_connect
  on_connect c during between answers d s =
      let (s', go_on, actions) = connect_begin c s in
      let (s'', sent) = send_pending tv d answers (between (connect_finish (during s'))) in
      if go_on then (s'', actions ++ (report_connect d s.id ++ sent)) else (s', actions)

  -- `OnConnectTimeout`; `during` and `between` as above.
  unfoldable pub on_connect_timeout :
      Connection
      → (SocketImpl → SocketImpl)
      → (SocketImpl → SocketImpl)
      → (ℕ → Answers)
      → Option HandlerDelegate
      → SocketImpl
      → SocketImpl × List Action
  on_connect_timeout c = on_connect (record c { status = tv "ETIMEDOUT" })

  -- `OnHandshakeComplete`; `between` as above.
  unfoldable pub on_handshake_complete :
      ℤ
      → (SocketImpl → SocketImpl)
      → (ℕ → Answers)
      → Option HandlerDelegate
      → SocketImpl
      → SocketImpl × List Action
  on_handshake_complete status between answers d s =
      let (s', e, actions) = disconnect true s in
      if nonzero status
      then (s', actions)
      else send_pending tv d answers (between (record s { handshaking = false; state = connected }))

-- `CheckRetryAuth`; WSHS_UNAUTHORIZED is 401.
unfoldable pub check_retry_auth : SocketImpl → Bool
check_retry_auth s =
    s.response_context.code == 401
    && (eq_type s.authenticate_context.kind digest && ltb s.authenticate_context.nc 2)

abbrev pub is_web : Kind → Bool
is_web ws = true
is_web wss = true
is_web _ = false

-- `SetWSResponseContext` of a fresh context with a code.
abbrev pub with_code : ℕ → SocketImpl → SocketImpl
with_code code s = record s { response_context = record { code = code; headers = [] } }

module _ (tv : String → ℤ) (open_stream : SocketImpl → SocketImpl × Error × List Action) where
  -- The end of `OnDisconnect`.
  unfoldable pub finish_disconnect : World → World × List Action
  unfolding report_disconnect
  finish_disconnect w =
      let (s, actions) = discard w.delegate w.sock in
      (
        record w { sock = record s { self = Addrinfo.undefined } },
        actions ++ (if s.handshaking then [] else report_disconnect w.delegate s.id s.last_error),
      )

  -- The retry of a digest authentication, if the event for it can be allocated. Its result is not
  -- read.
  unfoldable pub retry : Bool → ConnectAnswers → World → World × List Action
  retry allocated a w =
      let (w', e, actions) = connect tv open_stream w.sock.connect_timeout a w in
      if allocated then (w', actions) else (record w { sock = with_code 500 w.sock }, [])

  -- `OnDisconnect` behind the release; `between` is what other threads do before the retry, or before
  -- the messages are discarded.
  unfoldable pub after_release :
      (World → World) → Bool → ConnectAnswers → World → World × List Action
  unfolding finish_disconnect retry
  after_release between allocated a w =
      if w.sock.connectable && is_web w.sock.kind
      then if eq_error w.sock.last_error (error lnr_ews)
        then if check_retry_auth w.sock
          then retry allocated a (between w)
          else finish_disconnect (between w)
        else finish_disconnect (between (record w { sock = with_code 503 w.sock }))
      else finish_disconnect (between w)

  -- `during` is what other threads do as soon as the lock is free, before the release.
  unfoldable pub disconnect_by_state :
      State
      → (World → World)
      → (World → World)
      → Bool
      → ConnectAnswers
      → World
      → World × List Action
  disconnect_by_state disconnected during between allocated a w = (w, [])
  disconnect_by_state _ during between allocated a w =
      let w' = during (record w { sock = record (w.sock) { state = disconnected } }) in
      after_release between allocated a (release_from tv w'.delegate w')

  -- `OnDisconnect`, with `during` and `between` as above.
  unfoldable pub on_disconnect :
      (World → World) → (World → World) → Bool → ConnectAnswers → World → World × List Action
  unfolding disconnect_by_state
  on_disconnect during between allocated a w =
      let (s, stopped) = stop_connect_timer w.sock in
      let (w', actions) =
        disconnect_by_state s.state during between allocated a (record w { sock = s }) in
      (w', stopped ++ actions)

-- Nothing is done by other threads.
abbrev pub alone : World → World
alone w = w
