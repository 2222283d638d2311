-- ===== src/SocketImpl/Connect.antt =====
-- Connecting and disconnecting: the constructors, `Connect`, `Disconnect`, `StartRead`, `OnConnect`,
-- `OnHandshakeComplete`, `OnConnectTimeout` and `OnDisconnect` of src/socket_impl.cpp.
use Prim.Native.String.{String}
use linear_cpp.Prelude.{
  ℕ, Bool, true, not, ◌||◌, List, [], ◌∷◌, ◌++◌, map, Option, none, some, ltb, if◌then◌else◌,
}
use linear_cpp.Prelude.Int.{ℤ}
use linear_cpp.ErrorMap.{lnr_ok, lnr_einval, lnr_ealready, lnr_ebusy}
use linear_cpp.Error.{Error, error, eq_error, ne_error}
use linear_cpp.Addrinfo
use linear_cpp.Addrinfo.{Addrinfo, SockAddr, is_unknown}
use linear_cpp.Timer
use linear_cpp.Timer.{Effect}
use linear_cpp.HandlerDelegate
use linear_cpp.HandlerDelegate.{HandlerDelegate}
use linear_cpp.SocketImpl.{
  State, disconnecting, disconnected, connecting, connected, on_connect_timeout, SocketImpl, World,
  Action, closes, limits_sendbuf, timer,
}

-- `SetMaxSendBufferSize`.
unfoldable pub set_max_send_buffer_size : ℕ → SocketImpl → SocketImpl × List Action
set_max_send_buffer_size limit s = (
  record s { max_send_buffer_size = limit },
  if s.has_stream then limits_sendbuf limit ∷ [] else [],
)

-- `connect_timer_.Stop()`.
unfoldable pub stop_connect_timer : SocketImpl → SocketImpl × List Action
stop_connect_timer s =
    let (t, effects) = Timer.stop s.connect_timer in
    (record s { connect_timer = t }, map timer effects)

unfoldable pub disconnect_state : State → SocketImpl → SocketImpl × Error × List Action
disconnect_state disconnecting s = (s, error lnr_ealready, [])
disconnect_state disconnected s = (s, error lnr_ealready, [])
disconnect_state _ s =
    let (s', actions) = stop_connect_timer s in
    (
      record s' { state = disconnecting; last_error = error lnr_ok },
      error lnr_ok,
      actions ++ closes ∷ [],
    )

-- `Disconnect`. `handshaking_` is set in any state.
unfoldable pub disconnect : Bool → SocketImpl → SocketImpl × Error × List Action
unfolding disconnect_state stop_connect_timer
disconnect handshaking s = disconnect_state s.state (record s { handshaking = handshaking })

-- The answers that a connect gets: whether the socket of the event still lives, and the timer's.
pub record ConnectAnswers : Type 0 where
  pub socket_alive : Bool
  pub timer : Timer.Answers
  pub timer_id : ℕ

module _ (tv : String → ℤ) where
  -- `connect_timer_.Start`, whose result is not read.
  unfoldable pub start_connect_timer : ℕ → ConnectAnswers → SocketImpl → SocketImpl × List Action
  start_connect_timer timeout a s =
      let (t, next_id, e, effects) =
        Timer.start_timer tv on_connect_timeout timeout a.timer a.timer_id s.connect_timer in
      (record s { connect_timer = t }, map timer effects)

  -- Behind the virtual `Connect()`, on its success.
  unfoldable pub connect_started : ℕ → ConnectAnswers → SocketImpl → SocketImpl × List Action
  unfolding start_connect_timer
  connect_started timeout a s =
      let s' = record s { state = connecting } in
      if ltb 0 timeout
      then start_connect_timer timeout a (record s' { connect_timeout = timeout })
      else (record s' { connect_timeout = 0 }, [])

  -- `delegate->Retain(socket)`, if both live.
  unfoldable pub retain : Bool → ℤ → Option HandlerDelegate → Option HandlerDelegate × Error
  retain true id (some d) = let (d', e) = HandlerDelegate.retain id d in (some d', e)
  retain _ id d = (d, error lnr_ok)

  -- `delegate->Release(socket)`.
  unfoldable pub release_from : Option HandlerDelegate → World → World
  release_from none w = w
  release_from (some d) w =
      let (d', groups) = HandlerDelegate.release w.sock.id d w.groups in
      record w { delegate = some d'; groups = groups }

  -- The same, if the socket of the event lives too.
  abbrev pub release : Bool → World → World
  release alive w = if alive then release_from w.delegate w else w

  module _ (open_stream : SocketImpl → SocketImpl × Error × List Action) where
    -- From the reset of the self info on; `open_stream` is the subclass's `Connect()`.
    unfoldable pub connect_retained : ℕ → ConnectAnswers → World → World × Error × List Action
    unfolding connect_started
    connect_retained timeout a w =
        let (s, e, actions) = open_stream (record (w.sock) { self = Addrinfo.undefined }) in
        let (s', more) = connect_started timeout a s in
        if eq_error e (error lnr_ok)
        then (record w { sock = s' }, e, actions ++ more)
        else (release a.socket_alive (record w { sock = s }), e, actions)

    unfoldable pub connect_idle : ℕ → ConnectAnswers → World → World × Error × List Action
    unfolding connect_retained retain
    connect_idle timeout a w =
        let (d, e) = retain a.socket_alive w.sock.id w.delegate in
        if ne_error e (error lnr_ok)
        then (record w { delegate = d }, e, [])
        else connect_retained timeout a (record w { delegate = d })

    unfoldable pub connect_state : State → ℕ → ConnectAnswers → World → World × Error × List Action
    unfolding connect_idle
    connect_state connecting timeout a w = (w, error lnr_ealready, [])
    connect_state connected timeout a w = (w, error lnr_ealready, [])
    connect_state disconnecting timeout a w = (w, error lnr_ebusy, [])
    connect_state disconnected timeout a w = connect_idle timeout a w

    -- `Connect(timeout, ev)`.
    unfoldable pub connect : ℕ → ConnectAnswers → World → World × Error × List Action
    unfolding connect_state
    connect timeout a w =
        if not w.sock.connectable || is_unknown w.sock.peer.proto
        then (w, error lnr_einval, [])
        else connect_state w.sock.state timeout a w
