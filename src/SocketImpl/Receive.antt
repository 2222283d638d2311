-- ===== src/SocketImpl/Receive.antt =====
-- Receiving and the ends of requests: `OnRead`, `OnWrite` and `OnRequestTimeout` of
-- src/socket_impl.cpp, with `EventLoopImpl::OnRequestTimeout` of src/event_loop_impl.cpp.
use Prim.Native.String.{String}
use linear_cpp.Prelude.{
  ℕ, Bool, true, false, List, [], ◌∷◌, ◌++◌, map, Option, none, some, ltb, ◌==◌, erase_first, Bytes,
  if◌then◌else◌,
}
use linear_cpp.Prelude.Int.{ℤ, nonzero, eq_ℤ}
use linear_cpp.ErrorMap.{lnr_essl, lnr_etimedout}
use linear_cpp.Error.{Error, error, from_status}
use linear_cpp.Timer
use linear_cpp.Message.{Request, Notify, Message, request, response, notify, undefined}
use linear_cpp.HandlerDelegate
use linear_cpp.HandlerDelegate.{HandlerDelegate}
use linear_cpp.SocketImpl.{
  State, disconnecting, disconnected, RequestTimer, SocketImpl, Action, timer, deletes_timer, calls,
}
use linear_cpp.SocketImpl.Send.{report}
use linear_cpp.SocketImpl.Connect.{disconnect}

-- What one object of the unpacker is: a message with the fields of its type, one that does not
-- convert or has another type (`bad_cast`), or bytes that are no object (another exception). A
-- `_Response` has no request.
pub data Incoming : Type 0 where
  request_in : Request → Incoming
  response_in : ℕ → Bytes → Bytes → Incoming
  notify_in : Notify → Incoming
  bad_cast malformed : Incoming

-- A read: its end with a status that is not positive and the stream's SSL error, or the objects
-- that the unpacker gives for the bytes, with the size of what it holds behind them.
pub data Read : Type 0 where
  ended : ℤ → ℕ → Read
  received : List Incoming → ℕ → Read

abbrev pub has_msgid : ℕ → RequestTimer → Bool
has_msgid msgid t = msgid == t.request.msgid

unfoldable pub find_timer : (RequestTimer → Bool) → List RequestTimer → Option RequestTimer
find_timer p [] = none
find_timer p (t ∷ ts) = if p t then some t else find_timer p ts

-- `delete *it`: the destructor stops the timer.
abbrev pub delete_timer : RequestTimer → List Action
delete_timer t = map timer (Timer.stop t.timer).1 ++ deletes_timer t.address ∷ []

unfoldable pub deliver : Option HandlerDelegate → ℤ → Message → List Action
deliver none id m = []
deliver (some d) id m = map calls (HandlerDelegate.message id m d)

-- The loop over the request timers for a response.
unfoldable pub answer_request :
    Option HandlerDelegate
    → ℕ
    → Bytes
    → Bytes
    → SocketImpl
    → Option RequestTimer
    → SocketImpl × List Action
answer_request d msgid result error s none = (s, [])
answer_request d msgid result error s (some t) = (
  record s { request_timers = erase_first (has_msgid msgid) s.request_timers },
  delete_timer t
      ++ deliver d s.id (
          response (record { request = t.request; msgid = msgid; result = result; error = error })),
)

-- One object: true if the loop goes on.
unfoldable pub take_one :
    Option HandlerDelegate → Incoming → SocketImpl → SocketImpl × Bool × List Action
unfolding answer_request
take_one d (request_in r) s = (s, true, deliver d s.id (request r))
take_one d (response_in msgid result error) s =
    let (s', actions) =
      answer_request d msgid result error s (find_timer (has_msgid msgid) s.request_timers) in
    (s', true, actions)
take_one d (notify_in n) s = (s, true, deliver d s.id (notify n))
take_one d bad_cast s = (s, false, [])
take_one d malformed s = (s, false, [])

-- The loop over the objects: true if none threw.
unfoldable pub take_all :
    Option HandlerDelegate → List Incoming → SocketImpl → SocketImpl × Bool × List Action
take_all d [] s = (s, true, [])
take_all d (x ∷ xs) s =
    let (s', go_on, actions) = take_one d x s in
    let (s'', all_taken, rest) = take_all d xs s' in
    if go_on then (s'', all_taken, actions ++ rest) else (s', false, actions)

module _ (tv : String → ℤ) where
  unfoldable pub read_error : ℤ → ℕ → Error
  read_error status ssl_error =
      if eq_ℤ status (tv "ESSL")
      then record { code = lnr_essl; detail_code = ssl_error }
      else from_status tv status

  unfoldable pub read_open : Option HandlerDelegate → Read → SocketImpl → SocketImpl × List Action
  unfolding read_error
  read_open d (ended status ssl_error) s =
      let (s', e, actions) = disconnect s.handshaking s in
      (record s' { last_error = read_error status ssl_error }, actions)
  read_open d (received xs size) s =
      let (s', all_taken, actions) = take_all d xs s in
      let (s'', e, closing) = disconnect false s' in
      if all_taken
      then if ltb s.max_recv_buffer_size size then (s'', actions ++ closing) else (s', actions)
      else (s'', actions ++ closing)

  -- `during` is what other threads do to the socket when the lock is free again.
  unfoldable pub read_state :
      State
      → (SocketImpl → SocketImpl)
      → Option HandlerDelegate
      → Read
      → SocketImpl
      → SocketImpl × List Action
  unfolding read_open
  read_state disconnecting during d r s = (s, [])
  read_state disconnected during d r s = (s, [])
  read_state _ during d r s = read_open d r (during s)

  -- `OnRead`, with `during` as above. Behind it, and in the handler's callbacks, the socket is taken
  -- as not touched by others.
  unfoldable pub on_read :
      (SocketImpl → SocketImpl)
      → Option HandlerDelegate
      → Read
      → SocketImpl
      → SocketImpl × List Action
  unfolding read_state
  on_read during d r s = read_state s.state during d r s

  unfoldable pub forget_request : ℕ → SocketImpl → Option RequestTimer → SocketImpl × List Action
  forget_request msgid s none = (s, [])
  forget_request msgid s (some t) =
      (record s { request_timers = erase_first (has_msgid msgid) s.request_timers }, delete_timer t)

  unfoldable pub write_failed :
      Option HandlerDelegate → Message → Error → SocketImpl → SocketImpl × List Action
  unfolding forget_request
  write_failed none m e s = (s, [])
  write_failed (some d) undefined e s = (s, [])
  write_failed (some d) (request r) e s =
      let (s', actions) =
        forget_request r.msgid s (find_timer (has_msgid r.msgid) s.request_timers) in
      (s', actions ++ report (some d) s.id (request r) e)
  write_failed (some d) m e s = (s, report (some d) s.id m e)

  -- `OnWrite`: the end of a write, with its status.
  unfoldable pub on_write :
      Option HandlerDelegate → Message → ℤ → SocketImpl → SocketImpl × List Action
  unfolding write_failed
  on_write d m status s =
      if nonzero status then write_failed d m (from_status tv status) s else (s, [])

-- `OnRequestTimeout`: the first timer of that message id leaves the list.
unfoldable pub on_request_timeout :
    Option HandlerDelegate → Request → SocketImpl → SocketImpl × List Action
on_request_timeout d r s = (
  record s { request_timers = erase_first (has_msgid r.msgid) s.request_timers },
  report d s.id (request r) (error lnr_etimedout),
)

-- `EventLoopImpl::OnRequestTimeout` on the timer that ran out: it is deleted at the end.
unfoldable pub request_timed_out :
    Option HandlerDelegate → RequestTimer → SocketImpl → SocketImpl × List Action
request_timed_out d t s =
    let (s', actions) = on_request_timeout d t.request s in
    (s', actions ++ deletes_timer t.address ∷ [])
