-- ===== src/SocketImpl/Matching.antt =====
-- Which request a response answers (`OnRead` of src/socket_impl.cpp).
use Prim.Native.String.{String}
use linear_cpp.Prelude.{
  ℕ, ◌+◌, ==_iff, ◌≡◌, refl, ◌∙◌, Bool, false, List, [], ◌∷◌, ◌++◌, arith, count, count-append,
  if_lem, Option, none, some, All, All-append, ltb, Bytes,
}
use linear_cpp.Prelude.Int.{ℤ}
use linear_cpp.Timer
use linear_cpp.Timer.{Effect}
use linear_cpp.Message.{Request, Response, request, response, notify}
use linear_cpp.HandlerDelegate.{HandlerDelegate}
use linear_cpp.SocketImpl.{
  State, disconnecting, disconnected, connecting, connected, RequestTimer, SocketImpl, Action,
  closes, deletes_timer,
}
use linear_cpp.SocketImpl.Sending.{requests}
use linear_cpp.SocketImpl.Discarding.{IsHeard}
use linear_cpp.SocketImpl.Connect.{disconnect, disconnect_state, stop_connect_timer}
use linear_cpp.SocketImpl.Receive.{
  Incoming, request_in, response_in, notify_in, bad_cast, malformed, Read, ended, received,
  has_msgid, find_timer, delete_timer, deliver, answer_request, take_one, take_all, read_open,
  read_state, on_read,
}
use linear_cpp.SocketImpl.Responses.{
  delivered, answered, IsMatched, delivered-append, delivered-timer, answered-append,
  deliver-response, deliver-request, deliver-notify, find_timer-erase_first, find_timer-passes,
}

-- From s to s': for any test q, the waiting requests that pass it lost as many as were answered,
-- and each response delivered has the id of its request.
abbrev pub IsAccounted : (Request → Bool) → SocketImpl → SocketImpl → List Action → Type 0
IsAccounted q s s' actions =
    (count q (answered (delivered actions)) + count q (requests s'.request_timers)
      ≡ count q (requests s.request_timers))
    × All IsMatched (delivered actions)

IsAccounted-none :
    (q : Request → Bool) (s s' : SocketImpl) (actions : List Action)
    → s'.request_timers ≡ s.request_timers
    → delivered actions ≡ []
    → IsAccounted q s s' actions
IsAccounted-none q s s' actions e f = rw (e, f) (omega arith, tt)

IsAccounted-append :
    (q : Request → Bool) (s s' s'' : SocketImpl) (xs ys : List Action)
    → IsAccounted q s s' xs
    → IsAccounted q s' s'' ys
    → IsAccounted q s s'' (xs ++ ys)
IsAccounted-append q s s' s'' xs ys f g =
    rw (delivered-append xs ys, answered-append (delivered xs) (delivered ys))
      (
        rw (count-append q (answered (delivered xs)) (answered (delivered ys)))
            (omega (arith, f.0, g.0)),
        All-append IsMatched (delivered xs) (delivered ys) f.1 g.1,
      )

state_lem :
    (st : State) (s : SocketImpl)
    → ((disconnect_state st s).0.request_timers ≡ s.request_timers)
      × (delivered (disconnect_state st s).2 ≡ [])
unfolding disconnect_state stop_connect_timer
state_lem disconnecting s = (refl, refl)
state_lem disconnected s = (refl, refl)
state_lem connecting s = (refl, delivered-timer (Timer.stop s.connect_timer).1 (closes ∷ []))
state_lem connected s = (refl, delivered-timer (Timer.stop s.connect_timer).1 (closes ∷ []))

-- The socket with which a read goes on: other threads had it meanwhile, unless it is closed.
abbrev pub entered : State → (SocketImpl → SocketImpl) → SocketImpl → SocketImpl
entered disconnecting during s = s
entered disconnected during s = s
entered _ during s = during s

module _ (q : Request → Bool) (d : Option HandlerDelegate) (h : IsHeard d) where
  answer_request_lem :
      (msgid : ℕ) (result error : Bytes) (s : SocketImpl) (o : Option RequestTimer)
      → find_timer (has_msgid msgid) s.request_timers ≡ o
      → IsAccounted q s
          (answer_request d msgid result error s o).0
          (answer_request d msgid result error s o).1
  unfolding answer_request
  answer_request_lem msgid result error s none e = (omega arith, tt)
  answer_request_lem msgid result error s (some t) e =
      let r : Response = record {
        request = t.request;
        msgid = msgid;
        result = result;
        error = error;
      } in
      let one : delivered (delete_timer t ++ deliver d s.id (response r)) ≡ r ∷ [] =
        delivered-append (delete_timer t) (deliver d s.id (response r))
        ∙ rw (delivered-timer (Timer.stop t.timer).1 (deletes_timer t.address ∷ []))
            (deliver-response d s.id r h) in
      rw one (
        ground (arith, find_timer-erase_first (has_msgid msgid) q s.request_timers t e),
        (
          (==_iff msgid t.request.msgid).0
              (find_timer-passes (has_msgid msgid) s.request_timers t e),
          tt,
        ),
      )

  take_one_lem :
      (x : Incoming) (s : SocketImpl) → IsAccounted q s (take_one d x s).0 (take_one d x s).2
  unfolding take_one
  take_one_lem (request_in r) s =
      IsAccounted-none q s s (deliver d s.id (request r)) refl (deliver-request d s.id r h)
  take_one_lem (response_in msgid result error) s =
      answer_request_lem msgid result error s (find_timer (has_msgid msgid) s.request_timers) refl
  take_one_lem (notify_in n) s =
      IsAccounted-none q s s (deliver d s.id (notify n)) refl (deliver-notify d s.id n h)
  take_one_lem bad_cast s = (omega arith, tt)
  take_one_lem malformed s = (omega arith, tt)

  take_all_lem :
      (xs : List Incoming) (s : SocketImpl)
      → IsAccounted q s (take_all d xs s).0 (take_all d xs s).2
  unfolding take_all
  take_all_lem [] s = (omega arith, tt)
  take_all_lem (x ∷ xs) s =
      let r = take_one d x s in
      if_lem (λ (t : SocketImpl × Bool × List Action). IsAccounted q s t.0 t.2) r.1 _ _
        (λ e.
          IsAccounted-append q s r.0 (take_all d xs r.0).0 r.2 (take_all d xs r.0).2
            (take_one_lem x s) (take_all_lem xs r.0))
        (λ e. take_one_lem x s)

  disconnect_lem :
      (handshaking : Bool) (s : SocketImpl)
      → ((disconnect handshaking s).0.request_timers ≡ s.request_timers)
        × (delivered (disconnect handshaking s).2 ≡ [])
  unfolding disconnect
  disconnect_lem handshaking s = state_lem s.state (record s { handshaking = handshaking })

  read_open_lem :
      (tv : String → ℤ) (r : Read) (s : SocketImpl)
      → IsAccounted q s (read_open tv d r s).0 (read_open tv d r s).1
  unfolding read_open
  read_open_lem tv (ended status ssl_error) s =
      let e = disconnect_lem s.handshaking s in
      IsAccounted-none q s (disconnect s.handshaking s).0 (disconnect s.handshaking s).2 e.0 e.1
  read_open_lem tv (received xs size) s =
      let r = take_all d xs s in
      let e = disconnect_lem false r.0 in
      let closed =
        IsAccounted-append q s r.0 (disconnect false r.0).0 r.2 (disconnect false r.0).2
          (take_all_lem xs s)
          (IsAccounted-none q r.0 (disconnect false r.0).0 (disconnect false r.0).2 e.0 e.1) in
      if_lem (λ (t : SocketImpl × List Action). IsAccounted q s t.0 t.1) r.1 _ _
        (λ e.
          if_lem (λ (t : SocketImpl × List Action). IsAccounted q s t.0 t.1)
            (ltb s.max_recv_buffer_size size) _ _ (λ f. closed) (λ f. take_all_lem xs s))
        (λ e. closed)

  read_state_lem :
      (tv : String → ℤ) (st : State) (during : SocketImpl → SocketImpl) (r : Read) (s : SocketImpl)
      → IsAccounted q
          (entered st during s)
          (read_state tv st during d r s).0
          (read_state tv st during d r s).1
  unfolding read_state
  read_state_lem tv disconnecting during r s = (omega arith, tt)
  read_state_lem tv disconnected during r s = (omega arith, tt)
  read_state_lem tv connecting during r s = read_open_lem tv r (during s)
  read_state_lem tv connected during r s = read_open_lem tv r (during s)

-- What one read delivers to a live handler, whatever arrives, and whatever other threads did to the
-- socket when OnRead let go of the lock: each response delivered has the message id of its request,
-- and for any test q on requests, the requests that wait when the read goes on and that pass it
-- become fewer by exactly the number of those that pass it and are answered. So no request is
-- answered twice, and none that did not wait.
pub on_read_lem :
    (tv : String → ℤ) (q : Request → Bool) (during : SocketImpl → SocketImpl)
    (d : Option HandlerDelegate) (r : Read) (s : SocketImpl)
    → IsHeard d
    → (count q (answered (delivered (on_read tv during d r s).1))
          + count q (requests (on_read tv during d r s).0.request_timers)
        ≡ count q (requests (entered s.state during s).request_timers))
      × All IsMatched (delivered (on_read tv during d r s).1)
unfolding on_read
on_read_lem tv q during d r s h = read_state_lem q d h tv s.state during r s
