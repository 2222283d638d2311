-- ===== src/SocketImpl/Send.antt =====
-- Sending: `Send`, `_Send`, `_SendPendingMessages` and `_DiscardMessages` of src/socket_impl.cpp.
use Prim.Native.String.{String}
use linear_cpp.Prelude.{ℕ, suc, Bool, List, [], ◌∷◌, ◌++◌, map, Option, none, some, if◌then◌else◌}
use linear_cpp.Prelude.Int.{ℤ, to_unsigned, nonzero}
use linear_cpp.ErrorMap.{lnr_ok, lnr_einval, lnr_enomem, lnr_enotconn, lnr_ecanceled}
use linear_cpp.Error.{Error, error, from_status, ne_error}
use linear_cpp.Timer
use linear_cpp.Timer.{Effect}
use linear_cpp.Message.{Request, Message, request, response, notify, undefined}
use linear_cpp.HandlerDelegate
use linear_cpp.HandlerDelegate.{HandlerDelegate}
use linear_cpp.SocketImpl.{
  State, disconnecting, disconnected, connecting, connected, on_request_timeout, RequestTimer,
  SocketImpl, Action, writes, timer, deletes_timer, calls,
}

-- The answers that one send gets: of the allocations, of tv_write and of the request's timer, which
-- is allocated at an address.
pub record Answers : Type 0 where
  pub copied : Bool
  pub timer_allocated : Bool
  pub data_allocated : Bool
  pub write_allocated : Bool
  pub write_status : ℤ
  pub address : ℕ
  pub timer : Timer.Answers
  pub timer_id : ℕ

module _ (tv : String → ℤ) where
  -- `request_timers_.push_back` and `request_timer->Start()`.
  unfoldable pub push_timer : Request → Answers → SocketImpl → SocketImpl × List Action
  push_timer r a s =
      let (t, next_id, e, effects) =
        Timer.start_timer tv (on_request_timeout a.address) (to_unsigned r.timeout) a.timer
          a.timer_id Timer.new in
      (
        record s {
          request_timers =
              s.request_timers ++ record { address = a.address; request = r; timer = t } ∷ [];
        },
        map timer effects,
      )

  -- The timer of a request; other messages have none.
  unfoldable pub start_timer : Message → Answers → SocketImpl → SocketImpl × List Action
  unfolding push_timer
  start_timer (request r) a s = push_timer r a s
  start_timer _ a s = (s, [])

  -- `_Send` from the copy of the packed bytes on.
  unfoldable pub write : Message → Answers → SocketImpl → SocketImpl × Error × List Action
  unfolding start_timer
  write m a s =
      let (s', actions) = start_timer m a s in
      if a.data_allocated
      then if a.write_allocated
        then if nonzero a.write_status
          then (s, from_status tv a.write_status, [])
          else (s', error lnr_ok, writes m ∷ actions)
        else (s, error lnr_enomem, [])
      else (s, error lnr_enomem, [])

  -- `_Send`. On an error the caller keeps the message, and the request's timer is deleted unstarted.
  unfoldable pub send_now : Message → Answers → SocketImpl → SocketImpl × Error × List Action
  unfolding write
  send_now (request r) a s =
      if a.timer_allocated then write (request r) a s else (s, error lnr_enomem, [])
  send_now (response r) a s = write (response r) a s
  send_now (notify n) a s = write (notify n) a s
  send_now undefined a s = (s, error lnr_einval, [])

  -- The copy that is sent later or at once.
  unfoldable pub send_copy :
      State → Message → Answers → SocketImpl → SocketImpl × Error × List Action
  send_copy connecting m a s =
      (record s { pending_messages = s.pending_messages ++ m ∷ [] }, error lnr_ok, [])
  send_copy _ m a s = send_now m a s

  unfoldable pub send_open : Message → ℤ → Answers → SocketImpl → SocketImpl × Error × List Action
  unfolding send_copy
  send_open (request r) timeout a s =
      if a.copied
      then send_copy s.state (request (record r { timeout = timeout })) a s
      else (s, error lnr_enomem, [])
  send_open undefined timeout a s = (s, error lnr_einval, [])
  send_open m timeout a s = if a.copied then send_copy s.state m a s else (s, error lnr_enomem, [])

  unfoldable pub send_state :
      State → Message → ℤ → Answers → SocketImpl → SocketImpl × Error × List Action
  unfolding send_open
  send_state disconnecting m timeout a s = (s, error lnr_enotconn, [])
  send_state disconnected m timeout a s = (s, error lnr_enotconn, [])
  send_state _ m timeout a s = send_open m timeout a s

  -- `Send`.
  unfoldable pub send : Message → ℤ → Answers → SocketImpl → SocketImpl × Error × List Action
  unfolding send_state
  send m timeout a s = send_state s.state m timeout a s

  -- The loop over the pending messages of a connected socket, with the answers to each send: the
  -- messages that failed, and the actions.
  unfoldable pub flush :
      List Message → (ℕ → Answers) → SocketImpl → SocketImpl × List Message × List Action
  flush [] answers s = (s, [], [])
  flush (m ∷ ms) answers s =
      let (s', e, actions) = send_now m (answers 0) s in
      let (s'', failed, rest) = flush ms (λ i. answers (suc i)) s' in
      (s'', if ne_error e (error lnr_ok) then m ∷ failed else failed, actions ++ rest)

  unfoldable pub flush_state :
      State → List Message → (ℕ → Answers) → SocketImpl → SocketImpl × List Message × List Action
  flush_state connected ms answers s = flush ms answers s
  flush_state _ ms answers s = (s, ms, [])

-- `delegate->OnError` for one message and then for each. None is `undefined`, which `Send` refuses.
unfoldable pub report : Option HandlerDelegate → ℤ → Message → Error → List Action
report none id m e = []
report (some d) id m e = map calls (HandlerDelegate.failed id m e d)

unfoldable pub report_each : Option HandlerDelegate → ℤ → List Message → Error → List Action
report_each d id [] e = []
report_each d id (m ∷ ms) e = report d id m e ++ report_each d id ms e

module _ (tv : String → ℤ) where
  -- `_SendPendingMessages`.
  unfoldable pub send_pending :
      Option HandlerDelegate → (ℕ → Answers) → SocketImpl → SocketImpl × List Action
  unfolding flush_state
  send_pending d answers s =
      let (s', failed, actions) = flush_state tv s.state s.pending_messages answers s in
      (
        record s' { pending_messages = [] },
        actions ++ report_each d s.id failed (error lnr_ecanceled),
      )

-- The actions on one cancelled request: its timer is stopped as it is deleted.
unfoldable pub cancel : Option HandlerDelegate → ℤ → RequestTimer → List Action
cancel d id t =
    report d id (request t.request) (error lnr_ecanceled)
    ++ (map timer (Timer.stop t.timer).1 ++ deletes_timer t.address ∷ [])

unfoldable pub cancel_each : Option HandlerDelegate → ℤ → List RequestTimer → List Action
unfolding cancel
cancel_each d id [] = []
cancel_each d id (t ∷ ts) = cancel d id t ++ cancel_each d id ts

-- `_DiscardMessages`.
unfoldable pub discard : Option HandlerDelegate → SocketImpl → SocketImpl × List Action
discard d s = (
  record s { pending_messages = []; request_timers = [] },
  report_each d s.id s.pending_messages (error lnr_ecanceled)
      ++ cancel_each d s.id s.request_timers,
)
