-- ===== src/SocketImpl/Pending.antt =====
-- What becomes of the messages that waited for the connection (`_SendPendingMessages` of
-- src/socket_impl.cpp).
use Prim.Native.String.{String}
use linear_cpp.Prelude.{
  ℕ, suc, ◌+◌, ◌≡◌, refl, sym, ap, ◌∙◌, inl, inr, Bool, List, [], ◌∷◌, ◌++◌, map, append-nil,
  append_assoc, arith, count, count-append, if_lem, Option, none, some,
}
use linear_cpp.Prelude.Int.{ℤ, nonzero, to_unsigned}
use linear_cpp.ErrorMap.{lnr_ecanceled}
use linear_cpp.Error.{Error, error}
use linear_cpp.Timer
use linear_cpp.Timer.{Effect}
use linear_cpp.Message.{Request, Message, request, response, notify, undefined}
use linear_cpp.HandlerDelegate
use linear_cpp.HandlerDelegate.{HandlerDelegate, Callback, on_error, fire_error}
use linear_cpp.SocketImpl.{
  State, disconnecting, disconnected, connecting, connected, on_request_timeout, SocketImpl, Action,
  timer, calls,
}
use linear_cpp.SocketImpl.Send.{
  Answers, push_timer, start_timer, write, send_now, flush, flush_state, report, report_each,
  send_pending,
}
use linear_cpp.SocketImpl.Sending.{written, written-append, requests, asked, send_now-Outcome}
use linear_cpp.SocketImpl.Discarding.{
  failures, failures-append, failures-timer, IsHeard, report_each_lem,
}

abbrev pub asked_all : List Message → List Request
asked_all [] = []
asked_all (m ∷ ms) = asked m ++ asked_all ms

asked_all-append : (xs ys : List Message) → asked_all (xs ++ ys) ≡ asked_all xs ++ asked_all ys
asked_all-append [] ys = refl
asked_all-append (x ∷ xs) ys =
    ap (λ l. asked x ++ l) (asked_all-append xs ys)
    ∙ sym (append_assoc (asked x) (asked_all xs) (asked_all ys))

written-calls : (cs : List Callback) → written (map calls cs) ≡ []
written-calls [] = refl
written-calls (c ∷ cs) = written-calls cs

report-written :
    (d : Option HandlerDelegate) (id : ℤ) (m : Message) (e : Error) → written (report d id m e) ≡ []
unfolding report
report-written none id m e = refl
report-written (some d) id m e = written-calls (HandlerDelegate.failed id m e d)

pub report_each-written :
    (d : Option HandlerDelegate) (id : ℤ) (ms : List Message) (e : Error)
    → written (report_each d id ms e) ≡ []
unfolding report_each
report_each-written d id [] e = refl
report_each-written d id (m ∷ ms) e =
    written-append (report d id m e) (report_each d id ms e)
    ∙ rw (report-written d id m e) (report_each-written d id ms e)

module _ (tv : String → ℤ) where
  start_timer-failures :
      (m : Message) (a : Answers) (s : SocketImpl) → failures (start_timer tv m a s).1 ≡ []
  unfolding start_timer push_timer
  start_timer-failures (request r) a s =
      ap failures (
        sym (
          append-nil (
            map timer
              (Timer.start_timer tv (on_request_timeout a.address) (to_unsigned r.timeout) a.timer
                a.timer_id Timer.new).3)))
      ∙ failures-timer
          (Timer.start_timer tv (on_request_timeout a.address) (to_unsigned r.timeout) a.timer
            a.timer_id Timer.new).3
          []
  start_timer-failures (response r) a s = refl
  start_timer-failures (notify n) a s = refl
  start_timer-failures undefined a s = refl

  abbrev IsQuiet : SocketImpl × Error × List Action → Type 0
  IsQuiet r = failures r.2 ≡ []

  write-failures : (m : Message) (a : Answers) (s : SocketImpl) → IsQuiet (write tv m a s)
  unfolding write
  write-failures m a s =
      if_lem IsQuiet a.data_allocated _ _
        (λ e.
          if_lem IsQuiet a.write_allocated _ _
            (λ f.
              if_lem IsQuiet (nonzero a.write_status) _ _ (λ g. refl)
                (λ g. start_timer-failures m a s))
            (λ f. refl))
        (λ e. refl)

  send_now-failures : (m : Message) (a : Answers) (s : SocketImpl) → IsQuiet (send_now tv m a s)
  unfolding send_now
  send_now-failures (request r) a s =
      if_lem IsQuiet a.timer_allocated _ _ (λ e. write-failures (request r) a s) (λ e. refl)
  send_now-failures (response r) a s = write-failures (response r) a s
  send_now-failures (notify n) a s = write-failures (notify n) a s
  send_now-failures undefined a s = refl

  flush-failures :
      (ms : List Message) (answers : ℕ → Answers) (s : SocketImpl)
      → failures (flush tv ms answers s).2 ≡ []
  unfolding flush
  flush-failures [] answers s = refl
  flush-failures (m ∷ ms) answers s =
      let r = send_now tv m (answers 0) s in
      let rest = flush tv ms (λ i. answers (suc i)) r.0 in
      failures-append r.2 rest.2
      ∙ rw (send_now-failures m (answers 0) s) (flush-failures ms (λ i. answers (suc i)) r.0)

  -- Every message is either written or kept as failed.
  flush-count :
      (p : Message → Bool) (ms : List Message) (answers : ℕ → Answers) (s : SocketImpl)
      → count p (written (flush tv ms answers s).2) + count p (flush tv ms answers s).1 ≡ count p ms
  unfolding flush
  flush-count p [] answers s = refl
  flush-count p (m ∷ ms) answers s =
      let r = send_now tv m (answers 0) s in
      let rest = flush tv ms (λ i. answers (suc i)) r.0 in
      let ih = flush-count p ms (λ i. answers (suc i)) r.0 in
      let split = ap (count p) (written-append r.2 rest.2) in
      let sum = count-append p (written r.2) (written rest.2) in
      elim (send_now-Outcome tv m (answers 0) s) [
        | inl refused ↦ rw (split, sum, refused.0, ap written refused.2) (ground (arith, ih))
        | inr sent ↦ rw (split, sum, sent.0, sent.1.0) (ground (arith, ih))
      ]

  flush-requests :
      (ms : List Message) (answers : ℕ → Answers) (s : SocketImpl)
      → requests (flush tv ms answers s).0.request_timers
        ≡ requests s.request_timers ++ asked_all (written (flush tv ms answers s).2)
  unfolding flush
  flush-requests [] answers s = sym (append-nil (requests s.request_timers))
  flush-requests (m ∷ ms) answers s =
      let r = send_now tv m (answers 0) s in
      let rest = flush tv ms (λ i. answers (suc i)) r.0 in
      let ih = flush-requests ms (λ i. answers (suc i)) r.0 in
      let split = ap asked_all (written-append r.2 rest.2) in
      elim (send_now-Outcome tv m (answers 0) s) [
        | inl refused ↦
            ih
            ∙ rw (split, ap written refused.2)
                (ap (λ x. requests x.request_timers ++ asked_all (written rest.2)) refused.1)
        | inr sent ↦
            ih
            ∙ rw (split, sent.1.0, sent.1.1)
                (append_assoc (requests s.request_timers) (asked m) (asked_all (written rest.2)))
      ]

  pub flush_state_lem :
      (p : Message → Bool) (st : State) (ms : List Message) (answers : ℕ → Answers) (s : SocketImpl)
      → (failures (flush_state tv st ms answers s).2 ≡ [])
        × (count p (written (flush_state tv st ms answers s).2)
              + count p (flush_state tv st ms answers s).1
            ≡ count p ms)
        × (requests (flush_state tv st ms answers s).0.request_timers
            ≡ requests s.request_timers ++ asked_all (written (flush_state tv st ms answers s).2))
  unfolding flush_state
  flush_state_lem p connected ms answers s =
      (flush-failures ms answers s, flush-count p ms answers s, flush-requests ms answers s)
  flush_state_lem p disconnecting ms answers s =
      (refl, omega arith, sym (append-nil (requests s.request_timers)))
  flush_state_lem p disconnected ms answers s =
      (refl, omega arith, sym (append-nil (requests s.request_timers)))
  flush_state_lem p connecting ms answers s =
      (refl, omega arith, sym (append-nil (requests s.request_timers)))

  -- If the handler lives, the pending messages are settled: none is left; for any test p, the number
  -- of pending messages that pass it is that of the messages written plus that of the ones reported
  -- as failed; and exactly the requests among the written ones join the waiting requests, in order.
  pub send_pending_lem :
      (p : Message → Bool) (d : Option HandlerDelegate) (answers : ℕ → Answers) (s : SocketImpl)
      → IsHeard d
      → ((send_pending tv d answers s).0.pending_messages ≡ [])
        × (count p (written (send_pending tv d answers s).1)
              + count p (failures (send_pending tv d answers s).1)
            ≡ count p s.pending_messages)
        × (requests (send_pending tv d answers s).0.request_timers
            ≡ requests s.request_timers ++ asked_all (written (send_pending tv d answers s).1))
  unfolding send_pending
  send_pending_lem p d answers s h =
      let r = flush_state tv s.state s.pending_messages answers s in
      let reports = report_each d s.id r.1 (error lnr_ecanceled) in
      let settled = flush_state_lem p s.state s.pending_messages answers s in
      let written_eq : written (r.2 ++ reports) ≡ written r.2 =
        rw (written-append r.2 reports, report_each-written d s.id r.1 (error lnr_ecanceled))
          (append-nil (written r.2)) in
      let failed_eq : failures (r.2 ++ reports) ≡ r.1 =
        rw (failures-append r.2 reports, settled.0)
          (report_each_lem d s.id r.1 (error lnr_ecanceled) h) in
      (refl, rw (written_eq, failed_eq) settled.1, rw written_eq settled.2)
