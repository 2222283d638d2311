-- ===== src/SocketImpl/InOrder.antt =====
-- The order in which the messages that waited are written (`_SendPendingMessages` of
-- src/socket_impl.cpp).
use Prim.Native.String.{String}
use linear_cpp.Prelude.{
  ℕ, suc, ◌≡◌, refl, sym, ap, ◌∙◌, inl, inr, List, [], ◌∷◌, ◌++◌, append-nil, Option, true,
  if◌then◌else◌,
}
use linear_cpp.Prelude.Int.{ℤ}
use linear_cpp.ErrorMap.{lnr_ok, lnr_ecanceled}
use linear_cpp.Error.{error, ne_error}
use linear_cpp.Message.{Message}
use linear_cpp.HandlerDelegate.{HandlerDelegate}
use linear_cpp.SocketImpl.{State, disconnecting, disconnected, connecting, connected, SocketImpl}
use linear_cpp.SocketImpl.Send.{Answers, send_now, flush, flush_state, report_each, send_pending}
use linear_cpp.SocketImpl.Sending.{written, written-append, send_now-Outcome}
use linear_cpp.SocketImpl.Discarding.{failures, failures-append, IsHeard, report_each_lem}
use linear_cpp.SocketImpl.Pending.{report_each-written, flush_state_lem}

module _ (tv : String → ℤ) where
  flush-order :
      (ms : List Message) (answers : ℕ → Answers) (s : SocketImpl)
      → (flush tv ms answers s).1 ≡ []
      → written (flush tv ms answers s).2 ≡ ms
  unfolding flush
  flush-order [] answers s h = refl
  flush-order (m ∷ ms) answers s h =
      let r = send_now tv m (answers 0) s in
      let rest = flush tv ms (λ i. answers (suc i)) r.0 in
      elim (send_now-Outcome tv m (answers 0) s) [
        | inl refused ↦
            let failed : (if ne_error r.1 (error lnr_ok) then m ∷ rest.1 else rest.1) ≡ m ∷ rest.1 =
              rw refused.0 refl in
            cc
        | inr sent ↦
            let kept : (if ne_error r.1 (error lnr_ok) then m ∷ rest.1 else rest.1) ≡ rest.1 =
              rw sent.0 refl in
            written-append r.2 rest.2
            ∙ rw sent.1.0
                (ap (λ l. m ∷ l) (flush-order ms (λ i. answers (suc i)) r.0 (sym kept ∙ h)))
      ]

  flush_state-order :
      (st : State) (ms : List Message) (answers : ℕ → Answers) (s : SocketImpl)
      → (flush_state tv st ms answers s).1 ≡ []
      → written (flush_state tv st ms answers s).2 ≡ ms
  unfolding flush_state
  flush_state-order connected ms answers s h = flush-order ms answers s h
  flush_state-order connecting ms answers s h = sym h
  flush_state-order disconnecting ms answers s h = sym h
  flush_state-order disconnected ms answers s h = sym h

  -- If none of the pending messages is reported as failed to a live handler, all of them are
  -- written, in the order in which they were sent.
  pub send_pending-order :
      (d : Option HandlerDelegate) (answers : ℕ → Answers) (s : SocketImpl)
      → IsHeard d
      → failures (send_pending tv d answers s).1 ≡ []
      → written (send_pending tv d answers s).1 ≡ s.pending_messages
  unfolding send_pending
  send_pending-order d answers s h none_failed =
      let r = flush_state tv s.state s.pending_messages answers s in
      let reports = report_each d s.id r.1 (error lnr_ecanceled) in
      let failed : failures (r.2 ++ reports) ≡ r.1 =
        rw
          (
            failures-append r.2 reports,
            (flush_state_lem tv (λ m. true) s.state s.pending_messages answers s).0,
          )
          (report_each_lem d s.id r.1 (error lnr_ecanceled) h) in
      rw (written-append r.2 reports, report_each-written d s.id r.1 (error lnr_ecanceled))
        (append-nil (written r.2)
          ∙ flush_state-order s.state s.pending_messages answers s (sym failed ∙ none_failed))
