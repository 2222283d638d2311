-- ===== src/SocketImpl/ConnectTimer.antt =====
-- The connect timer runs only while a connection is being made (src/socket_impl.cpp).
use Prim.Native.String.{String}
use linear_cpp.Prelude.{
  ℕ, suc, ◌≡◌, ◌≢◌, refl, sym, ap, ◌∙◌, ◌⊎◌, inl, inr, Bool, List, [], ◌∷◌, Option,
}
use linear_cpp.Prelude.Int.{ℤ}
use linear_cpp.Timer
use linear_cpp.Timer.{TimerImpl, stopped, started}
use linear_cpp.Message.{Message}
use linear_cpp.HandlerDelegate.{HandlerDelegate}
use linear_cpp.SocketImpl.{
  State, disconnecting, disconnected, connecting, connected, SocketImpl, Expiry,
}
use linear_cpp.SocketImpl.Send.{Answers, send, send_now, flush, flush_state, send_pending}
use linear_cpp.SocketImpl.Sending.{send_outcome, send_now-Outcome}
use linear_cpp.SocketImpl.Connect.{stop_connect_timer, disconnect_state, disconnect}

abbrev pub IsStopped : SocketImpl → Type 0
IsStopped s = s.connect_timer.state ≡ stopped

abbrev pub IsTimed : SocketImpl → Type 0
IsTimed s = s.state ≡ connecting ⊎ IsStopped s

-- While the event loop is in OnConnect.
abbrev pub IsHeld : SocketImpl → Type 0
IsHeld s = IsStopped s × (s.state ≢ disconnected)

abbrev pub Keeps : SocketImpl → SocketImpl → Type 0
Keeps s s' = (s'.state ≡ s.state) × (s'.connect_timer ≡ s.connect_timer)

pub Keeps-IsTimed : (s s' : SocketImpl) → Keeps s s' → IsTimed s → IsTimed s'
Keeps-IsTimed s s' k (inl e) = inl (k.0 ∙ e)
Keeps-IsTimed s s' k (inr e) = inr (ap (λ t. t.state) k.1 ∙ e)

pub Keeps-IsHeld : (s s' : SocketImpl) → Keeps s s' → IsHeld s → IsHeld s'
Keeps-IsHeld s s' k h = (ap (λ t. t.state) k.1 ∙ h.0, λ e. h.1 (sym k.0 ∙ e))

stop_state_lem :
    (st : Timer.State) (t : TimerImpl Expiry)
    → t.state ≡ st
    → (Timer.stop_state st t).0.state ≡ stopped
unfolding Timer.stop_state
stop_state_lem stopped t h = h
stop_state_lem started t h = refl

pub stop_connect_timer_lem : (s : SocketImpl) → IsStopped (stop_connect_timer s).0
unfolding stop_connect_timer Timer.stop
stop_connect_timer_lem s = stop_state_lem s.connect_timer.state s.connect_timer refl

disconnect_state-IsTimed :
    (st : State) (s : SocketImpl) → IsTimed s → IsTimed (disconnect_state st s).0
unfolding disconnect_state
disconnect_state-IsTimed disconnecting s h = h
disconnect_state-IsTimed disconnected s h = h
disconnect_state-IsTimed connecting s h = inr (stop_connect_timer_lem s)
disconnect_state-IsTimed connected s h = inr (stop_connect_timer_lem s)

pub disconnect-IsTimed : (b : Bool) (s : SocketImpl) → IsTimed s → IsTimed (disconnect b s).0
unfolding disconnect
disconnect-IsTimed b s h = disconnect_state-IsTimed s.state (record s { handshaking = b }) h

disconnect_state-IsHeld :
    (st : State) (s : SocketImpl) → IsHeld s → IsHeld (disconnect_state st s).0
unfolding disconnect_state
disconnect_state-IsHeld disconnecting s h = h
disconnect_state-IsHeld disconnected s h = h
disconnect_state-IsHeld connecting s h = (stop_connect_timer_lem s, λ e. cc)
disconnect_state-IsHeld connected s h = (stop_connect_timer_lem s, λ e. cc)

pub disconnect-IsHeld : (b : Bool) (s : SocketImpl) → IsHeld s → IsHeld (disconnect b s).0
unfolding disconnect
disconnect-IsHeld b s h = disconnect_state-IsHeld s.state (record s { handshaking = b }) h

module _ (tv : String → ℤ) where
  pub send-Keeps :
      (m : Message) (timeout : ℤ) (a : Answers) (s : SocketImpl) → Keeps s (send tv m timeout a s).0
  send-Keeps m timeout a s = elim (send_outcome tv m timeout a s) [
    | inl refused ↦ rw (refused.1) (refl, refl)
    | inr (ok, inl queued) ↦ rw (queued.1.0) (refl, refl)
    | inr (ok, inr sent) ↦ (sent.1.3, sent.1.4)
  ]

  send_now-Keeps : (m : Message) (a : Answers) (s : SocketImpl) → Keeps s (send_now tv m a s).0
  send_now-Keeps m a s = elim (send_now-Outcome tv m a s) [
    | inl refused ↦ rw (refused.1) (refl, refl)
    | inr sent ↦ (sent.1.3, sent.1.4)
  ]

  flush-Keeps :
      (ms : List Message) (answers : ℕ → Answers) (s : SocketImpl)
      → Keeps s (flush tv ms answers s).0
  unfolding flush
  flush-Keeps [] answers s = (refl, refl)
  flush-Keeps (m ∷ ms) answers s =
      let k = send_now-Keeps m (answers 0) s in
      let rest = flush-Keeps ms (λ i. answers (suc i)) (send_now tv m (answers 0) s).0 in
      (rest.0 ∙ k.0, rest.1 ∙ k.1)

  flush_state-Keeps :
      (st : State) (ms : List Message) (answers : ℕ → Answers) (s : SocketImpl)
      → Keeps s (flush_state tv st ms answers s).0
  unfolding flush_state
  flush_state-Keeps connected ms answers s = flush-Keeps ms answers s
  flush_state-Keeps connecting ms answers s = (refl, refl)
  flush_state-Keeps disconnecting ms answers s = (refl, refl)
  flush_state-Keeps disconnected ms answers s = (refl, refl)

  pub send_pending-Keeps :
      (d : Option HandlerDelegate) (answers : ℕ → Answers) (s : SocketImpl)
      → Keeps s (send_pending tv d answers s).0
  unfolding send_pending
  send_pending-Keeps d answers s = flush_state-Keeps s.state s.pending_messages answers s
