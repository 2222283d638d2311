-- ===== src/SocketImpl/Sending.antt =====
-- A send takes effect as a whole or not at all (`Send` and `_Send` of src/socket_impl.cpp).
use Prim.Native.String.{String}
use linear_cpp.Prelude.{
  ◌≡◌, refl, sym, ap, ◌∙◌, ◌⊎◌, inl, inr, if_lem, true, false, not, List, [], ◌∷◌, ◌++◌, map,
  append-nil,
}
use linear_cpp.Prelude.Int.{ℤ, nonzero, to_unsigned}
use linear_cpp.ErrorMap.{lnr_ok}
use linear_cpp.Error.{Error, error, eq_error}
use linear_cpp.Error.RoundTrip.{from_status-ok}
use linear_cpp.Timer
use linear_cpp.Timer.{Effect}
use linear_cpp.Message.{Request, Message, request, response, notify, undefined}
use linear_cpp.SocketImpl.{
  State, disconnecting, disconnected, connecting, connected, Expiry, on_request_timeout,
  RequestTimer, SocketImpl, Action, writes, timer, closes, reads, connects, limits_sendbuf,
  deletes_timer, calls,
}
use linear_cpp.SocketImpl.Send.{
  Answers, push_timer, start_timer, write, send_now, send_copy, send_open, send_state, send,
}

-- The messages that actions give to libtv.
abbrev pub written : List Action → List Message
written [] = []
written (writes m ∷ actions) = m ∷ written actions
written (_ ∷ actions) = written actions

-- The requests that wait for a response.
abbrev pub requests : List RequestTimer → List Request
requests [] = []
requests (t ∷ ts) = t.request ∷ requests ts

abbrev pub asked : Message → List Request
asked (request r) = r ∷ []
asked _ = []

abbrev pub with_timeout : ℤ → Message → Message
with_timeout timeout (request r) = request (record r { timeout = timeout })
with_timeout timeout m = m

pub written-append : (xs ys : List Action) → written (xs ++ ys) ≡ written xs ++ written ys
written-append [] ys = refl
written-append (writes m ∷ xs) ys = ap (λ l. m ∷ l) (written-append xs ys)
written-append (closes ∷ xs) ys = written-append xs ys
written-append (reads ∷ xs) ys = written-append xs ys
written-append (connects ∷ xs) ys = written-append xs ys
written-append (limits_sendbuf n ∷ xs) ys = written-append xs ys
written-append (timer e ∷ xs) ys = written-append xs ys
written-append (deletes_timer n ∷ xs) ys = written-append xs ys
written-append (calls c ∷ xs) ys = written-append xs ys

requests-append : (xs ys : List RequestTimer) → requests (xs ++ ys) ≡ requests xs ++ requests ys
requests-append [] ys = refl
requests-append (x ∷ xs) ys = ap (λ l. x.request ∷ l) (requests-append xs ys)

written-timer : (es : List (Effect Expiry)) → written (map timer es) ≡ []
written-timer [] = refl
written-timer (e ∷ es) = written-timer es

-- The message m went to libtv from s: the messages written, and the requests that wait.
abbrev pub IsWritten : Message → SocketImpl → SocketImpl → List Action → Type 0
IsWritten m s s' actions =
    (written actions ≡ m ∷ [])
    × (requests s'.request_timers ≡ requests s.request_timers ++ asked m)
    × (s'.pending_messages ≡ s.pending_messages)
    × (s'.state ≡ s.state)
    × (s'.connect_timer ≡ s.connect_timer)

abbrev pub IsRefused : SocketImpl → SocketImpl × Error × List Action → Type 0
IsRefused s r = (eq_error r.1 (error lnr_ok) ≡ false) × (r.0 ≡ s) × (r.2 ≡ [])

module _ (tv : String → ℤ) where
  start_timer_lem :
      (m : Message) (a : Answers) (s : SocketImpl)
      → IsWritten m s (start_timer tv m a s).0 (writes m ∷ (start_timer tv m a s).1)
  unfolding start_timer push_timer
  start_timer_lem (request r) a s = (
    ap (λ l. request r ∷ l)
        (written-timer
          (Timer.start_timer tv (on_request_timeout a.address) (to_unsigned r.timeout) a.timer
            a.timer_id Timer.new).3),
    requests-append s.request_timers _,
    refl,
    refl,
    refl,
  )
  start_timer_lem (response r) a s =
      (refl, sym (append-nil (requests s.request_timers)), refl, refl, refl)
  start_timer_lem (notify n) a s =
      (refl, sym (append-nil (requests s.request_timers)), refl, refl, refl)
  start_timer_lem undefined a s =
      (refl, sym (append-nil (requests s.request_timers)), refl, refl, refl)

  -- Refused with nothing changed, or written.
  abbrev Outcome : Message → SocketImpl → SocketImpl × Error × List Action → Type 0
  Outcome m s r = IsRefused s r ⊎ ((eq_error r.1 (error lnr_ok) ≡ true) × IsWritten m s r.0 r.2)

  write-Outcome : (m : Message) (a : Answers) (s : SocketImpl) → Outcome m s (write tv m a s)
  unfolding write
  write-Outcome m a s =
      if_lem (Outcome m s) a.data_allocated _ _
        (λ e.
          if_lem (Outcome m s) a.write_allocated _ _
            (λ f.
              if_lem (Outcome m s) (nonzero a.write_status) _ _
                (λ g. inl (from_status-ok tv a.write_status ∙ ap not g, refl, refl))
                (λ g. inr (refl, start_timer_lem m a s)))
            (λ f. inl (refl, refl, refl)))
        (λ e. inl (refl, refl, refl))

  pub send_now-Outcome :
      (m : Message) (a : Answers) (s : SocketImpl) → Outcome m s (send_now tv m a s)
  unfolding send_now
  send_now-Outcome (request r) a s =
      if_lem (Outcome (request r) s) a.timer_allocated _ _ (λ e. write-Outcome (request r) a s)
        (λ e. inl (refl, refl, refl))
  send_now-Outcome (response r) a s = write-Outcome (response r) a s
  send_now-Outcome (notify n) a s = write-Outcome (notify n) a s
  send_now-Outcome undefined a s = inl (refl, refl, refl)

  -- Appended to the pending messages, with nothing sent.
  abbrev pub IsQueued : Message → SocketImpl → SocketImpl × Error × List Action → Type 0
  IsQueued m s r = (r.0 ≡ record s { pending_messages = s.pending_messages ++ m ∷ [] }) × (r.2 ≡ [])

  -- The three ends of a send.
  abbrev pub SendOutcome : State → Message → SocketImpl → SocketImpl × Error × List Action → Type 0
  SendOutcome st m s r =
      IsRefused s r
      ⊎ ((eq_error r.1 (error lnr_ok) ≡ true)
          × ((st ≡ connecting) × IsQueued m s r ⊎ (st ≡ connected) × IsWritten m s r.0 r.2))

  send_copy_outcome :
      (st : State) (m : Message) (a : Answers) (s : SocketImpl)
      → st ≡ connecting ⊎ st ≡ connected
      → SendOutcome st m s (send_copy tv st m a s)
  unfolding send_copy
  send_copy_outcome connecting m a s h = inr (refl, inl (refl, (refl, refl)))
  send_copy_outcome connected m a s h = elim (send_now-Outcome m a s) [
    | inl refused ↦ inl refused
    | inr sent ↦ inr (sent.0, inr (refl, sent.1))
  ]
  send_copy_outcome disconnecting m a s h = inl (elim h [ inl e ↦ cc | inr e ↦ cc ])
  send_copy_outcome disconnected m a s h = inl (elim h [ inl e ↦ cc | inr e ↦ cc ])

  send_open_outcome :
      (m : Message) (timeout : ℤ) (a : Answers) (s : SocketImpl)
      → s.state ≡ connecting ⊎ s.state ≡ connected
      → SendOutcome s.state (with_timeout timeout m) s (send_open tv m timeout a s)
  unfolding send_open
  send_open_outcome (request r) timeout a s h =
      if_lem (SendOutcome s.state (with_timeout timeout (request r)) s) a.copied _ _
        (λ e. send_copy_outcome s.state _ a s h) (λ e. inl (refl, refl, refl))
  send_open_outcome (response r) timeout a s h =
      if_lem (SendOutcome s.state (response r) s) a.copied _ _
        (λ e. send_copy_outcome s.state _ a s h) (λ e. inl (refl, refl, refl))
  send_open_outcome (notify n) timeout a s h =
      if_lem (SendOutcome s.state (notify n) s) a.copied _ _
        (λ e. send_copy_outcome s.state _ a s h) (λ e. inl (refl, refl, refl))
  send_open_outcome undefined timeout a s h = inl (refl, refl, refl)

  state_outcome :
      (st : State) (m : Message) (timeout : ℤ) (a : Answers) (s : SocketImpl)
      → s.state ≡ st
      → SendOutcome s.state (with_timeout timeout m) s (send_state tv st m timeout a s)
  unfolding send_state
  state_outcome disconnecting m timeout a s h = inl (refl, refl, refl)
  state_outcome disconnected m timeout a s h = inl (refl, refl, refl)
  state_outcome connecting m timeout a s h = send_open_outcome m timeout a s (inl h)
  state_outcome connected m timeout a s h = send_open_outcome m timeout a s (inr h)

  -- A send either answers an error, with the socket as it was and nothing done; or it answers
  -- LNR_OK and, with the request's timeout set, the message was appended to the pending messages of
  -- a connecting socket, with nothing sent, or it went alone to libtv from a connected socket, whose
  -- waiting requests it then joins at the end if it is a request.
  pub send_outcome :
      (m : Message) (timeout : ℤ) (a : Answers) (s : SocketImpl)
      → SendOutcome s.state (with_timeout timeout m) s (send tv m timeout a s)
  unfolding send
  send_outcome m timeout a s = state_outcome s.state m timeout a s refl
