-- ===== src/SocketImpl/Kept.antt =====
-- Reads and writes leave the connect timer alone, or stop it (`OnRead` and `OnWrite` of
-- src/socket_impl.cpp).
use Prim.Native.String.{String}
use linear_cpp.Prelude.{
  ℕ, refl, ◌∙◌, Bool, false, List, [], ◌∷◌, Option, none, some, if_lem, ltb, Bytes,
}
use linear_cpp.Prelude.Int.{ℤ, nonzero}
use linear_cpp.Error.{Error, from_status}
use linear_cpp.Message.{Message, request, response, notify, undefined}
use linear_cpp.HandlerDelegate.{HandlerDelegate}
use linear_cpp.SocketImpl.{
  State, disconnecting, disconnected, connecting, connected, SocketImpl, Action, RequestTimer,
}
use linear_cpp.SocketImpl.Receive.{
  Incoming, request_in, response_in, notify_in, bad_cast, malformed, Read, ended, received,
  find_timer, has_msgid, answer_request, take_one, take_all, read_open, read_state, forget_request,
  write_failed, on_write,
}
use linear_cpp.SocketImpl.ConnectTimer.{IsTimed, Keeps, Keeps-IsTimed, disconnect-IsTimed}

forget_request-Keeps :
    (tv : String → ℤ) (msgid : ℕ) (s : SocketImpl) (o : Option RequestTimer)
    → Keeps s (forget_request tv msgid s o).0
unfolding forget_request
forget_request-Keeps tv msgid s none = (refl, refl)
forget_request-Keeps tv msgid s (some t) = (refl, refl)

answer_request-Keeps :
    (d : Option HandlerDelegate) (msgid : ℕ) (result e : Bytes) (s : SocketImpl)
    (o : Option RequestTimer)
    → Keeps s (answer_request d msgid result e s o).0
unfolding answer_request
answer_request-Keeps d msgid result e s none = (refl, refl)
answer_request-Keeps d msgid result e s (some t) = (refl, refl)

take_one-Keeps :
    (d : Option HandlerDelegate) (x : Incoming) (s : SocketImpl) → Keeps s (take_one d x s).0
unfolding take_one
take_one-Keeps d (request_in r) s = (refl, refl)
take_one-Keeps d (response_in msgid result e) s =
    answer_request-Keeps d msgid result e s (find_timer (has_msgid msgid) s.request_timers)
take_one-Keeps d (notify_in n) s = (refl, refl)
take_one-Keeps d bad_cast s = (refl, refl)
take_one-Keeps d malformed s = (refl, refl)

take_all-Keeps :
    (d : Option HandlerDelegate) (xs : List Incoming) (s : SocketImpl) → Keeps s (take_all d xs s).0
unfolding take_all
take_all-Keeps d [] s = (refl, refl)
take_all-Keeps d (x ∷ xs) s =
    let k = take_one-Keeps d x s in
    let rest = take_all-Keeps d xs (take_one d x s).0 in
    if_lem (λ (r : SocketImpl × Bool × List Action). Keeps s r.0) (take_one d x s).1 _ _
      (λ e. (rest.0 ∙ k.0, rest.1 ∙ k.1)) (λ e. k)

module _ (tv : String → ℤ) where
  abbrev EndsTimed : SocketImpl × List Action → Type 0
  EndsTimed r = IsTimed r.0

  read_open-IsTimed :
      (d : Option HandlerDelegate) (r : Read) (s : SocketImpl)
      → IsTimed s
      → IsTimed (read_open tv d r s).0
  unfolding read_open
  read_open-IsTimed d (ended status ssl_error) s h = disconnect-IsTimed s.handshaking s h
  read_open-IsTimed d (received xs size) s h =
      let kept = Keeps-IsTimed s (take_all d xs s).0 (take_all-Keeps d xs s) h in
      let closed = disconnect-IsTimed false (take_all d xs s).0 kept in
      if_lem EndsTimed (take_all d xs s).1 _ _
        (λ e. if_lem EndsTimed (ltb s.max_recv_buffer_size size) _ _ (λ f. closed) (λ f. kept))
        (λ e. closed)

  pub read_state-IsTimed :
      (st : State) (during : SocketImpl → SocketImpl) (d : Option HandlerDelegate) (r : Read)
      (s : SocketImpl)
      → IsTimed s
      → IsTimed (during s)
      → IsTimed (read_state tv st during d r s).0
  unfolding read_state
  read_state-IsTimed disconnecting during d r s h k = h
  read_state-IsTimed disconnected during d r s h k = h
  read_state-IsTimed connecting during d r s h k = read_open-IsTimed d r (during s) k
  read_state-IsTimed connected during d r s h k = read_open-IsTimed d r (during s) k

  write_failed-Keeps :
      (d : Option HandlerDelegate) (m : Message) (e : Error) (s : SocketImpl)
      → Keeps s (write_failed tv d m e s).0
  unfolding write_failed
  write_failed-Keeps none m e s = (refl, refl)
  write_failed-Keeps (some d) (request r) e s =
      forget_request-Keeps tv r.msgid s (find_timer (has_msgid r.msgid) s.request_timers)
  write_failed-Keeps (some d) (response r) e s = (refl, refl)
  write_failed-Keeps (some d) (notify n) e s = (refl, refl)
  write_failed-Keeps (some d) undefined e s = (refl, refl)

  pub on_write-Keeps :
      (d : Option HandlerDelegate) (m : Message) (status : ℤ) (s : SocketImpl)
      → Keeps s (on_write tv d m status s).0
  unfolding on_write
  on_write-Keeps d m status s =
      if_lem (λ (r : SocketImpl × List Action). Keeps s r.0) (nonzero status) _ _
        (λ e. write_failed-Keeps d m (from_status tv status) s) (λ e. (refl, refl))
