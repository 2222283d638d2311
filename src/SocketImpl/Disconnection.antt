-- ===== src/SocketImpl/Disconnection.antt =====
-- A connection that ends for good (`OnDisconnect` of src/socket_impl.cpp).
use Prim.Native.String.{String}
use linear_cpp.Prelude.{
  ◌≡◌, ◌≢◌, refl, ap, ◌∙◌, Bool, true, false, ◌&&◌, List, [], ◌∷◌, ◌++◌, map, append-nil, if_lem,
  Option, none, some, if◌then◌else◌, arith,
}
use linear_cpp.Prelude.Int.{ℤ}
use linear_cpp.ErrorMap.{lnr_ews}
use linear_cpp.Error.{Error, error, eq_error}
use linear_cpp.Timer
use linear_cpp.Message.{request}
use linear_cpp.Group.{Groups}
use linear_cpp.HandlerDelegate
use linear_cpp.HandlerDelegate.{HandlerDelegate, Owner, client, server, release_owner}
use linear_cpp.SocketImpl.{
  State, disconnecting, disconnected, connecting, connected, SocketImpl, World, Action,
}
use linear_cpp.SocketImpl.Send.{discard}
use linear_cpp.SocketImpl.Sending.{requests}
use linear_cpp.SocketImpl.Discarding.{
  failures, failures-append, failures-timer, IsHeard, discard_lem,
}
use linear_cpp.SocketImpl.Connect.{ConnectAnswers, stop_connect_timer, release_from}
use linear_cpp.SocketImpl.Events.{
  report_disconnect, finish_disconnect, check_retry_auth, is_web, with_code, after_release,
  disconnect_by_state, on_disconnect, alone,
}
use linear_cpp.SocketImpl.Timed.{release_from-sock}
use linear_cpp.SocketImpl.Leaving.{
  ends, ends-append, ends-timer, discard-ends, report_disconnect_lem, IsLeft,
}

-- A WebSocket client that will answer a challenge.
abbrev pub is_retry : SocketImpl → Bool
is_retry s =
    (s.connectable && is_web s.kind)
    && (eq_error s.last_error (error lnr_ews) && check_retry_auth s)

not_all {ℓ} :
    {A : Type ℓ} (a b c : Bool) → (a && (b && c)) ≡ false → a ≡ true → b ≡ true → c ≡ true → A
not_all a b c h e f g = absurd (ground arith)

release_owner-alive :
    (o : Owner) (socket : ℤ) (d : HandlerDelegate) (groups : Groups)
    → d.handler_alive ≡ true
    → (release_owner o socket d groups).0.handler_alive ≡ true
unfolding release_owner
release_owner-alive client socket d groups h = h
release_owner-alive server socket d groups h = h

release_from-IsHeard :
    (tv : String → ℤ) (d : Option HandlerDelegate) (w : World)
    → w.delegate ≡ d
    → IsHeard d
    → IsHeard (release_from tv d w).delegate
unfolding release_from HandlerDelegate.release
release_from-IsHeard tv none w e h = cc
release_from-IsHeard tv (some d) w e h = release_owner-alive d.owner w.sock.id d w.groups h

ends_if :
    (b : Bool) (xs : List Action) (e : Error)
    → ends xs ≡ e ∷ []
    → ends (if b then [] else xs) ≡ (if b then [] else e ∷ [])
ends_if true xs e h = refl
ends_if false xs e h = h

module _ (tv : String → ℤ) (open_stream : SocketImpl → SocketImpl × Error × List Action) where
  finish_disconnect_lem :
      (w : World)
      → IsHeard w.delegate
      → w.sock.state ≡ disconnected
      → IsLeft w.sock (finish_disconnect tv open_stream w)
  unfolding finish_disconnect discard
  finish_disconnect_lem w h e =
      let s = w.sock in
      let said = report_disconnect_lem w.delegate s.id s.last_error h in
      let last : List Action =
        if s.handshaking then [] else report_disconnect w.delegate s.id s.last_error in
      let last_failures : failures last ≡ [] =
        if_lem (λ l. failures l ≡ []) s.handshaking []
          (report_disconnect w.delegate s.id s.last_error) (λ g. refl) (λ g. said.0) in
      let last_ends : ends last ≡ (if s.handshaking then [] else s.last_error ∷ []) =
        ends_if s.handshaking (report_disconnect w.delegate s.id s.last_error) s.last_error
          said.1 in
      let gone = discard_lem w.delegate s h in
      (
        e,
        gone.0,
        gone.1,
        failures-append (discard w.delegate s).1 last ∙ rw (last_failures, gone.2) (append-nil _),
        ends-append (discard w.delegate s).1 last ∙ rw (discard-ends w.delegate s) last_ends,
      )

  after_release_lem :
      (allocated : Bool) (a : ConnectAnswers) (w : World)
      → IsHeard w.delegate
      → is_retry w.sock ≡ false
      → w.sock.state ≡ disconnected
      → IsLeft w.sock (after_release tv open_stream alone allocated a w)
  unfolding after_release
  after_release_lem allocated a w h once e =
      let failed = record w { sock = with_code 503 w.sock } in
      let web = w.sock.connectable && is_web w.sock.kind in
      let refused = eq_error w.sock.last_error (error lnr_ews) in
      if_lem (IsLeft w.sock) web _ _
        (λ f.
          if_lem (IsLeft w.sock) refused _ _
            (λ g.
              if_lem (IsLeft w.sock) (check_retry_auth w.sock) _ _
                (λ k. not_all web refused (check_retry_auth w.sock) once f g k)
                (λ k. finish_disconnect_lem w h e))
            (λ g. finish_disconnect_lem failed h e))
        (λ f. finish_disconnect_lem w h e)

  released_lem :
      (allocated : Bool) (a : ConnectAnswers) (w : World)
      → IsHeard w.delegate
      → is_retry w.sock ≡ false
      → w.sock.state ≡ disconnected
      → IsLeft w.sock
          (after_release tv open_stream alone allocated a (release_from tv w.delegate w))
  released_lem allocated a w h once e =
      let w' = release_from tv w.delegate w in
      let same = release_from-sock tv w.delegate w in
      let left : IsLeft w'.sock (after_release tv open_stream alone allocated a w') =
        after_release_lem allocated a w' (release_from-IsHeard tv w.delegate w refl h)
          (ap is_retry same ∙ once) (ap (λ s. s.state) same ∙ e) in
      (
        left.0,
        left.1,
        left.2,
        left.3 ∙ ap (λ s. s.pending_messages ++ map request (requests s.request_timers)) same,
        left.4 ∙ ap (λ s. if s.handshaking then [] else s.last_error ∷ []) same,
      )

  by_state_lem :
      (st : State) (allocated : Bool) (a : ConnectAnswers) (w : World)
      → IsHeard w.delegate
      → is_retry w.sock ≡ false
      → st ≢ disconnected
      → IsLeft w.sock (disconnect_by_state tv open_stream st alone alone allocated a w)
  unfolding disconnect_by_state check_retry_auth
  by_state_lem disconnected allocated a w h once e = absurd (e refl)
  by_state_lem connecting allocated a w h once e =
      released_lem allocated a (record w { sock = record (w.sock) { state = disconnected } }) h once
        refl
  by_state_lem connected allocated a w h once e =
      released_lem allocated a (record w { sock = record (w.sock) { state = disconnected } }) h once
        refl
  by_state_lem disconnecting allocated a w h once e =
      released_lem allocated a (record w { sock = record (w.sock) { state = disconnected } }) h once
        refl

  -- When the stream of a socket that is not disconnected is closed, its handler lives, it is not a
  -- WebSocket client about to answer a challenge, and no other thread calls it meanwhile: the
  -- socket is disconnected and holds no message and no request; the application hears of each
  -- pending message and then of each waiting request as failed, once and in order; and the
  -- handler's OnDisconnect is called once with the last error, but not in a handshake.
  pub on_disconnect_lem :
      (allocated : Bool) (a : ConnectAnswers) (w : World)
      → IsHeard w.delegate
      → is_retry w.sock ≡ false
      → w.sock.state ≢ disconnected
      → IsLeft w.sock (on_disconnect tv open_stream alone alone allocated a w)
  unfolding on_disconnect stop_connect_timer check_retry_auth
  on_disconnect_lem allocated a w h once e =
      let w' = record w { sock = (stop_connect_timer w.sock).0 } in
      let r = disconnect_by_state tv open_stream w.sock.state alone alone allocated a w' in
      let left = by_state_lem w.sock.state allocated a w' h once e in
      let effects = (Timer.stop w.sock.connect_timer).1 in
      (left.0, left.1, left.2, failures-timer effects r.1 ∙ left.3, ends-timer effects r.1 ∙ left.4)
