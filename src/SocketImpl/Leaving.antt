-- ===== src/SocketImpl/Leaving.antt =====
-- The end of a connection (`OnDisconnect` of src/socket_impl.cpp).
use linear_cpp.Prelude.{
  ◌≡◌, refl, sym, ap, ◌∙◌, List, [], ◌∷◌, ◌++◌, map, append_assoc, if_lem, Option, none, some,
  if◌then◌else◌,
}
use linear_cpp.Prelude.Int.{ℤ}
use linear_cpp.ErrorMap.{lnr_ecanceled}
use linear_cpp.Error.{Error, error}
use linear_cpp.Timer
use linear_cpp.Timer.{Effect}
use linear_cpp.Message.{Message, request, response, notify, undefined}
use linear_cpp.HandlerDelegate
use linear_cpp.HandlerDelegate.{
  HandlerDelegate, Callback, on_disconnect as reports_end, Owner, client, server,
}
use linear_cpp.SocketImpl.{
  disconnected, Expiry, RequestTimer, SocketImpl, World, Action, writes, timer, closes, reads,
  connects, limits_sendbuf, deletes_timer, calls,
}
use linear_cpp.SocketImpl.Send.{report, report_each, cancel, cancel_each, discard}
use linear_cpp.SocketImpl.Sending.{requests}
use linear_cpp.SocketImpl.Discarding.{failures, IsHeard}
use linear_cpp.SocketImpl.Events.{report_disconnect}

abbrev ends_of : Callback → List Error
ends_of (reports_end id e) = e ∷ []
ends_of _ = []

-- The ends of a connection that the handler hears of.
abbrev pub ends : List Action → List Error
ends [] = []
ends (calls c ∷ actions) = ends_of c ++ ends actions
ends (_ ∷ actions) = ends actions

pub ends-append : (xs ys : List Action) → ends (xs ++ ys) ≡ ends xs ++ ends ys
ends-append [] ys = refl
ends-append (calls c ∷ xs) ys =
    ap (λ l. ends_of c ++ l) (ends-append xs ys)
    ∙ sym (append_assoc (ends_of c) (ends xs) (ends ys))
ends-append (writes m ∷ xs) ys = ends-append xs ys
ends-append (closes ∷ xs) ys = ends-append xs ys
ends-append (reads ∷ xs) ys = ends-append xs ys
ends-append (connects ∷ xs) ys = ends-append xs ys
ends-append (limits_sendbuf n ∷ xs) ys = ends-append xs ys
ends-append (timer e ∷ xs) ys = ends-append xs ys
ends-append (deletes_timer n ∷ xs) ys = ends-append xs ys

pub ends-timer :
    (es : List (Effect Expiry)) (actions : List Action)
    → ends (map timer es ++ actions) ≡ ends actions
ends-timer [] actions = refl
ends-timer (e ∷ es) actions = ends-timer es actions

report-ends :
    (d : Option HandlerDelegate) (id : ℤ) (m : Message) (e : Error) → ends (report d id m e) ≡ []
unfolding report HandlerDelegate.failed
report-ends none id m e = refl
report-ends (some d) id (request r) e =
    if_lem (λ cs. ends (map calls cs) ≡ []) r.has_error_callback _ _ (λ g. refl)
      (λ g. if_lem (λ cs. ends (map calls cs) ≡ []) d.handler_alive _ _ (λ k. refl) (λ k. refl))
report-ends (some d) id (response r) e =
    if_lem (λ cs. ends (map calls cs) ≡ []) d.handler_alive _ _ (λ k. refl) (λ k. refl)
report-ends (some d) id (notify n) e =
    if_lem (λ cs. ends (map calls cs) ≡ []) d.handler_alive _ _ (λ k. refl) (λ k. refl)
report-ends (some d) id undefined e =
    if_lem (λ cs. ends (map calls cs) ≡ []) d.handler_alive _ _ (λ k. refl) (λ k. refl)

report_each-ends :
    (d : Option HandlerDelegate) (id : ℤ) (ms : List Message) (e : Error)
    → ends (report_each d id ms e) ≡ []
unfolding report_each
report_each-ends d id [] e = refl
report_each-ends d id (m ∷ ms) e =
    ends-append (report d id m e) (report_each d id ms e)
    ∙ rw (report-ends d id m e) (report_each-ends d id ms e)

cancel_each-ends :
    (d : Option HandlerDelegate) (id : ℤ) (ts : List RequestTimer) → ends (cancel_each d id ts) ≡ []
unfolding cancel_each cancel
cancel_each-ends d id [] = refl
cancel_each-ends d id (t ∷ ts) =
    let stopped = map timer (Timer.stop t.timer).1 ++ deletes_timer t.address ∷ [] in
    let failed = report d id (request t.request) (error lnr_ecanceled) in
    ends-append (cancel d id t) (cancel_each d id ts)
    ∙ rw
        (
          ends-append failed stopped,
          report-ends d id (request t.request) (error lnr_ecanceled),
          ends-timer (Timer.stop t.timer).1 (deletes_timer t.address ∷ []),
        )
        (cancel_each-ends d id ts)

pub discard-ends : (d : Option HandlerDelegate) (s : SocketImpl) → ends (discard d s).1 ≡ []
unfolding discard
discard-ends d s =
    ends-append (report_each d s.id s.pending_messages (error lnr_ecanceled))
      (cancel_each d s.id s.request_timers)
    ∙ rw (report_each-ends d s.id s.pending_messages (error lnr_ecanceled))
        (cancel_each-ends d s.id s.request_timers)

pub report_disconnect_lem :
    (d : Option HandlerDelegate) (id : ℤ) (e : Error)
    → IsHeard d
    → (failures (report_disconnect d id e) ≡ []) × (ends (report_disconnect d id e) ≡ e ∷ [])
unfolding report_disconnect HandlerDelegate.disconnected
report_disconnect_lem none id e h = cc
report_disconnect_lem (some d) id e h = rw h (refl, refl)

-- The connection of s ended: what the application heard, and what is left.
abbrev pub IsLeft : SocketImpl → World × List Action → Type 0
IsLeft s r =
    (r.0.sock.state ≡ disconnected)
    × (r.0.sock.pending_messages ≡ [])
    × (r.0.sock.request_timers ≡ [])
    × (failures r.1 ≡ s.pending_messages ++ map request (requests s.request_timers))
    × (ends r.1 ≡ (if s.handshaking then [] else s.last_error ∷ []))
