-- ===== src/SocketImpl/Discarding.antt =====
-- What a socket does with its messages and requests when it gives them up (`_DiscardMessages` of
-- src/socket_impl.cpp).
use linear_cpp.Prelude.{
  ◌≡◌, refl, sym, ap, ◌∙◌, true, false, List, [], ◌∷◌, ◌++◌, map, append_assoc, if_lem, Option,
  none, some,
}
use linear_cpp.Prelude.Int.{ℤ}
use linear_cpp.ErrorMap.{lnr_ecanceled}
use linear_cpp.Error.{Error, error}
use linear_cpp.Timer
use linear_cpp.Timer.{Effect}
use linear_cpp.Message.{Message, request, response, notify, undefined}
use linear_cpp.HandlerDelegate
use linear_cpp.HandlerDelegate.{HandlerDelegate, Callback, on_error, fire_error}
use linear_cpp.SocketImpl.{
  Expiry, RequestTimer, SocketImpl, Action, writes, timer, closes, reads, connects, limits_sendbuf,
  deletes_timer, calls,
}
use linear_cpp.SocketImpl.Send.{report, report_each, cancel, cancel_each, discard}
use linear_cpp.SocketImpl.Sending.{requests}

-- The messages whose failure reaches the application.
abbrev errors_of : Callback → List Message
errors_of (on_error id m e) = m ∷ []
errors_of (fire_error id r e) = request r ∷ []
errors_of _ = []

abbrev pub failures : List Action → List Message
failures [] = []
failures (calls c ∷ actions) = errors_of c ++ failures actions
failures (_ ∷ actions) = failures actions

-- A socket whose client or server and handler live.
abbrev pub IsHeard : Option HandlerDelegate → Type 0
IsHeard none = false ≡ true
IsHeard (some d) = d.handler_alive ≡ true

pub failures-append : (xs ys : List Action) → failures (xs ++ ys) ≡ failures xs ++ failures ys
failures-append [] ys = refl
failures-append (calls c ∷ xs) ys =
    ap (λ l. errors_of c ++ l) (failures-append xs ys)
    ∙ sym (append_assoc (errors_of c) (failures xs) (failures ys))
failures-append (writes m ∷ xs) ys = failures-append xs ys
failures-append (closes ∷ xs) ys = failures-append xs ys
failures-append (reads ∷ xs) ys = failures-append xs ys
failures-append (connects ∷ xs) ys = failures-append xs ys
failures-append (limits_sendbuf n ∷ xs) ys = failures-append xs ys
failures-append (timer e ∷ xs) ys = failures-append xs ys
failures-append (deletes_timer n ∷ xs) ys = failures-append xs ys

pub failures-timer :
    (es : List (Effect Expiry)) (actions : List Action)
    → failures (map timer es ++ actions) ≡ failures actions
failures-timer [] actions = refl
failures-timer (e ∷ es) actions = failures-timer es actions

report_lem :
    (d : Option HandlerDelegate) (id : ℤ) (m : Message) (e : Error)
    → IsHeard d
    → failures (report d id m e) ≡ m ∷ []
unfolding report HandlerDelegate.failed
report_lem none id m e h = cc
report_lem (some d) id (request r) e h =
    if_lem (λ cs. failures (map calls cs) ≡ request r ∷ []) r.has_error_callback _ _ (λ g. refl)
      (λ g. rw h refl)
report_lem (some d) id (response r) e h = rw h refl
report_lem (some d) id (notify n) e h = rw h refl
report_lem (some d) id undefined e h = rw h refl

pub report_each_lem :
    (d : Option HandlerDelegate) (id : ℤ) (ms : List Message) (e : Error)
    → IsHeard d
    → failures (report_each d id ms e) ≡ ms
unfolding report_each
report_each_lem d id [] e h = refl
report_each_lem d id (m ∷ ms) e h =
    failures-append (report d id m e) (report_each d id ms e)
    ∙ rw (report_lem d id m e h) (ap (λ l. m ∷ l) (report_each_lem d id ms e h))

cancel_each_lem :
    (d : Option HandlerDelegate) (id : ℤ) (ts : List RequestTimer)
    → IsHeard d
    → failures (cancel_each d id ts) ≡ map request (requests ts)
unfolding cancel_each cancel
cancel_each_lem d id [] h = refl
cancel_each_lem d id (t ∷ ts) h =
    failures-append (cancel d id t) (cancel_each d id ts)
    ∙ rw (failures-append (report d id (request t.request) (error lnr_ecanceled)) _) (
        rw
          (
            report_lem d id (request t.request) (error lnr_ecanceled) h,
            failures-timer (Timer.stop t.timer).1 (deletes_timer t.address ∷ []),
          )
          (ap (λ l. request t.request ∷ l) (cancel_each_lem d id ts h)))

-- When the messages of a socket are discarded and its handler lives, none is left, and the handler
-- or the requests' own callbacks get exactly the pending messages and then the waiting requests,
-- each once and in their order, as failed.
pub discard_lem :
    (d : Option HandlerDelegate) (s : SocketImpl)
    → IsHeard d
    → ((discard d s).0.pending_messages ≡ [])
      × ((discard d s).0.request_timers ≡ [])
      × (failures (discard d s).1 ≡ s.pending_messages ++ map request (requests s.request_timers))
unfolding discard
discard_lem d s h = (
  refl,
  refl,
  failures-append (report_each d s.id s.pending_messages (error lnr_ecanceled)) _
      ∙ rw
          (
            report_each_lem d s.id s.pending_messages (error lnr_ecanceled) h,
            cancel_each_lem d s.id s.request_timers h,
          )
          refl,
)
