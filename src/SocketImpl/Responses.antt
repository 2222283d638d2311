-- ===== src/SocketImpl/Responses.antt =====
-- What an incoming response does: the callback it reaches and the timer it takes away (`OnRead` of
-- src/socket_impl.cpp).
use linear_cpp.Prelude.{
  ◌+◌, ◌≡◌, refl, sym, ap, ◌∙◌, Bool, true, List, [], ◌∷◌, ◌++◌, map, append_assoc, arith, count,
  if◌then◌else◌, if_lem, Option, none, some, erase_first,
}
use linear_cpp.Prelude.Int.{ℤ}
use linear_cpp.Timer.{Effect}
use linear_cpp.Message.{Request, Response, Notify, request, response, notify}
use linear_cpp.HandlerDelegate
use linear_cpp.HandlerDelegate.{HandlerDelegate, Callback, on_message, fire_response}
use linear_cpp.SocketImpl.{
  Expiry, RequestTimer, Action, writes, timer, closes, reads, connects, limits_sendbuf,
  deletes_timer, calls,
}
use linear_cpp.SocketImpl.Sending.{requests}
use linear_cpp.SocketImpl.Discarding.{IsHeard}
use linear_cpp.SocketImpl.Receive.{find_timer, deliver}

abbrev responses_of : Callback → List Response
responses_of (fire_response id r) = r ∷ []
responses_of (on_message id (response r)) = r ∷ []
responses_of _ = []

-- The responses that reach the application.
abbrev pub delivered : List Action → List Response
delivered [] = []
delivered (calls c ∷ actions) = responses_of c ++ delivered actions
delivered (_ ∷ actions) = delivered actions

-- The requests that they answer.
abbrev pub answered : List Response → List Request
answered [] = []
answered (r ∷ rs) = r.request ∷ answered rs

-- A response has the id of its request.
abbrev pub IsMatched : Response → Type 0
IsMatched r = r.msgid ≡ r.request.msgid

pub delivered-append : (xs ys : List Action) → delivered (xs ++ ys) ≡ delivered xs ++ delivered ys
delivered-append [] ys = refl
delivered-append (calls c ∷ xs) ys =
    ap (λ l. responses_of c ++ l) (delivered-append xs ys)
    ∙ sym (append_assoc (responses_of c) (delivered xs) (delivered ys))
delivered-append (writes m ∷ xs) ys = delivered-append xs ys
delivered-append (closes ∷ xs) ys = delivered-append xs ys
delivered-append (reads ∷ xs) ys = delivered-append xs ys
delivered-append (connects ∷ xs) ys = delivered-append xs ys
delivered-append (limits_sendbuf n ∷ xs) ys = delivered-append xs ys
delivered-append (timer e ∷ xs) ys = delivered-append xs ys
delivered-append (deletes_timer n ∷ xs) ys = delivered-append xs ys

pub delivered-timer :
    (es : List (Effect Expiry)) (actions : List Action)
    → delivered (map timer es ++ actions) ≡ delivered actions
delivered-timer [] actions = refl
delivered-timer (e ∷ es) actions = delivered-timer es actions

pub answered-append : (xs ys : List Response) → answered (xs ++ ys) ≡ answered xs ++ answered ys
answered-append [] ys = refl
answered-append (x ∷ xs) ys = ap (λ l. x.request ∷ l) (answered-append xs ys)

pub deliver-response :
    (d : Option HandlerDelegate) (id : ℤ) (r : Response)
    → IsHeard d
    → delivered (deliver d id (response r)) ≡ r ∷ []
unfolding deliver HandlerDelegate.message
deliver-response none id r h = cc
deliver-response (some d) id r h =
    if_lem (λ cs. delivered (map calls cs) ≡ r ∷ []) r.request.has_response_callback _ _ (λ g. refl)
      (λ g. rw h refl)

pub deliver-request :
    (d : Option HandlerDelegate) (id : ℤ) (r : Request)
    → IsHeard d
    → delivered (deliver d id (request r)) ≡ []
unfolding deliver HandlerDelegate.message
deliver-request none id r h = refl
deliver-request (some d) id r h = rw h refl

pub deliver-notify :
    (d : Option HandlerDelegate) (id : ℤ) (n : Notify)
    → IsHeard d
    → delivered (deliver d id (notify n)) ≡ []
unfolding deliver HandlerDelegate.message
deliver-notify none id r h = refl
deliver-notify (some d) id r h = rw h refl

pub find_timer-erase_first :
    (p : RequestTimer → Bool) (q : Request → Bool) (ts : List RequestTimer) (t : RequestTimer)
    → find_timer p ts ≡ some t
    → count q (requests (erase_first p ts)) + (if q t.request then 1 else 0) ≡ count q (requests ts)
unfolding find_timer
find_timer-erase_first p q [] t h = cc
find_timer-erase_first p q (x ∷ xs) t h = ground (arith, find_timer-erase_first p q xs t)

pub find_timer-passes :
    (p : RequestTimer → Bool) (ts : List RequestTimer) (t : RequestTimer)
    → find_timer p ts ≡ some t
    → p t ≡ true
unfolding find_timer
find_timer-passes p [] t h = cc
find_timer-passes p (x ∷ xs) t h = ground (arith, find_timer-passes p xs t)
