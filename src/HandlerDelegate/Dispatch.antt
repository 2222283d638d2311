-- ===== src/HandlerDelegate/Dispatch.antt =====
-- One event, one callback (src/handler_delegate.cpp).
use linear_cpp.Prelude.{◌≡◌, Bool, false, arith, length, if◌then◌else◌, ◌||◌}
use linear_cpp.Prelude.Int.{ℤ}
use linear_cpp.Error.{Error}
use linear_cpp.Message.{Message, request, response, notify, undefined}
use linear_cpp.HandlerDelegate.{HandlerDelegate, message, failed}

abbrev pub has_response_closure : Message → Bool
has_response_closure (response r) = r.request.has_response_callback
has_response_closure _ = false

abbrev pub has_error_closure : Message → Bool
has_error_closure (request r) = r.has_error_callback
has_error_closure _ = false

-- A message or an error is reported exactly once, if the handler still lives or the request has a
-- callback of its own for it, and otherwise not at all.
pub length-message-failed :
    (socket : ℤ) (m : Message) (e : Error) (d : HandlerDelegate)
    → (length (message socket m d) ≡ (if has_response_closure m || d.handler_alive then 1 else 0))
      × (length (failed socket m e d) ≡ (if has_error_closure m || d.handler_alive then 1 else 0))
unfolding message failed
length-message-failed socket (request r) e d = ground arith
length-message-failed socket (response r) e d = ground arith
length-message-failed socket (notify n) e d = ground arith
length-message-failed socket undefined e d = ground arith
