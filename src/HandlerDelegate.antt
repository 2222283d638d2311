-- ===== src/HandlerDelegate.antt =====
-- src/handler_delegate.cpp and src/server_impl.h: a client or a server between its sockets and the
-- application's handler. The handler is external: what reaches it is a list of callbacks. What it
-- throws is caught and logged, so a callback that throws is as one that returns.
pub mod Dispatch
use linear_cpp.Prelude.{ℕ, Bool, true, false, List, [], ◌∷◌, if◌then◌else◌}
use linear_cpp.Prelude.Int.{ℤ}
use linear_cpp.Error.{Error}
use linear_cpp.Group.{Groups, leave_all}
use linear_cpp.SocketPool
use linear_cpp.SocketPool.{SocketPool}
use linear_cpp.Message.{Request, Response, Message, request, response}

pub data Owner : Type 0 where
  client server : Owner

-- `handler_alive`: `handler_.lock()` gives the handler.
pub record HandlerDelegate : Type 0 where
  pub owner : Owner
  pub handler_alive : Bool
  pub pool : SocketPool

-- What the application sees: the handler's methods, or the callbacks of one request.
pub data Callback : Type 0 where
  on_connect : ℤ → Callback
  on_disconnect : ℤ → Error → Callback
  on_message : ℤ → Message → Callback
  on_error : ℤ → Message → Error → Callback
  fire_response : ℤ → Response → Callback
  fire_error : ℤ → Request → Error → Callback

-- `SetMaxLimit`.
unfoldable pub set_max_limit : ℕ → HandlerDelegate → HandlerDelegate
set_max_limit max d = record d { pool = SocketPool.set_max_limit max d.pool }

unfoldable pub retain : ℤ → HandlerDelegate → HandlerDelegate × Error
retain socket d = let (p, e) = SocketPool.add socket d.pool in (record d { pool = p }, e)

unfoldable pub release_owner : Owner → ℤ → HandlerDelegate → Groups → HandlerDelegate × Groups
release_owner client socket d groups = (record d { pool = SocketPool.remove socket d.pool }, groups)
release_owner server socket d groups =
    (record d { pool = SocketPool.remove socket d.pool }, leave_all socket groups)

-- `Release`; a server's also takes the socket out of all groups.
unfoldable pub release : ℤ → HandlerDelegate → Groups → HandlerDelegate × Groups
unfolding release_owner
release socket d groups = release_owner d.owner socket d groups

abbrev to_handler : HandlerDelegate → Callback → List Callback
to_handler d c = if d.handler_alive then c ∷ [] else []

unfoldable pub connected : ℤ → HandlerDelegate → List Callback
connected socket d = to_handler d (on_connect socket)

unfoldable pub disconnected : ℤ → Error → HandlerDelegate → List Callback
disconnected socket e d = to_handler d (on_disconnect socket e)

-- `OnMessage`: a response goes to the callback of its request, if that has one.
unfoldable pub message : ℤ → Message → HandlerDelegate → List Callback
message socket (response r) d =
    if r.request.has_response_callback
    then fire_response socket r ∷ []
    else to_handler d (on_message socket (response r))
message socket m d = to_handler d (on_message socket m)

-- `OnError`: a request's error goes to its callback, if it has one.
unfoldable pub failed : ℤ → Message → Error → HandlerDelegate → List Callback
failed socket (request r) e d =
    if r.has_error_callback
    then fire_error socket r e ∷ []
    else to_handler d (on_error socket (request r) e)
failed socket m e d = to_handler d (on_error socket m e)
