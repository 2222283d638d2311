-- ===== src/Examples/Connections.antt =====
-- The theorems about whole connections (src/socket_impl.cpp) at concrete inputs.
use linear_cpp.Prelude.{◌≡◌, refl, true, [], ◌∷◌, some}
use linear_cpp.Error.{from_status}
use linear_cpp.Message.{notify}
use linear_cpp.SocketImpl.{connected, SocketImpl, World}
use linear_cpp.SocketImpl.Send.{
  send_pending, flush_state, flush, send_now, write, start_timer, report_each,
}
use linear_cpp.SocketImpl.Sending.{written}
use linear_cpp.SocketImpl.Discarding.{failures}
use linear_cpp.SocketImpl.Events.{on_disconnect, alone}
use linear_cpp.SocketImpl.Leaving.{IsLeft}
use linear_cpp.SocketImpl.Disconnection.{on_disconnect_lem}
use linear_cpp.SocketImpl.InOrder.{send_pending-order}
use linear_cpp.SocketImpl.Run.{connects}
use linear_cpp.SocketImpl.Calls.{Edge, act-Edge}
use linear_cpp.SocketImpl.Open.{tcp_connect}
use linear_cpp.SocketImpl.Retry.{tcp_connect-Keeps}
use linear_cpp.Examples.Data.{
  tv, tell, alive, waiting, socket, answers, opened, connect_answers, world,
}

-- A connection with a message that was not sent and a request without a response.
abbrev broken : World
broken = record world { sock = socket connected (notify tell ∷ []) (waiting ∷ []) }

on_disconnect_lem_example :
    IsLeft broken.sock
      (on_disconnect tv (tcp_connect tv opened) alone alone true connect_answers broken)
on_disconnect_lem_example =
    on_disconnect_lem tv (tcp_connect tv opened) true connect_answers broken refl refl (λ e. cc)

abbrev queued : SocketImpl
queued = socket connected (notify tell ∷ notify tell ∷ []) []

none_failed : failures (send_pending tv (some alive) (λ n. answers) queued).1 ≡ []
unfolding send_pending flush_state flush send_now write start_timer report_each from_status
none_failed = refl

send_pending-order_example :
    written (send_pending tv (some alive) (λ n. answers) queued).1 ≡ queued.pending_messages
send_pending-order_example =
    send_pending-order tv (some alive) (λ n. answers) queued refl none_failed

act-Edge_example :
    Edge tv
      (λ k. tcp_connect tv opened)
      (λ k. tcp_connect-Keeps tv opened)
      (connects 3000 connect_answers 0)
      world
act-Edge_example =
    act-Edge tv (λ k. tcp_connect tv opened) (λ k. tcp_connect-Keeps tv opened)
      (connects 3000 connect_answers 0) world
