-- ===== src/Examples/Sockets.antt =====
-- The theorems about sockets (src/socket_impl.cpp and its subclasses) at concrete inputs.
use linear_cpp.Prelude.{
  ◌≡◌, refl, ◌+◌, Bool, true, false, ◌==◌, [], ◌∷◌, ◌++◌, Option, some, All, Bytes, codes, count,
  map, arith,
}
use linear_cpp.Prelude.Int.{pos}
use linear_cpp.Message.{Request, Message, request, notify}
use linear_cpp.SocketImpl.{disconnected, connected, SocketImpl}
use linear_cpp.SocketImpl.Send.{send, send_pending, discard}
use linear_cpp.SocketImpl.Sending.{SendOutcome, with_timeout, written, requests, send_outcome}
use linear_cpp.SocketImpl.Discarding.{failures, discard_lem}
use linear_cpp.SocketImpl.Pending.{asked_all, send_pending_lem}
use linear_cpp.SocketImpl.Events.{check_retry_auth}
use linear_cpp.SocketImpl.Receive.{Read, received, response_in, on_read}
use linear_cpp.SocketImpl.Responses.{delivered, answered, IsMatched}
use linear_cpp.SocketImpl.Matching.{entered, on_read_lem}
use linear_cpp.SocketImpl.Open.{ws_connect, read_handshake}
use linear_cpp.SocketImpl.Retry.{retry_once}
use linear_cpp.Examples.Data.{tv, ask, tell, alive, waiting, socket, answers, some_fail, opened}

send_outcome_example :
    SendOutcome tv connected
      (with_timeout (pos 500) (request ask))
      (socket connected [] [])
      (send tv (request ask) (pos 500) answers (socket connected [] []))
send_outcome_example = send_outcome tv (request ask) (pos 500) answers (socket connected [] [])

abbrev is_request : Message → Bool
is_request (request r) = true
is_request _ = false

abbrev queued : SocketImpl
queued = socket connected (request ask ∷ notify tell ∷ []) []

send_pending_lem_example :
    ((send_pending tv (some alive) some_fail queued).0.pending_messages ≡ [])
    × (count is_request (written (send_pending tv (some alive) some_fail queued).1)
          + count is_request (failures (send_pending tv (some alive) some_fail queued).1)
        ≡ count is_request queued.pending_messages)
    × (requests (send_pending tv (some alive) some_fail queued).0.request_timers
        ≡ requests queued.request_timers
          ++ asked_all (written (send_pending tv (some alive) some_fail queued).1))
send_pending_lem_example = send_pending_lem tv is_request (some alive) some_fail queued refl

abbrev dropped : SocketImpl
dropped = socket disconnected (notify tell ∷ []) (waiting ∷ [])

discard_lem_example :
    ((discard (some alive) dropped).0.pending_messages ≡ [])
    × ((discard (some alive) dropped).0.request_timers ≡ [])
    × (failures (discard (some alive) dropped).1
        ≡ dropped.pending_messages ++ map request (requests dropped.request_timers))
discard_lem_example = discard_lem (some alive) dropped refl

-- The answer to the waiting request, twice.
abbrev replies : Read
replies = received (response_in 9 [] [] ∷ response_in 9 [] [] ∷ []) 0

abbrev has_id_9 : Request → Bool
has_id_9 r = r.msgid == 9

abbrev listening : SocketImpl
listening = socket connected [] (waiting ∷ [])

-- Another thread limits what the socket receives.
abbrev limited : SocketImpl → SocketImpl
limited s = record s { max_recv_buffer_size = 100 }

on_read_lem_example :
    (count has_id_9 (answered (delivered (on_read tv limited (some alive) replies listening).1))
        + count has_id_9
            (requests (on_read tv limited (some alive) replies listening).0.request_timers)
      ≡ count has_id_9 (requests (entered listening.state limited listening).request_timers))
    × All IsMatched (delivered (on_read tv limited (some alive) replies listening).1)
on_read_lem_example = on_read_lem tv has_id_9 limited (some alive) replies listening refl

abbrev toy_md5 : Bytes → Option Bytes
toy_md5 s = some (codes "c4ca")

abbrev challenge : Bytes
challenge = codes "Digest realm=\"home\", nonce=\"d41d8c\", qop=\"auth\""

retry_once_example :
    check_retry_auth (
      read_handshake 401 []
        (some challenge)
        (ws_connect toy_md5 toy_md5
          (some (codes "x1"))
          tv
          opened
          (read_handshake 401 [] (some challenge) (socket disconnected [] []))).0)
    ≡ false
retry_once_example =
    retry_once toy_md5 toy_md5 (some (codes "x1")) tv opened 401 [] challenge 401 []
      (some challenge) (socket disconnected [] []) (omega arith)
