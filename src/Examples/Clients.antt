-- ===== src/Examples/Clients.antt =====
-- The theorems about clients and their sockets (src/ws_client.cpp, src/socket_impl.cpp) at concrete
-- inputs.
use linear_cpp.Prelude.{ℕ, true, List, [], ◌∷◌, some, none, codes}
use linear_cpp.Prelude.Int.{pos}
use linear_cpp.Message.{notify}
use linear_cpp.SocketImpl.{wss}
use linear_cpp.SocketImpl.Events.{Connection}
use linear_cpp.SocketImpl.ConnectTimer.{IsTimed}
use linear_cpp.SocketImpl.Run
use linear_cpp.SocketImpl.Run.{Event, calls, connects, sends, disconnects}
use linear_cpp.SocketImpl.Secure.{wss_connect}
use linear_cpp.Server.Accept.{default_context}
use linear_cpp.Client.{ClientImpl, create}
use linear_cpp.Client.Runs.{by_wss, run_created}
use linear_cpp.Examples.Data.{tv, tell, alive, answers, some_fail, opened, connect_answers}
use linear_cpp.Examples.Login.{toy_md5, no_base64}

abbrev established : Connection
established = record { status = pos 0; ssl_error = 0; self = none; read_status = pos 0 }

abbrev refusal : Run.Reply
refusal = record {
  code = 401;
  headers = [];
  challenge = some (codes "Digest realm=\"home\", nonce=\"d41d8c\", qop=\"auth\"");
}

-- A connect with a timeout, which is refused with a challenge; the retry, during which another thread
-- sends; then the connection, while the handler hears of which it sends, and another thread
-- disconnects; then a new connect.
abbrev events : List Event
events =
    calls (connects 3000 connect_answers 0)
    ∷ Run.connected refusal (record established { status = tv "EWS" }) [] [] some_fail
    ∷ Run.disconnected [] (sends (notify tell) (pos 0) answers ∷ []) true connect_answers 1
    ∷ Run.connected refusal established (sends (notify tell) (pos 0) answers ∷ [])
        (disconnects ∷ []) some_fail
    ∷ Run.disconnected [] [] true connect_answers 2
    ∷ calls (connects 3000 connect_answers 3)
    ∷ []

-- A client of secure WebSockets, with a number for its SSL context.
abbrev caller : ClientImpl ℕ
caller = record { delegate = alive; kind = wss; request_context = default_context; ssl_context = 0 }

run_created_example :
    IsTimed
      (Run.run tv
        (λ k. wss_connect toy_md5 no_base64 none tv opened)
        events
        (record {
          sock = (create none none (pos 0) (pos 0) (codes "127.0.0.1") (pos 10000) 3 caller).sock;
          delegate = some alive;
          groups = [];
        })).sock
run_created_example =
    run_created tv none none (pos 0) (pos 0) (codes "127.0.0.1") (pos 10000) 3 caller []
      (λ k. wss_connect toy_md5 no_base64 none tv opened) events
      (by_wss toy_md5 no_base64 (λ k. none) (λ k. opened))
