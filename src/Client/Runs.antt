-- ===== src/Client/Runs.antt =====
-- The socket of a client over time, with the Connect() of its protocol (src/tcp_socket_impl.cpp,
-- src/ssl_socket_impl.cpp, src/ws_socket_impl.cpp, src/wss_socket_impl.cpp).
use Prim.Native.String.{String}
use linear_cpp.Prelude.{true, ℕ, refl, inr, List, [], Option, some, if_lem, Bytes}
use linear_cpp.Prelude.Int.{ℤ, nonzero}
use linear_cpp.Error.{Error}
use linear_cpp.Timer
use linear_cpp.Group.{Groups}
use linear_cpp.SocketImpl.{Kind, tcp, ssl, ws, wss, SocketImpl, WsRequestContext, Action}
use linear_cpp.SocketImpl.Create.{new_client, set_max_buffer_size}
use linear_cpp.SocketImpl.Connect.{set_max_send_buffer_size}
use linear_cpp.SocketImpl.ConnectTimer.{IsTimed, Keeps}
use linear_cpp.SocketImpl.Run.{Event, run}
use linear_cpp.SocketImpl.TimedRun.{run_connect_timer}
use linear_cpp.SocketImpl.Retry.{KeepsEnd, start_connect-Keeps, tcp_connect-Keeps, ws_connect-Keeps}
use linear_cpp.SocketImpl.Open.{
  StreamAnswers, bind_fails, tcp_connect, ws_connect, connect_prepared,
}
use linear_cpp.SocketImpl.Secure.{ssl_connect, wss_connect, wss_prepare}
use linear_cpp.Client.{ClientImpl, create}

-- The Connect() of each class, with the answers that each of its calls gets.
pub data IsConnect (tv : String → ℤ)
    : Kind → (ℕ → SocketImpl → SocketImpl × Error × List Action) → Type 0 where
  by_tcp : (a : ℕ → StreamAnswers) → IsConnect tv tcp (λ k. tcp_connect tv (a k))
  by_ssl : (a : ℕ → StreamAnswers) → IsConnect tv ssl (λ k. ssl_connect tv (a k))
  by_ws :
      (md5sum to_base64 : Bytes → Option Bytes) (random : ℕ → Option Bytes) (a : ℕ → StreamAnswers)
      → IsConnect tv ws (λ k. ws_connect md5sum to_base64 (random k) tv (a k))
  by_wss :
      (md5sum to_base64 : Bytes → Option Bytes) (random : ℕ → Option Bytes) (a : ℕ → StreamAnswers)
      → IsConnect tv wss (λ k. wss_connect md5sum to_base64 (random k) tv (a k))

ssl_connect-Keeps :
    (tv : String → ℤ) (a : StreamAnswers) (s : SocketImpl) → Keeps s (ssl_connect tv a s).0
unfolding ssl_connect
ssl_connect-Keeps tv a s = unfold tcp_connect in tcp_connect-Keeps tv a s

module _ (md5sum to_base64 : Bytes → Option Bytes) (random : Option Bytes) (tv : String → ℤ)
    (a : StreamAnswers) where
  wss_connect-Keeps : (s : SocketImpl) → KeepsEnd s (wss_connect md5sum to_base64 random tv a s)
  unfolding wss_connect connect_prepared wss_prepare
  wss_connect-Keeps s =
      let p = wss_prepare md5sum to_base64 random s in
      if_lem (KeepsEnd s) a.allocated _ _
        (λ e.
          if_lem (KeepsEnd s) (nonzero a.init_status) _ _ (λ f. ((refl, refl), refl))
            (λ f.
              if_lem (KeepsEnd s) a.url_stored _ _
                (λ g.
                  if_lem (KeepsEnd s) a.headers_stored _ _
                    (λ i.
                      if_lem (KeepsEnd s) (bind_fails a p) _ _ (λ j. ((refl, refl), refl))
                        (λ j.
                          start_connect-Keeps tv a s
                            (record p {
                              has_stream = true;
                              response_context = record (p.response_context) { headers = [] };
                            })
                            ((refl, refl), refl)))
                    (λ i. ((refl, refl), refl)))
                (λ g. ((refl, refl), refl))))
        (λ e. ((refl, refl), refl))

connect-Keeps :
    (tv : String → ℤ) (kind : Kind) (f : ℕ → SocketImpl → SocketImpl × Error × List Action)
    → IsConnect tv kind f
    → (k : ℕ) (s : SocketImpl) → Keeps s (f k s).0
connect-Keeps tv _ _ (by_tcp a) k s = tcp_connect-Keeps tv (a k) s
connect-Keeps tv _ _ (by_ssl a) k s = ssl_connect-Keeps tv (a k) s
connect-Keeps tv _ _ (by_ws md5sum to_base64 random a) k s =
    (ws_connect-Keeps tv (a k) md5sum to_base64 (random k) s).0
connect-Keeps tv _ _ (by_wss md5sum to_base64 random a) k s =
    (wss_connect-Keeps md5sum to_base64 (random k) tv (a k) s).0

-- The connect timer of a socket that a client made runs only while the socket is connecting: this
-- holds after any run of calls and of reports of the event loop, with the handshakes that a WebSocket
-- reads, the challenges that it answers by connecting again, and other answers of libtv and the
-- system for each Connect() of the client's protocol; whatever other threads and the handler's
-- OnConnect call while OnConnect, OnRead and OnDisconnect let go of the lock.
pub run_created :
    {X : Type 0} (tv : String → ℤ) (request : Option WsRequestContext) (ssl_context : Option X)
    (r4 r6 : ℤ) (hostname : Bytes) (port : ℤ) (id : ℕ) (c : ClientImpl X) (groups : Groups)
    (f : ℕ → SocketImpl → SocketImpl × Error × List Action) (es : List Event)
    → IsConnect tv c.kind f
    → IsTimed
        (run tv f es (record {
          sock = (create request ssl_context r4 r6 hostname port id c).sock;
          delegate = some c.delegate;
          groups = groups;
        })).sock
unfolding create new_client set_max_buffer_size set_max_send_buffer_size Timer.new
run_created tv request ssl_context r4 r6 hostname port id c groups f es connects =
    run_connect_timer tv f (connect-Keeps tv c.kind f connects) es
      (record {
        sock = (create request ssl_context r4 r6 hostname port id c).sock;
        delegate = some c.delegate;
        groups = groups;
      })
      (inr refl)
