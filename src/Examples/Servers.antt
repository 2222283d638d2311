-- ===== src/Examples/Servers.antt =====
-- The theorems about servers (src/server_impl.h, src/ws_server_impl.cpp and the other servers) at
-- concrete inputs.
use Prim.Native.String.{String, len}
use linear_cpp.Prelude.{
  ℕ, ◌+◌, ◌≤◌, ◌≡◌, refl, Bool, true, false, List, [], ◌∷◌, Option, some, none, Bytes, codes,
  length, arith, count, if◌then◌else◌,
}
use linear_cpp.Prelude.Int.{ℤ, pos, negsuc}
use linear_cpp.Addrinfo
use linear_cpp.Auth.Header.{unused, digest}
use linear_cpp.Auth.Authorization.{Authorization, validate, valid, ambiguous}
use linear_cpp.Timer
use linear_cpp.NoncePool.{is_valid}
use linear_cpp.Error
use linear_cpp.SocketPool
use linear_cpp.HandlerDelegate
use linear_cpp.HandlerDelegate.{HandlerDelegate}
use linear_cpp.Ordered.{bytes_order}
use linear_cpp.Ordered.Map.{find}
use linear_cpp.SocketPool.Capacity.{held}
use linear_cpp.SocketImpl.{connecting, ws, SocketImpl, World}
use linear_cpp.SocketImpl.Events.{Connection}
use linear_cpp.SocketImpl.Create.{new_server}
use linear_cpp.SocketImpl.Open.{url}
use linear_cpp.Server.{start, ServerImpl}
use linear_cpp.Server.Accept.{Accepted, default_context, is_stopped}
use linear_cpp.Server.WebSocket.{Handshake, Response, Outcome, on_accept}
use linear_cpp.Server.Draw.Ends.{IsDistinct, IsTimely}
use linear_cpp.Server.Arrival.{IsHeard, IsTaken, accepted_socket, entered}
use linear_cpp.SocketImpl.Reconnect.{IsReconnecting}
use linear_cpp.Server.Handshake.{authorization, Texts, after_refusal, retry_login}
use linear_cpp.Server.Refusal.{Refuses, accept_refusal}
use linear_cpp.Server.Opening.{IsFull, IsOpened, IsTurnedAway, accept_open, accept_full}
use linear_cpp.Server.Lifecycle.{is_listens, is_closes, running}
use linear_cpp.Server.Run.{Call, starts, stops, accepts, releases, run, limited, run_server}
use linear_cpp.Examples.Data.{tv, alive, granted, socket, some_fail, opened, connect_answers}
use linear_cpp.Examples.Login.{toy_md5, no_base64, is_plain, is_plain-ArePlain, toy_md5-IsHash}

-- Every header fits, every draw is another byte, and no search finds a header.
abbrev stores : Bytes → Bytes → Bool
stores key text = true

abbrev random : ℕ → Option Bytes
random i = some (i ∷ [])

random-IsDistinct : IsDistinct random
random-IsDistinct i j n p q = cc

abbrev timers : ℕ → Timer.Answers
timers i = granted

abbrev finds : Bytes → List (Bytes × Bytes) → Option Bytes
finds key headers = none

-- The handler answers with 101.
abbrev during : SocketImpl → SocketImpl
during s = record s { response_context = record (s.response_context) { code = 101 } }

abbrev nonce : Bytes
nonce = codes "d41d8c"

abbrev home : Bytes
home = codes "home"

abbrev guarded : ServerImpl
guarded = record {
  delegate = alive;
  kind = ws;
  state = start;
  self = Addrinfo.undefined;
  nonce_pool = record { nonce = nonce; timer = Timer.new } ∷ [];
  auth_type = digest;
  realm = home;
}

abbrev unguarded : ServerImpl
unguarded = record guarded { auth_type = unused }

-- A server with one socket and room for one.
abbrev crowded : ServerImpl
crowded = record guarded {
  delegate = record alive { pool = record { max = 1; pool = pos 4 ∷ [] } };
}

abbrev accepted : Accepted
accepted = record {
  status = pos 0;
  has_stream = true;
  allocated = true;
  id = 7;
  self = none;
  peer = none;
  read_status = pos 0;
}

-- A handshake without an Authorization header.
abbrev plain_handshake : Handshake
plain_handshake = record {
  successful = true;
  path = some (codes "/chat");
  query = none;
  headers = [];
  authorization = none;
}

abbrev response : Response
response = record { code = 101; headers = [] }

-- Distinct numbers for the names of libtv's errors that the client looks at.
abbrev by_name : String → ℤ
by_name name = negsuc (len name)

-- A client that connects and was not challenged yet.
abbrev caller : SocketImpl
caller = socket connecting [] []

abbrev failed : Connection
failed = record { status = by_name "EWS"; ssl_error = 0; self = none; read_status = pos 0 }

-- It holds its own socket.
abbrev holding : HandlerDelegate
holding = record alive { pool = record { max = 0; pool = pos 1 ∷ [] } }

caller-IsReconnecting : IsReconnecting by_name failed connect_answers opened holding [] caller
unfolding HandlerDelegate.retain HandlerDelegate.release SocketPool.add SocketPool.remove
caller-IsReconnecting = record {
  begun = refl;
  web = refl;
  connectable = refl;
  known = refl;
  refusal = record { failed = refl; no_ssl = refl; no_x509 = refl; refused = refl };
  alive = refl;
  kept = refl;
  opened = record {
    allocated = refl;
    initialized = refl;
    url_stored = refl;
    headers_stored = refl;
    bound = refl;
    connects = refl;
  };
}

-- The client that tries again.
abbrev challenged : World
challenged =
    after_refusal toy_md5 no_base64 home nonce (codes "x1") [] by_name failed some_fail
      connect_answers opened holding [] caller

caller-Texts : Texts toy_md5 no_base64 home nonce (codes "x1") 401 [] caller
unfolding is_plain url
caller-Texts = record {
  plain_realm = is_plain-ArePlain home refl;
  plain_nonce = is_plain-ArePlain nonce refl;
  plain_uri = is_plain-ArePlain (codes "/chat") refl;
  plain_username = is_plain-ArePlain (codes "alice") refl;
  plain_cnonce = is_plain-ArePlain (codes "x1") refl;
  with_nonce = refl;
  with_uri = refl;
  with_username = refl;
}

abbrev second_handshake : Handshake
second_handshake = record plain_handshake {
  authorization = find authorization challenged.sock.request_context.headers;
}

second-IsTaken : IsTaken accepted second_handshake guarded
unfolding HandlerDelegate.retain SocketPool.add SocketPool.new
second-IsTaken = record {
  is_heard = record { heard = refl; allocated = refl; reads = refl; successful = refl };
  room = refl;
}

first-IsTaken : IsTaken accepted plain_handshake guarded
unfolding HandlerDelegate.retain SocketPool.add SocketPool.new
first-IsTaken = record {
  is_heard = record { heard = refl; allocated = refl; reads = refl; successful = refl };
  room = refl;
}

unguarded-IsTaken : IsTaken accepted plain_handshake unguarded
unfolding HandlerDelegate.retain SocketPool.add SocketPool.new
unguarded-IsTaken = record {
  is_heard = record { heard = refl; allocated = refl; reads = refl; successful = refl };
  room = refl;
}

crowded-IsHeard : IsHeard accepted plain_handshake crowded
crowded-IsHeard = record { heard = refl; allocated = refl; reads = refl; successful = refl }

crowded-IsFull : IsFull crowded.delegate.pool
crowded-IsFull = record { limited = omega arith; reached = omega arith }

-- What a server makes of a handshake.
abbrev outcome : Handshake → ServerImpl → Outcome
outcome h srv =
    on_accept stores tv random timers 0 no_base64 finds during 3 accepted true h response srv []

abbrev answered : Outcome
answered =
    on_accept stores by_name random timers 0 no_base64 finds during 3 accepted true second_handshake
      response guarded []

retry_login_example :
    (challenged.sock.state ≡ connecting)
    × ((x : Authorization) × (answered.authorization ≡ some x)
        × (validate toy_md5 (codes "secret") x
            ≡ (if is_valid nonce guarded.nonce_pool then valid else ambiguous)))
    × (is_valid nonce answered.srv.nonce_pool ≡ false)
retry_login_example =
    retry_login toy_md5 no_base64 home nonce (codes "x1") [] by_name failed some_fail
      connect_answers opened holding [] caller stores random timers 0 no_base64 finds during 3
      accepted true second_handshake response guarded [] toy_md5-IsHash caller-Texts refl refl
      caller-IsReconnecting (λ s. refl) second-IsTaken refl refl (omega arith)

timers-AreTimely : (i : ℕ) → IsTimely tv (timers i)
unfolding Error.from_status
timers-AreTimely i = (refl, refl)

accept_refusal_example :
    Refuses (entered tv accepted response guarded []) (outcome plain_handshake guarded)
accept_refusal_example =
    accept_refusal stores tv random timers 0 no_base64 finds during 3 accepted true plain_handshake
      response guarded [] random-IsDistinct timers-AreTimely (omega arith) first-IsTaken refl tt

accept_open_example :
    IsOpened stores tv random timers 0 no_base64 finds during 3
      (pos 7)
      plain_handshake
      (accepted_socket accepted unguarded)
      (entered tv accepted response unguarded [])
      (outcome plain_handshake unguarded)
accept_open_example =
    accept_open stores tv random timers 0 no_base64 finds during 3 accepted true plain_handshake
      response unguarded [] unguarded-IsTaken refl

accept_full_example :
    IsTurnedAway stores tv random timers 0 no_base64 finds during 3
      (new_server ws (pos 7) default_context none none).1
      crowded
      []
      (outcome plain_handshake crowded)
accept_full_example =
    accept_full stores tv random timers 0 no_base64 finds during 3 accepted true plain_handshake
      response crowded [] crowded-IsHeard crowded-IsFull

abbrev calls : List Call
calls =
    starts
      (record {
        resolved_4 = pos 0;
        resolved_6 = pos 0;
        allocated = true;
        init_status = pos 0;
        listen_status = pos 0;
      })
      (codes "127.0.0.1") (pos 10000)
    ∷ accepts accepted
    ∷ accepts (record accepted { id = 8 })
    ∷ releases (pos 7)
    ∷ stops
    ∷ []

run_server_example :
    let (srv, actions) = run tv calls (limited 1 true ws digest home) [] in
    (length srv.delegate.pool.pool ≤ 1)
    × ((id : ℤ) → held id srv.delegate.pool ≤ 1)
    × (is_stopped srv.state ≡ true → srv.delegate.pool.pool ≡ [])
    × (count is_listens actions ≡ count is_closes actions + running srv.state)
run_server_example = run_server tv 1 true ws digest home calls [] (omega arith)
