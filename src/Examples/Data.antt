-- ===== src/Examples/Data.antt =====
-- The sockets and the answers that the examples share.
use Prim.Native.String.{String}
use linear_cpp.Prelude.{ℕ, true, false, not, ◌==◌, List, [], some, codes}
use linear_cpp.Prelude.Int.{ℤ, pos, negsuc}
use linear_cpp.ErrorMap.{lnr_ok}
use linear_cpp.Error.{error}
use linear_cpp.Addrinfo
use linear_cpp.Addrinfo.{ipv4}
use linear_cpp.Auth.Header.{digest}
use linear_cpp.Auth.Authenticate.{blank}
use linear_cpp.Timer
use linear_cpp.Message.{Request, Notify, Message}
use linear_cpp.SocketPool.{new}
use linear_cpp.HandlerDelegate.{HandlerDelegate, client}
use linear_cpp.SocketImpl.{
  State, disconnected, ws, RequestTimer, SocketImpl, World, default_max_buffer_size,
}
use linear_cpp.SocketImpl.Send.{Answers}
use linear_cpp.SocketImpl.Connect.{ConnectAnswers}
use linear_cpp.SocketImpl.Open.{StreamAnswers}

abbrev pub tv : String → ℤ
tv name = negsuc 11

abbrev pub ask : Request
ask = record {
  msgid = 9;
  method = codes "m";
  params = [];
  timeout = pos 30000;
  has_response_callback = false;
  has_error_callback = false;
}

abbrev pub tell : Notify
tell = record { method = codes "n"; params = [] }

abbrev pub alive : HandlerDelegate
alive = record { owner = client; handler_alive = true; pool = new }

abbrev pub waiting : RequestTimer
waiting = record { address = 4096; request = ask; timer = Timer.new }

abbrev pub socket : State → List Message → List RequestTimer → SocketImpl
socket state pending timers = record {
  state = state;
  has_stream = true;
  self = Addrinfo.undefined;
  peer = record { addr = codes "127.0.0.1"; port = pos 10000; proto = ipv4 };
  bind_ifname = [];
  kind = ws;
  id = pos 1;
  connectable = true;
  handshaking = false;
  last_error = error lnr_ok;
  connect_timeout = 0;
  connect_timer = Timer.new;
  pending_messages = pending;
  request_timers = timers;
  max_send_buffer_size = default_max_buffer_size;
  max_recv_buffer_size = default_max_buffer_size;
  request_context = record {
    path = codes "/chat";
    query = [];
    headers = [];
    auth_type = digest;
    username = codes "alice";
    password = codes "secret";
  };
  response_context = record { code = 0; headers = [] };
  authenticate_context = blank digest;
}

abbrev pub granted : Timer.Answers
granted = record {
  event_allocated = true;
  allocated = true;
  init_status = pos 0;
  start_status = pos 0;
}

abbrev pub answers : Answers
answers = record {
  copied = true;
  timer_allocated = true;
  data_allocated = true;
  write_allocated = true;
  write_status = pos 0;
  address = 8192;
  timer = granted;
  timer_id = 0;
}

-- The second of two sends has no memory.
abbrev pub some_fail : ℕ → Answers
some_fail n = record answers { data_allocated = not (n == 1) }

abbrev pub opened : StreamAnswers
opened = record {
  allocated = true;
  init_status = pos 0;
  url_stored = true;
  headers_stored = true;
  bind_status = pos 0;
  connect_status = pos 0;
}

abbrev pub connect_answers : ConnectAnswers
connect_answers = record { socket_alive = true; timer = granted; timer_id = 0 }

abbrev pub world : World
world = record { sock = socket disconnected [] []; delegate = some alive; groups = [] }
