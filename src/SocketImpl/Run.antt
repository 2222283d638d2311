-- ===== src/SocketImpl/Run.antt =====
-- Runs of a client socket: the calls of the application's threads and the reports of the event
-- loop, in any order (src/socket_impl.cpp). The loop is one thread, so its reports exclude each
-- other, and only calls happen while one of them lets go of the lock.
use Prim.Native.String.{String}
use linear_cpp.Prelude.{ℕ, Bool, false, List, [], ◌∷◌, Option, if◌then◌else◌, Bytes}
use linear_cpp.Prelude.Int.{ℤ}
use linear_cpp.Error.{Error}
use linear_cpp.Message.{Message}
use linear_cpp.SocketImpl.{RequestTimer, SocketImpl, World, Action}
use linear_cpp.SocketImpl.Send.{Answers, send}
use linear_cpp.SocketImpl.Connect.{ConnectAnswers, set_max_send_buffer_size, disconnect, connect}
use linear_cpp.SocketImpl.Events.{Connection, on_connect, on_connect_timeout, on_disconnect, is_web}
use linear_cpp.SocketImpl.Open.{read_handshake}
use linear_cpp.SocketImpl.Receive.{Read, on_read, on_write, request_timed_out}

-- `connects` says which of the openings of a stream is made.
pub data Call : Type 0 where
  sends : Message → ℤ → Answers → Call
  disconnects : Call
  connects : ℕ → ConnectAnswers → ℕ → Call
  limits : ℕ → Call

-- What the handshake of a WebSocket brought: the code, the headers and the challenge.
pub record Reply : Type 0 where
  pub code : ℕ
  pub headers : List (Bytes × Bytes)
  pub challenge : Option Bytes

-- The lists are the calls of other threads, and of the handler's OnConnect, while OnConnect, OnRead
-- or OnDisconnect lets go of the lock. The last number of `disconnected` is the opening of a retry.
pub data Event : Type 0 where
  calls : Call → Event
  connected : Reply → Connection → List Call → List Call → (ℕ → Answers) → Event
  times_out : Reply → Connection → List Call → List Call → (ℕ → Answers) → Event
  disconnected : List Call → List Call → Bool → ConnectAnswers → ℕ → Event
  reads : List Call → Read → Event
  wrote : Message → ℤ → Event
  request_timeout : RequestTimer → Event

-- `WSSocketImpl::OnConnect` and `WSSSocketImpl::OnConnect` read the handshake before the OnConnect of
-- the base class; a TCP or an SSL socket has none.
unfoldable pub hears : Reply → SocketImpl → SocketImpl
hears r s = if is_web s.kind then read_handshake r.code r.headers r.challenge s else s

module _ (tv : String → ℤ) (open_stream : ℕ → SocketImpl → SocketImpl × Error × List Action) where
  unfoldable pub act : Call → World → World
  act (sends m timeout a) w = record w { sock = (send tv m timeout a w.sock).0 }
  act disconnects w = record w { sock = (disconnect false w.sock).0 }
  act (connects timeout a k) w = (connect tv (open_stream k) timeout a w).0
  act (limits n) w = record w { sock = (set_max_send_buffer_size n w.sock).0 }

  unfoldable pub acts : List Call → World → World
  acts [] w = w
  acts (c ∷ cs) w = acts cs (act c w)

  -- The calls as what they do to the socket.
  abbrev pub interleaved : List Call → World → SocketImpl → SocketImpl
  interleaved cs w s = (acts cs (record w { sock = s })).sock

  unfoldable pub step : Event → World → World
  step (calls c) w = act c w
  step (connected r c during between answers) w = record w {
    sock =
        (on_connect tv c (interleaved during w) (interleaved between w) answers w.delegate
          (hears r w.sock)).0;
  }
  step (times_out r c during between answers) w = record w {
    sock =
        (on_connect_timeout tv c (interleaved during w) (interleaved between w) answers w.delegate
          (hears r w.sock)).0;
  }
  step (disconnected during between allocated a k) w =
      (on_disconnect tv (open_stream k) (acts during) (acts between) allocated a w).0
  step (reads during r) w = record w {
    sock = (on_read tv (interleaved during w) w.delegate r w.sock).0;
  }
  step (wrote m status) w = record w { sock = (on_write tv w.delegate m status w.sock).0 }
  step (request_timeout t) w = record w { sock = (request_timed_out w.delegate t w.sock).0 }

  unfoldable pub run : List Event → World → World
  run [] w = w
  run (e ∷ es) w = run es (step e w)
