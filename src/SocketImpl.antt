-- ===== src/SocketImpl.antt =====
-- src/socket_impl.h and src/socket_impl.cpp: a socket. Its state is a record; the methods are in the
-- children. What a method does outside the socket is a list of actions, in order. A method that
-- holds the socket's lock throughout is one step; one that lets go of it takes what other threads
-- and the handler did meanwhile as an argument.
pub mod Send
pub mod Connect
pub mod Create
pub mod Events
pub mod Receive
pub mod Sending
pub mod Discarding
pub mod Leaving
pub mod Disconnection
pub mod Pending
pub mod InOrder
pub mod Responses
pub mod Matching
pub mod Run
pub mod Calls
pub mod ConnectTimer
pub mod Timed
pub mod Kept
pub mod TimedRun
pub mod Open
pub mod Retry
pub mod Starting
pub mod Reconnect
pub mod Secure
use linear_cpp.Prelude.{ℕ, ◌*◌, Bool, true, false, List, [], ◌∷◌, ◌++◌, map, Bytes}
use linear_cpp.Prelude.Int.{ℤ}
use linear_cpp.Error.{Error}
use linear_cpp.Addrinfo.{Addrinfo}
use linear_cpp.Auth.Header.{AuthType}
use linear_cpp.Auth.Authenticate.{Authenticate}
use linear_cpp.Timer.{TimerImpl, Effect}
use linear_cpp.Message.{Request, Message}
use linear_cpp.Group.{Groups}
use linear_cpp.HandlerDelegate.{HandlerDelegate, Callback}
use linear_cpp.Prelude.{Option}

-- `Socket::State`.
pub data State : Type 0 where
  disconnecting disconnected connecting connected : State

-- `Socket::Type`.
pub data Kind : Type 0 where
  nil tcp ssl ws wss : Kind

-- What a timer of a socket calls when it runs out; a request's timer is known by its address.
pub data Expiry : Type 0 where
  on_connect_timeout : Expiry
  on_request_timeout : ℕ → Expiry

-- `SocketImpl::RequestTimer`, with the address at which it was allocated.
pub record RequestTimer : Type 0 where
  pub address : ℕ
  pub request : Request
  pub timer : TimerImpl Expiry

-- `WSRequestContext`, with the fields of its `authenticate`.
pub record WsRequestContext : Type 0 where
  pub path : Bytes
  pub query : Bytes
  pub headers : List (Bytes × Bytes)
  pub auth_type : AuthType
  pub username : Bytes
  pub password : Bytes

pub record WsResponseContext : Type 0 where
  pub code : ℕ
  pub headers : List (Bytes × Bytes)

-- The last three fields are those of the subclasses `WSSocketImpl` and `WSSSocketImpl`.
pub record SocketImpl : Type 0 where
  pub state : State
  pub has_stream : Bool  -- stream_ != NULL
  pub self : Addrinfo
  pub peer : Addrinfo
  pub bind_ifname : Bytes
  pub kind : Kind
  pub id : ℤ
  pub connectable : Bool
  pub handshaking : Bool
  pub last_error : Error
  pub connect_timeout : ℕ
  pub connect_timer : TimerImpl Expiry
  pub pending_messages : List Message
  pub request_timers : List RequestTimer
  pub max_send_buffer_size : ℕ
  pub max_recv_buffer_size : ℕ
  pub request_context : WsRequestContext
  pub response_context : WsResponseContext
  pub authenticate_context : Authenticate

pub data Action : Type 0 where
  closes reads connects : Action  -- tv_close, tv_read_start, tv_connect
  writes : Message → Action  -- tv_write
  limits_sendbuf : ℕ → Action  -- tv_set_max_sendbuf
  timer : Effect Expiry → Action
  deletes_timer : ℕ → Action  -- `delete` of the request timer at an address
  calls : Callback → Action

-- A socket with its client or server (`delegate_.lock()`) and the groups of the process.
pub record World : Type 0 where
  pub sock : SocketImpl
  pub delegate : Option HandlerDelegate
  pub groups : Groups

-- Socket::DEFAULT_MAX_BUFFER_SIZE.
abbrev pub default_max_buffer_size : ℕ
default_max_buffer_size = 8 * 1024 * 1024
