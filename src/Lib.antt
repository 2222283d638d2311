-- ===== src/Lib.antt =====
-- linear-cpp: MessagePack-RPC over TCP, SSL and WebSocket (include/linear and src), on the event loop
-- of libtv. A client or a server (HandlerDelegate) holds sockets in a pool; a socket (SocketImpl)
-- connects, queues and sends messages, matches responses with the requests that wait for them, and
-- reports what happens to the application's handler; a WebSocket server authenticates its clients.
--
-- The files and what they model, a component's proofs in the children of its file:
--   Prelude, Ordered      shared helpers; std::map and std::set as lists in order
--   ErrorMap, Error       include/linear/error.h, src/error.cpp
--   Group                 src/group.cpp: the groups of the process
--   SocketPool            src/socket_pool.h: the sockets of a client or a server
--   Timer                 src/timer_impl.cpp, src/timer.cpp
--   NoncePool             src/nonce_pool.h: the nonces that a server gave out
--   Auth                  src/auth_context_impl.cpp: Fields (Split, Parse), Digest (CalcA1,
--                         CalcDigest), Header, Authorization (what a server reads and validates),
--                         Authenticate (what a client answers)
--   Message               include/linear/message.h, src/message.cpp
--   HandlerDelegate       src/handler_delegate.cpp, src/server_impl.h
--   Addrinfo              src/addrinfo.cpp
--   SocketImpl            src/socket_impl.cpp and src/event_loop_impl.cpp: Create (constructors and
--                         options), Connect (Connect, Disconnect), Send (Send, _Send,
--                         _SendPendingMessages, _DiscardMessages), Events (OnConnect,
--                         OnHandshakeComplete, OnDisconnect), Receive (OnRead, OnWrite,
--                         OnRequestTimeout), Open (Connect and OnConnect of src/tcp_socket_impl.cpp
--                         and src/ws_socket_impl.cpp), Secure (src/ssl_socket_impl.cpp and
--                         src/wss_socket_impl.cpp), Run (calls and reports in any order, each opening
--                         of a stream with answers of its own); Starting, Reconnect,
--                         Disconnection, Pending and the other children hold proofs
--   Socket                src/socket.cpp: the handle of an application; Typed (src/tcp_socket.cpp,
--                         src/ws_socket.cpp, src/ssl_socket.cpp, src/wss_socket.cpp)
--   Client                src/ws_client.cpp, src/wss_client.cpp, src/tcp_client.cpp,
--                         src/ssl_client.cpp and the headers of their implementations
--   Server                src/server.cpp, src/server_impl.h and Start and Stop of the four servers;
--                         Accept (OnAccept of src/tcp_server_impl.cpp and src/ssl_server_impl.cpp),
--                         WebSocket (OnAccept and CreateAuthenticationHeader of
--                         src/ws_server_impl.cpp and src/wss_server_impl.cpp), Draw (the loop for a
--                         nonce); Handshake, Login, Refusal, Opening, Headers, Dying, Lifecycle and
--                         Run hold proofs
--   Any                   include/linear/any.h, binary.h and nil.h
--   Optional              include/linear/optional.h
--   Log                   src/log.cpp, src/log_file.cpp, src/log_stderr.cpp, src/log_function.cpp
--   Examples              the theorems at concrete inputs
--
-- State is a record and an operation a function on it; what it does outside the object is a list of
-- actions or effects, in order. An operation under one lock is one step. The code lets go of the lock
-- in OnConnect (around the handler, and before the pending messages are sent), in OnRead (after it
-- looked at the state) and in OnDisconnect (when it has set the state, up to the retry or to where it
-- gives up the messages). What other threads do there is an argument of these operations, and Run fills
-- it with any calls. Where a theorem is about an OnDisconnect with nothing done meanwhile, the
-- argument is `alone`. What is done in the callbacks behind those places (the reports of the messages
-- that are given up, and the messages of a read) is not modelled. Errors are values.
-- A virtual call is a parameter (`open_stream` for Connect() of a subclass).
--
-- Names and texts are lists of bytes; numbers that wrap in the code wrap in the model (message ids at
-- 2 ^ 32). Loops are structural recursions over the vectors that they scan, but for the one that draws
-- a nonce until the pool takes it (Server/Draw), which has fuel: one draw more than the pool has
-- entries is enough if no random text comes twice. The digits of a number have fuel 20, enough for 64
-- bits.
--
-- A server's lock covers each of its methods, so each is a step. The SSL server does what the TCP
-- server does, and the secure WebSocket server what the plain one does, so each pair has one model. The
-- value of a disengaged optional and the zones of an any are kept, since the code reads them.
--
-- Parameters: libtv (its status codes `tv`, and its answers to each call), malloc and new, MD5, Base64
-- and random bytes, the resolver, and the texts of OpenSSL. MessagePack is one: a read gives the
-- objects that it unpacks, and the conversions of types are arguments.
--
-- Not modelled: the handles of the servers, which only allocate them; the certificate
-- chain; as() and the equality of any, which are MessagePack's; the wrappers of OpenSSL and of the
-- system's threads; LINEAR_DEBUG's file and line; what is compiled on Windows alone.
pub mod Prelude
pub mod Ordered
pub mod ErrorMap
pub mod Error
pub mod Group
pub mod SocketPool
pub mod Timer
pub mod NoncePool
pub mod Auth
pub mod Message
pub mod HandlerDelegate
pub mod Addrinfo
pub mod SocketImpl
pub mod Server
pub mod Any
pub mod Optional
pub mod Log
pub mod Socket
pub mod Client
pub mod Examples
