-- ===== src/Client.antt =====
-- The clients of the four protocols: src/tcp_client.cpp, src/ssl_client.cpp, src/ws_client.cpp and
-- src/wss_client.cpp with their implementations in src/ws_client_impl.h and the other headers. What
-- an SSL context is stays open.
pub mod Sockets
pub mod Runs
use mathlib.Core.Option.{get_or}
use linear_cpp.Prelude.{ℕ, Bool, List, Option, none, some, Bytes}
use linear_cpp.Prelude.Int.{ℤ, pos}
use linear_cpp.Addrinfo
use linear_cpp.SocketPool
use linear_cpp.HandlerDelegate.{HandlerDelegate, client}
use linear_cpp.SocketImpl.{Kind, WsRequestContext, SocketImpl, Action}
use linear_cpp.SocketImpl.Create.{new_client}

-- A `ClientImpl`. The last two fields are those of the subclasses that have such contexts.
pub record ClientImpl (X : Type 0) : Type 0 where
  pub delegate : HandlerDelegate
  pub kind : Kind
  pub request_context : WsRequestContext
  pub ssl_context : X

-- A socket as a client makes it: with the SSL context that its Connect uses, and what its
-- constructor did.
pub record Made (X : Type 0) : Type 0 where
  pub sock : SocketImpl
  pub ssl_context : X
  pub actions : List Action

module _ {X : Type 0} where
  -- The constructors.
  unfoldable pub new : Bool → Kind → WsRequestContext → X → ClientImpl X
  new handler_alive kind request_context ssl_context = record {
    delegate = record { owner = client; handler_alive = handler_alive; pool = SocketPool.new };
    kind = kind;
    request_context = request_context;
    ssl_context = ssl_context;
  }

  -- `SetWSRequestContext` and `SetSSLContext` on a client that may have no implementation.
  unfoldable pub set_ws_request_context :
      WsRequestContext → Option (ClientImpl X) → Option (ClientImpl X)
  set_ws_request_context context none = none
  set_ws_request_context context (some c) = some (record c { request_context = context })

  unfoldable pub set_ssl_context : X → Option (ClientImpl X) → Option (ClientImpl X)
  set_ssl_context context none = none
  set_ssl_context context (some c) = some (record c { ssl_context = context })

  -- `CreateSocket` of an implementation, with the contexts that the call brings, what getaddrinfo
  -- returns for the two families, and the id that `Id()` gives.
  unfoldable pub create :
      Option WsRequestContext → Option X → ℤ → ℤ → Bytes → ℤ → ℕ → ClientImpl X → Made X
  create request ssl resolved_4 resolved_6 hostname port id c =
      let (s, actions) =
        new_client c.kind (pos id) (get_or request c.request_context)
          (Addrinfo.resolve resolved_4 resolved_6 hostname port) in
      record { sock = s; ssl_context = get_or ssl c.ssl_context; actions = actions }

  -- `CreateSocket`; `none` is an `invalid_argument`.
  unfoldable pub create_socket :
      Option WsRequestContext
      → Option X
      → ℤ
      → ℤ
      → Bytes
      → ℤ
      → ℕ
      → Option (ClientImpl X)
      → Option (Made X)
  unfolding create
  create_socket request ssl resolved_4 resolved_6 hostname port id none = none
  create_socket request ssl resolved_4 resolved_6 hostname port id (some c) =
      some (create request ssl resolved_4 resolved_6 hostname port id c)
