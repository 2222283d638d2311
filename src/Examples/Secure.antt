-- ===== src/Examples/Secure.antt =====
-- The theorems about secure WebSockets (src/wss_socket_impl.cpp) at concrete inputs.
use linear_cpp.Prelude.{◌≡◌, refl, [], Option, none, some, Bytes, codes, ◌++◌}
use linear_cpp.Auth.Header.{basic, unused}
use linear_cpp.Auth.Authenticate.{blank}
use linear_cpp.Ordered.{bytes_order}
use linear_cpp.Ordered.Map.{modify}
use linear_cpp.SocketImpl.{SocketImpl, disconnected}
use linear_cpp.SocketImpl.Open.{ws_connect, prepare}
use linear_cpp.SocketImpl.Secure.{wss_connect, wss_prepare}
use linear_cpp.SocketImpl.Secure.Agreement.{connect-agrees, wss_basic}
use linear_cpp.Examples.Data.{tv, opened, socket}
use linear_cpp.Examples.Login.{toy_md5}

-- A constant in place of Base64.
abbrev to_base64 : Bytes → Option Bytes
to_base64 s = some (codes "YWxp")

connect-agrees_example :
    wss_connect toy_md5 to_base64 (some (codes "x1")) tv opened (socket disconnected [] [])
    ≡ ws_connect toy_md5 to_base64 (some (codes "x1")) tv opened (socket disconnected [] [])
connect-agrees_example =
    connect-agrees toy_md5 to_base64 (some (codes "x1")) tv opened (socket disconnected [] []) refl
      refl

-- A new socket with basic authentication.
abbrev fresh : SocketImpl
fresh =
    let s = socket disconnected [] [] in
    record s {
      request_context = record (s.request_context) { auth_type = basic };
      authenticate_context = blank unused;
    }

wss_basic_example :
    (wss_prepare toy_md5 to_base64 none fresh ≡ fresh)
    × ((prepare toy_md5 to_base64 none fresh).request_context.headers
        ≡ modify
            (codes "Authorization")
            []
            (λ old. codes "Basic " ++ codes "YWxp")
            fresh.request_context.headers)
wss_basic_example = wss_basic toy_md5 to_base64 none fresh (codes "YWxp") refl refl refl refl
