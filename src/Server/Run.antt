-- ===== src/Server/Run.antt =====
-- Runs of a server of any of the four protocols: calls of Start and Stop, incoming connections, and
-- sockets that close (src/tcp_server_impl.cpp, src/ssl_server_impl.cpp, src/ws_server_impl.cpp and
-- src/wss_server_impl.cpp).
use Prim.Native.String.{String}
use linear_cpp.Prelude.{
  ℕ, ◌+◌, ◌≤◌, ◌<◌, ◌≡◌, refl, ap, sym, Bool, true, List, [], ◌∷◌, ◌++◌, Option, arith, length,
  count, count-append, Bytes,
}
use linear_cpp.Prelude.Int.{ℤ}
use linear_cpp.Auth.Header.{AuthType}
use linear_cpp.Timer.{Answers}
use linear_cpp.Group.{Groups}
use linear_cpp.SocketPool
use linear_cpp.SocketPool.Capacity.{held, new-IsValid, max-set}
use linear_cpp.HandlerDelegate
use linear_cpp.SocketImpl.{SocketImpl, Kind}
use linear_cpp.Server
use linear_cpp.Server.{ServerImpl, HandleAction, StartAnswers, start_server, stop_server, release}
use linear_cpp.Server.Accept
use linear_cpp.Server.Accept.{Accepted, is_stopped}
use linear_cpp.Server.WebSocket
use linear_cpp.Server.WebSocket.{Handshake, Response}
use linear_cpp.Server.Lifecycle.{
  IsSound, IsBalanced, running, is_listens, is_closes, start-IsStarted, carried, stop_state-IsSound,
  release-IsSound,
}
use linear_cpp.Server.Admission.{accept-IsSound, handshake-IsSound}

-- What an incoming WebSocket connection meets besides the server.
pub record Surroundings : Type 0 where
  pub stores : Bytes → Bytes → Bool
  pub random : ℕ → Option Bytes
  pub answers : ℕ → Answers
  pub next_id : ℕ
  pub from_base64 : Bytes → Option Bytes
  pub finds : Bytes → List (Bytes × Bytes) → Option Bytes
  pub during : SocketImpl → SocketImpl
  pub fuel : ℕ
  pub memory : Bool

pub data Call : Type 0 where
  starts : StartAnswers → Bytes → ℤ → Call
  stops : Call
  accepts : Accepted → Call
  handshakes : Surroundings → Accepted → Handshake → Response → Call
  releases : ℤ → Call

module _ (tv : String → ℤ) where
  pub step : Call → ServerImpl → Groups → ServerImpl × Groups × List HandleAction
  step (starts a hostname port) srv groups =
      let (srv', e, actions) = start_server tv a hostname port srv in (srv', groups, actions)
  step stops srv groups =
      let (srv', groups', e, actions) = stop_server srv groups in (srv', groups', actions)
  step (accepts a) srv groups = let o = Accept.on_accept tv a srv groups in (o.srv, o.groups, [])
  step (handshakes x a h r) srv groups =
      let o =
        WebSocket.on_accept x.stores tv x.random x.answers x.next_id x.from_base64 x.finds x.during
          x.fuel a x.memory h r srv groups in
      (o.srv, o.groups, [])
  step (releases id) srv groups = let (srv', groups') = release id srv groups in (srv', groups', [])

  pub run : List Call → ServerImpl → Groups → ServerImpl × List HandleAction
  run [] srv groups = (srv, [])
  run (c ∷ cs) srv groups =
      let (srv', groups', actions) = step c srv groups in
      let (srv'', more) = run cs srv' groups' in (srv'', actions ++ more)

  module _ (max : ℕ) where
    step-IsSound :
        (c : Call) (srv : ServerImpl) (groups : Groups)
        → IsSound max srv
        → IsSound max (step c srv groups).0
          × IsBalanced srv (step c srv groups).0 (step c srv groups).2
    unfolding step start_server
    step-IsSound (starts a hostname port) srv groups k =
        let s = start-IsStarted tv a hostname port srv in
        (carried max srv _ s.same s.stopped k, s.balanced)
    step-IsSound stops srv groups k =
        unfold stop_server in stop_state-IsSound max srv.state srv groups refl k
    step-IsSound (accepts a) srv groups k =
        let (sound, same) = accept-IsSound max tv a srv groups k in
        (sound, ap (λ s. 0 + running s) (sym same))
    step-IsSound (handshakes x a h r) srv groups k =
        let (sound, same) =
          handshake-IsSound max x.stores tv x.random x.answers x.next_id x.from_base64 x.finds
            x.during x.fuel a x.memory h r srv groups k in
        (sound, ap (λ s. 0 + running s) (sym same))
    step-IsSound (releases id) srv groups k =
        (release-IsSound max id srv groups k, unfold release in refl)

    run-IsSound :
        (cs : List Call) (srv : ServerImpl) (groups : Groups)
        → IsSound max srv
        → IsSound max (run cs srv groups).0
          × IsBalanced srv (run cs srv groups).0 (run cs srv groups).1
    unfolding run
    run-IsSound [] srv groups k = (k, refl)
    run-IsSound (c ∷ cs) srv groups k =
        let (srv', groups', actions) = step c srv groups in
        let (sound, balanced) = step-IsSound c srv groups k in
        let (later, rest) = run-IsSound cs srv' groups' sound in
        let more = (run cs srv' groups').1 in
        (
          later,
          omega (
            arith,
            balanced,
            rest,
            count-append is_listens actions more,
            count-append is_closes actions more,
          ),
        )

-- A new server that was given a limit.
abbrev pub limited : ℕ → Bool → Kind → AuthType → Bytes → ServerImpl
limited max alive kind auth_type realm =
    let srv = Server.new alive kind auth_type realm in
    record srv { delegate = HandlerDelegate.set_max_limit max srv.delegate }

limited-IsSound :
    (max : ℕ) (alive : Bool) (kind : Kind) (auth_type : AuthType) (realm : Bytes)
    → IsSound max (limited max alive kind auth_type realm)
unfolding HandlerDelegate.set_max_limit Server.new
limited-IsSound max alive kind auth_type realm = record {
  pool_valid = new-IsValid max;
  limit = max-set max;
  idle = λ e. unfold SocketPool.set_max_limit SocketPool.new in refl;
}

-- After any calls of Start and Stop, connections that come in, and sockets that close, a new server
-- with a positive limit holds at most that many sockets and none twice, it holds none while it is
-- stopped, and it has closed every listening handle that it opened, but for the one that is open
-- while it runs.
pub run_server :
    (tv : String → ℤ) (max : ℕ) (alive : Bool) (kind : Kind) (auth_type : AuthType) (realm : Bytes)
    (cs : List Call) (groups : Groups)
    → 0 < max
    → let (srv, actions) = run tv cs (limited max alive kind auth_type realm) groups in
      (length srv.delegate.pool.pool ≤ max)
      × ((id : ℤ) → held id srv.delegate.pool ≤ 1)
      × (is_stopped srv.state ≡ true → srv.delegate.pool.pool ≡ [])
      × (count is_listens actions ≡ count is_closes actions + running srv.state)
unfolding Server.new
run_server tv max alive kind auth_type realm cs groups h =
    let (sound, balanced) =
      run-IsSound tv max cs (limited max alive kind auth_type realm) groups
        (limited-IsSound max alive kind auth_type realm) in
    (
      ground (arith, sound.pool_valid.within, sound.limit, h),
      sound.pool_valid.distinct,
      sound.idle,
      omega (arith, balanced),
    )
