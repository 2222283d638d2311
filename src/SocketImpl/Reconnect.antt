-- ===== src/SocketImpl/Reconnect.antt =====
-- A WebSocket client that was refused with a challenge connects again (`OnConnect`, `OnDisconnect` and
-- `Connect` of src/socket_impl.cpp, with those of src/ws_socket_impl.cpp).
use Prim.Native.String.{String}
use linear_cpp.Prelude.{
  ℕ, ◌≡◌, refl, ap, ◌∙◌, subst, true, false, [], ◌∷◌, Option, some, if_yes, sym, Bytes,
}
use linear_cpp.Prelude.Int.{ℤ, nonzero, eq_ℤ}
use linear_cpp.ErrorMap.{lnr_ok, lnr_ews}
use linear_cpp.Error.{error, eq_error, ne_error}
use linear_cpp.Addrinfo
use linear_cpp.Addrinfo.{is_unknown}
use linear_cpp.Group.{Groups}
use linear_cpp.HandlerDelegate
use linear_cpp.HandlerDelegate.{HandlerDelegate}
use linear_cpp.SocketImpl.{disconnecting, disconnected, connecting, ws, SocketImpl, World}
use linear_cpp.SocketImpl.Send.{Answers}
use linear_cpp.SocketImpl.Connect.{ConnectAnswers, stop_connect_timer, retain, release_from}
use linear_cpp.SocketImpl.Events.{
  Connection, on_connect, connect_begin, connect_begin_state, open_connection, connection_error,
  on_disconnect, disconnect_by_state, check_retry_auth, is_web, alone,
}
use linear_cpp.SocketImpl.Open.{
  StreamAnswers, bind_fails, start_connect, connect_prepared, prepare, ws_connect, read_handshake,
}
use linear_cpp.SocketImpl.Run
use linear_cpp.SocketImpl.Run.{Reply, Event, acts, hears, step, run}
use linear_cpp.SocketImpl.Starting.{Starts, Opens, retry-Starts}

-- libtv says that the other side refused the handshake.
pub record IsRefusal (tv : String → ℤ) (c : Connection) : Type 0 where
  pub failed : nonzero c.status ≡ true
  pub no_ssl : eq_ℤ c.status (tv "ESSL") ≡ false
  pub no_x509 : eq_ℤ c.status (tv "EX509") ≡ false
  pub refused : eq_ℤ c.status (tv "EWS") ≡ true

-- Nothing fails when the stream is opened.
pub record IsOpening (a : StreamAnswers) (s : SocketImpl) : Type 0 where
  pub allocated : a.allocated ≡ true
  pub initialized : nonzero a.init_status ≡ false
  pub url_stored : a.url_stored ≡ true
  pub headers_stored : a.headers_stored ≡ true
  pub bound : bind_fails a s ≡ false
  pub connects : nonzero a.connect_status ≡ false

-- A client that connects, with a handler, can do so again once the connection is refused.
pub record IsReconnecting (tv : String → ℤ) (c : Connection) (a : ConnectAnswers)
    (opening : StreamAnswers) (d : HandlerDelegate) (groups : Groups) (s : SocketImpl)
    : Type 0 where
  pub begun : s.state ≡ connecting
  pub web : s.kind ≡ ws
  pub connectable : s.connectable ≡ true
  pub known : is_unknown s.peer.proto ≡ false
  pub refusal : IsRefusal tv c
  pub alive : a.socket_alive ≡ true
  pub kept :
      ne_error
        (HandlerDelegate.retain s.id (HandlerDelegate.release s.id d groups).0).1
        (error lnr_ok)
      ≡ false
  pub opened : IsOpening opening s

module _ (tv : String → ℤ) where
  refusal_lem :
      (c : Connection) (f g : SocketImpl → SocketImpl) (answers : ℕ → Answers)
      (d : Option HandlerDelegate) (s : SocketImpl)
      → s.state ≡ connecting
      → IsRefusal tv c
      → (on_connect tv c f g answers d s).0
        ≡ record ((stop_connect_timer s).0) { state = disconnecting; last_error = error lnr_ews }
  unfolding on_connect connect_begin connect_begin_state open_connection connection_error
      stop_connect_timer
  refusal_lem c f g answers d s e r = rw (e, r.failed, r.no_ssl, r.no_x509, r.refused) refl

  module _ (md5sum to_base64 : Bytes → Option Bytes) (random : Option Bytes) where
    ws_connect_opens :
        (a : StreamAnswers) (s : SocketImpl)
        → IsOpening a s
        → ((ws_connect md5sum to_base64 random tv a s).0.request_context
            ≡ (prepare md5sum to_base64 random s).request_context)
          × (eq_error (ws_connect md5sum to_base64 random tv a s).1 (error lnr_ok) ≡ true)
    unfolding ws_connect connect_prepared start_connect prepare
    ws_connect_opens a s o =
        rw (o.allocated, o.initialized, o.url_stored, o.headers_stored, o.bound, o.connects)
          (refl, refl)

    -- The run of the refusal: libtv reports it, and then that the stream is closed.
    abbrev pub refused :
        Reply → Connection → (ℕ → Answers) → ConnectAnswers → StreamAnswers → World → World
    refused r c answers a opening w =
        run tv (λ k. ws_connect md5sum to_base64 random tv opening)
          (Run.connected r c [] [] answers ∷ Run.disconnected [] [] true a 0 ∷ []) w

    heard : Reply → SocketImpl → SocketImpl
    heard r = read_handshake r.code r.headers r.challenge

    -- What the refusal leaves of the socket.
    left : SocketImpl → SocketImpl
    left s = record ((stop_connect_timer s).0) { state = disconnecting; last_error = error lnr_ews }

    on_disconnect-left :
        (a : ConnectAnswers) (opening : StreamAnswers) (d : HandlerDelegate) (groups : Groups)
        (s : SocketImpl)
        → s.kind ≡ ws
        → s.connectable ≡ true
        → is_unknown s.peer.proto ≡ false
        → a.socket_alive ≡ true
        → ne_error
            (HandlerDelegate.retain s.id (HandlerDelegate.release s.id d groups).0).1
            (error lnr_ok)
          ≡ false
        → IsOpening opening s
        → check_retry_auth s ≡ true
        → Starts
            (prepare md5sum to_base64 random s).request_context
            (on_disconnect tv
              (ws_connect md5sum to_base64 random tv opening)
              alone
              alone
              true
              a
              (record { sock = left s; delegate = some d; groups = groups })).0
    unfolding on_disconnect disconnect_by_state stop_connect_timer check_retry_auth release_from
        left prepare retain Opens
    on_disconnect-left a opening d groups s k c u v r o q =
        retry-Starts tv (ws_connect md5sum to_base64 random tv opening) a
          (prepare md5sum to_base64 random s).request_context
          (record {
            sock = record (left (left s)) { state = disconnected };
            delegate = some ((HandlerDelegate.release s.id d groups).0);
            groups = (HandlerDelegate.release s.id d groups).1;
          })
          c (rw k refl) refl q u refl (rw v r)
          (ws_connect_opens opening
            (record (left (left s)) { state = disconnected; self = Addrinfo.undefined })
            (record {
              allocated = o.allocated;
              initialized = o.initialized;
              url_stored = o.url_stored;
              headers_stored = o.headers_stored;
              bound = o.bound;
              connects = o.connects;
            }))

    on_connect-left :
        (r : Reply) (c : Connection) (f g : SocketImpl → SocketImpl) (answers : ℕ → Answers)
        (d : Option HandlerDelegate) (s : SocketImpl)
        → s.state ≡ connecting
        → s.kind ≡ ws
        → IsRefusal tv c
        → (on_connect tv c f g answers d (hears r s)).0 ≡ left (heard r s)
    unfolding hears heard read_handshake left
    on_connect-left r c f g answers d s e k i =
        ap (λ (x : SocketImpl). (on_connect tv c f g answers d x).0)
          (if_yes (λ (x : SocketImpl). x ≡ heard r s) (is_web s.kind) _ _ (rw k refl) refl)
        ∙ refusal_lem c f g answers d (heard r s) e i

    -- A client that its server refuses with a challenge connects again by itself, with the request
    -- that the challenge asks for.
    pub refused_lem :
        (r : Reply) (c : Connection) (answers : ℕ → Answers) (a : ConnectAnswers)
        (opening : StreamAnswers) (d : HandlerDelegate) (groups : Groups) (s : SocketImpl)
        → IsReconnecting tv c a opening d groups s
        → check_retry_auth (read_handshake r.code r.headers r.challenge s) ≡ true
        → Starts
            (prepare md5sum to_base64 random
              (read_handshake r.code r.headers r.challenge s)).request_context
            (refused r c answers a opening
              (record { sock = s; delegate = some d; groups = groups }))
    unfolding run step acts heard read_handshake
    refused_lem r c answers a opening d groups s ok q =
        let w : World = record { sock = s; delegate = some d; groups = groups } in
        let f = λ (k : ℕ). ws_connect md5sum to_base64 random tv opening in
        subst
          (λ (x : SocketImpl).
            Starts (prepare md5sum to_base64 random (heard r s)).request_context
              (on_disconnect tv (ws_connect md5sum to_base64 random tv opening) alone alone true a
                (record w { sock = x })).0)
          (sym (
            on_connect-left r c (Run.interleaved tv f [] w) (Run.interleaved tv f [] w) answers
              (some d) s ok.begun ok.web ok.refusal))
          (on_disconnect-left a opening d groups (heard r s) ok.web ok.connectable ok.known ok.alive
            ok.kept
            (record {
              allocated = ok.opened.allocated;
              initialized = ok.opened.initialized;
              url_stored = ok.opened.url_stored;
              headers_stored = ok.opened.headers_stored;
              bound = ok.opened.bound;
              connects = ok.opened.connects;
            })
            q)
