-- ===== src/SocketImpl/Retry.antt =====
-- A WebSocket client answers a challenge at most once in a row (src/ws_socket_impl.cpp), and a
-- Connect() of a subclass leaves to the base class what is its own.
use Prim.Native.String.{String}
use linear_cpp.Prelude.{
  ℕ, ◌≡◌, ◌≤◌, refl, true, false, List, [], Option, none, some, arith, if_lem, Bytes,
}
use linear_cpp.Prelude.Int.{ℤ, nonzero}
use linear_cpp.Error.{Error}
use linear_cpp.SocketImpl.{SocketImpl, Action}
use linear_cpp.SocketImpl.Events.{check_retry_auth}
use linear_cpp.SocketImpl.ConnectTimer.{Keeps}
use linear_cpp.SocketImpl.Open.{
  StreamAnswers, bind_fails, start_connect, tcp_connect, prepare, connect_prepared, ws_connect,
  read_challenge, read_handshake,
}

abbrev pub KeepsEnd : SocketImpl → SocketImpl × Error × List Action → Type 0
KeepsEnd s r = Keeps s r.0 × (r.0.authenticate_context.nc ≡ s.authenticate_context.nc)

module _ (tv : String → ℤ) (a : StreamAnswers) where
  pub start_connect-Keeps :
      (s s' : SocketImpl)
      → Keeps s s' × (s'.authenticate_context.nc ≡ s.authenticate_context.nc)
      → KeepsEnd s (start_connect tv a s')
  unfolding start_connect
  start_connect-Keeps s s' k = if_lem (KeepsEnd s) (nonzero a.connect_status) _ _ (λ e. k) (λ e. k)

  pub tcp_connect-Keeps : (s : SocketImpl) → Keeps s (tcp_connect tv a s).0
  unfolding tcp_connect
  tcp_connect-Keeps s =
      (if_lem (KeepsEnd s) a.allocated _ _
        (λ e.
          if_lem (KeepsEnd s) (nonzero a.init_status) _ _ (λ f. ((refl, refl), refl))
            (λ f.
              if_lem (KeepsEnd s) (bind_fails a s) _ _ (λ g. ((refl, refl), refl))
                (λ g. start_connect-Keeps s (record s { has_stream = true }) ((refl, refl), refl))))
        (λ e. ((refl, refl), refl))).0

  module _ (md5sum to_base64 : Bytes → Option Bytes) (random : Option Bytes) where
    prepare-Keeps :
        (s : SocketImpl)
        → Keeps s (prepare md5sum to_base64 random s)
          × ((prepare md5sum to_base64 random s).authenticate_context.nc
              ≡ s.authenticate_context.nc)
    unfolding prepare
    prepare-Keeps s = ((refl, refl), refl)

    pub ws_connect-Keeps : (s : SocketImpl) → KeepsEnd s (ws_connect md5sum to_base64 random tv a s)
    unfolding ws_connect connect_prepared
    ws_connect-Keeps s =
        let p = prepare md5sum to_base64 random s in
        if_lem (KeepsEnd s) a.allocated _ _
          (λ e.
            if_lem (KeepsEnd s) (nonzero a.init_status) _ _ (λ f. ((refl, refl), refl))
              (λ f.
                if_lem (KeepsEnd s) a.url_stored _ _
                  (λ g.
                    if_lem (KeepsEnd s) a.headers_stored _ _
                      (λ i.
                        if_lem (KeepsEnd s) (bind_fails a p) _ _ (λ j. prepare-Keeps s)
                          (λ j.
                            start_connect-Keeps s
                              (record p {
                                has_stream = true;
                                response_context = record (p.response_context) { headers = [] };
                              })
                              (prepare-Keeps s)))
                      (λ i. prepare-Keeps s))
                  (λ g. ((refl, refl), refl))))
          (λ e. ((refl, refl), refl))

challenged_lem :
    (code : ℕ) (headers : List (Bytes × Bytes)) (v : Bytes) (s : SocketImpl)
    → s.authenticate_context.nc ≤ 65532
    → (1 ≤ (read_handshake code headers (some v) s).authenticate_context.nc)
      × ((read_handshake code headers (some v) s).authenticate_context.nc ≤ 65533)
unfolding read_handshake read_challenge
challenged_lem code headers v s h = ground arith

refused_lem :
    (code : ℕ) (headers : List (Bytes × Bytes)) (challenge : Option Bytes) (s : SocketImpl)
    → 1 ≤ s.authenticate_context.nc
    → s.authenticate_context.nc ≤ 65533
    → check_retry_auth (read_handshake code headers challenge s) ≡ false
unfolding read_handshake read_challenge check_retry_auth
refused_lem code headers none s h k = ground arith
refused_lem code headers (some v) s h k = ground arith

-- After a challenge, and the Connect() that answers it, no answer of the server to that makes the
-- client try once more, if its count of challenges was at most 65532 before.
pub retry_once :
    (md5sum to_base64 : Bytes → Option Bytes) (random : Option Bytes) (tv : String → ℤ)
    (a : StreamAnswers) (code : ℕ) (headers : List (Bytes × Bytes)) (v : Bytes) (code' : ℕ)
    (headers' : List (Bytes × Bytes)) (challenge : Option Bytes) (s : SocketImpl)
    → s.authenticate_context.nc ≤ 65532
    → check_retry_auth (
        read_handshake code' headers' challenge
          (ws_connect md5sum to_base64 random tv a (read_handshake code headers (some v) s)).0)
      ≡ false
retry_once md5sum to_base64 random tv a code headers v code' headers' challenge s h =
    let s₁ = read_handshake code headers (some v) s in
    let s₂ = (ws_connect md5sum to_base64 random tv a s₁).0 in
    let same = (ws_connect-Keeps tv a md5sum to_base64 random s₁).1 in
    let bounds = challenged_lem code headers v s h in
    refused_lem code' headers' challenge s₂ (omega (arith, same, bounds.0))
      (omega (arith, same, bounds.1))
