-- ===== src/Server/Refusal.antt =====
-- A WebSocket server answers to a connection without an Authorization header (`OnAccept` and
-- `CreateAuthenticationHeader` of src/ws_server_impl.cpp and src/wss_server_impl.cpp).
use Prim.Native.String.{String}
use linear_cpp.Prelude.{
  ℕ, ◌<◌, ◌≡◌, ◌⊎◌, inl, inr, refl, ap, ◌∙◌, Bool, true, false, ◌||◌, List, [], ◌∷◌, ◌++◌, Option,
  none, some, length, arith, if_no, if_lem, Bytes, codes, eq_bytes, eq_bytes_refl,
}
use linear_cpp.Prelude.Int.{ℤ}
use linear_cpp.Auth.Authorization
use linear_cpp.Auth.Header.{AuthType, digest, basic, eq_type}
use linear_cpp.NoncePool.{Nonce, is_valid}
use linear_cpp.Timer.{Answers}
use linear_cpp.Group.{Groups}
use linear_cpp.SocketImpl.{SocketImpl}
use linear_cpp.Server.{ServerImpl}
use linear_cpp.Server.Accept.{Accepted}
use linear_cpp.Server.Draw.{Drawn, exhausted, failed, drawn}
use linear_cpp.Server.Draw.Ends.{IsDistinct, IsTimely, IsFresh, draw_ends}
use linear_cpp.Server.WebSocket.{
  Handshake, Response, Outcome, digest_challenge, insert, with_nonce, create_authentication_header,
  check_authorization, on_accept,
}
use linear_cpp.Server.Arrival.{IsTaken, accepted_socket, entered}
use linear_cpp.Server.Judging.{on_accept-checks}

-- The response is 401 with a challenge whose nonce the pool holds and did not hold before.
abbrev pub Challenges : Outcome → Outcome → Type 0
Challenges o o' =
    (n : Bytes) × (o'.response ≡ record {
      code = 401;
      headers =
          o.response.headers ++ (codes "WWW-Authenticate", digest_challenge o.srv.realm n) ∷ [];
    })
    × (is_valid n o.srv.nonce_pool ≡ false)
    × (is_valid n o'.srv.nonce_pool ≡ true)

-- The socket stays as it is and out of the groups, and the handler is not told.
abbrev pub LeavesOut : Outcome → Outcome → Type 0
LeavesOut o o' = (o'.sock ≡ o.sock) × (o'.groups ≡ o.groups) × (o'.actions ≡ o.actions)

abbrev pub Refuses : Outcome → Outcome → Type 0
Refuses o o' =
    (Challenges o o' ⊎ (o'.response.code ≡ 500)) × LeavesOut o o' × (o'.endless ≡ o.endless)

type-basic : (t : AuthType) → t ≡ digest → eq_type t basic ≡ false
type-basic t p = rw p refl

-- The handshake brings no Authorization header, or one for another kind of authentication.
abbrev pub IsUnauthorized : (Bytes → Option Bytes) → Bool → Option Bytes → Type 0
IsUnauthorized from_base64 memory none = Unit
IsUnauthorized from_base64 memory (some v) =
    eq_type digest (Authorization.read from_base64 memory v).kind ≡ false

module _ (stores : Bytes → Bytes → Bool) (tv : String → ℤ) (random : ℕ → Option Bytes)
    (answers : ℕ → Answers) (next_id : ℕ) where
  with_nonce-Refuses :
      (d : Drawn) (o : Outcome)
      → IsFresh o.srv.nonce_pool d
      → Refuses o (with_nonce stores tv random answers next_id d o)
  unfolding with_nonce insert
  with_nonce-Refuses exhausted o fresh = absurd fresh
  with_nonce-Refuses (failed pool next effects) o fresh = (inr refl, (refl, refl, refl), refl)
  with_nonce-Refuses (drawn n pool next effects) o fresh = (
    if_lem
        (λ r.
          Challenges o (record o { srv = record (o.srv) { nonce_pool = pool }; response = r })
          ⊎ (r.code ≡ 500))
        (stores (codes "WWW-Authenticate") (digest_challenge o.srv.realm n))
        (record {
          code = 401;
          headers =
              o.response.headers ++ (codes "WWW-Authenticate", digest_challenge o.srv.realm n) ∷ [];
        })
        (record (o.response) { code = 500 }) (λ e. inl (n, refl, fresh.0, held n pool fresh.1))
        (λ e. inr refl),
    (refl, refl, refl),
    refl,
  )
    where
      held :
          (n : Bytes) (pool : List Nonce)
          → ((m : Bytes) → is_valid m pool ≡ (eq_bytes m n || is_valid m o.srv.nonce_pool))
          → is_valid n pool ≡ true
      held n pool h = ground (arith, h n, eq_bytes_refl n)

  create-Refuses :
      (fuel : ℕ) (o : Outcome)
      → IsDistinct random
      → ((i : ℕ) → IsTimely tv (answers i))
      → length o.srv.nonce_pool < fuel
      → o.srv.auth_type ≡ digest
      → Refuses o (create_authentication_header stores tv random answers next_id fuel o)
  unfolding create_authentication_header
  create-Refuses fuel o distinct timely enough p =
      if_no (Refuses o) _ _ _ (type-basic o.srv.auth_type p) (
        with_nonce-Refuses _ o
          (draw_ends tv random answers fuel next_id o.srv.nonce_pool distinct timely enough))

  check_authorization-Refuses :
      (from_base64 : Bytes → Option Bytes) (finds : Bytes → List (Bytes × Bytes) → Option Bytes)
      (during : SocketImpl → SocketImpl) (fuel : ℕ) (memory : Bool) (v : Option Bytes)
      (h : Handshake) (s : SocketImpl) (o : Outcome)
      → o.srv.auth_type ≡ digest
      → IsUnauthorized from_base64 memory v
      → Refuses o (create_authentication_header stores tv random answers next_id fuel o)
      → Refuses o (
          check_authorization stores tv random answers next_id from_base64 finds during fuel memory
            v h s o)
  unfolding check_authorization
  check_authorization-Refuses from_base64 finds during fuel memory none h s o p no_header refuses =
      refuses
  check_authorization-Refuses from_base64 finds during fuel memory (some v) h s o p mismatch
        refuses =
      if_no (Refuses o) _ _ _
        (ap (λ t. eq_type t (Authorization.read from_base64 memory v).kind) p ∙ mismatch) refuses

  -- A connection to a server for digest authentication without an Authorization header for it, which
  -- libtv took and for which there is room, is answered with 401 and a challenge with a nonce that
  -- the pool did not hold and holds now, or with 500; its socket is in no group that it was not in,
  -- and the handler is not told. The loop for the nonce ends: with fuel for one draw more than the
  -- pool has entries, if no text is drawn twice and libtv does not say of a fresh timer that it runs.
  pub accept_refusal :
      (from_base64 : Bytes → Option Bytes) (finds : Bytes → List (Bytes × Bytes) → Option Bytes)
      (during : SocketImpl → SocketImpl) (fuel : ℕ) (a : Accepted) (memory : Bool) (h : Handshake)
      (r : Response) (srv : ServerImpl) (groups : Groups)
      → IsDistinct random
      → ((i : ℕ) → IsTimely tv (answers i))
      → length srv.nonce_pool < fuel
      → IsTaken a h srv
      → srv.auth_type ≡ digest
      → IsUnauthorized from_base64 memory h.authorization
      → Refuses (entered tv a r srv groups) (
          on_accept stores tv random answers next_id from_base64 finds during fuel a memory h r srv
            groups)
  accept_refusal from_base64 finds during fuel a memory h r srv groups distinct timely enough taken
        p unauthorized =
      let o = entered tv a r srv groups in
      on_accept-checks stores tv random answers next_id from_base64 finds during fuel (Refuses o) a
        memory h r srv groups taken p
        (check_authorization-Refuses from_base64 finds during fuel memory h.authorization h
          (accepted_socket a srv) o p unauthorized (create-Refuses fuel o distinct timely enough p))
