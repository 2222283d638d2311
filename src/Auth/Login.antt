-- ===== src/Auth/Login.antt =====
-- A digest login from end to end: what the client writes for a password, the server accepts for that
-- password (src/auth_context_impl.cpp).
use linear_cpp.Prelude.{
  ◌≡◌, refl, ◌∙◌, ap, inl, inr, Bool, [], Option, some, arith, Bytes, codes, is_empty,
  eq_bytes_refl, Bool-cases, if◌then◌else◌,
}
use linear_cpp.Auth.Parsing.{ArePlain}
use linear_cpp.Auth.Digest.{calc_a1, calc_digest}
use linear_cpp.Auth.Authorization
use linear_cpp.Auth.Authorization.{
  Authorization, invalid, valid, ambiguous, validate, validate_with_hash,
}
use linear_cpp.Auth.Authenticate.{Authenticate, hex8, create_authorization_header}
use linear_cpp.Auth.RoundTrip.{
  response_field, qop_fields, received, received-qop, received_plain, read-fields,
}
use linear_cpp.Auth.Answer.{
  IsHash, IsAnswerable, fields-IsClean, calc_digest-qop, calc_a1-some, calc_digest-plain,
  header-qop, header_plain,
}

-- The server's check of the fields that it received.
check-received :
    (md5sum : Bytes → Option Bytes) (v : Bool) (a : Authenticate)
    (uri username password qop cnonce : Bytes)
    → IsHash md5sum
    → IsAnswerable a uri username
    → let d =
        calc_digest md5sum
          (calc_a1 md5sum username a.realm password)
          uri
          a.nonce
          (hex8 a.nc)
          cnonce
          qop in
      validate md5sum password (received v a uri username qop cnonce d)
      ≡ (if v then valid else ambiguous)
unfolding validate validate_with_hash
check-received md5sum v a uri username password qop cnonce h answerable = rw (
  answerable.with_username,
  answerable.with_nonce,
  answerable.with_uri,
  (calc_digest-plain md5sum h (calc_a1 md5sum username a.realm password) uri a.nonce (hex8 a.nc)
      cnonce qop (calc_a1-some md5sum h username a.realm password)).1,
  eq_bytes_refl _,
)

-- What the server makes of the client's header.
pub read-header :
    (md5sum to_base64 from_base64 : Bytes → Option Bytes) (memory : Bool) (a : Authenticate)
    (uri username password cnonce : Bytes)
    → IsHash md5sum
    → IsAnswerable a uri username
    → ArePlain cnonce
    → let d = λ (c q : Bytes).
      calc_digest md5sum (calc_a1 md5sum username a.realm password) uri a.nonce (hex8 a.nc) c q in
      Authorization.read from_base64 memory
        (create_authorization_header md5sum to_base64 (some cnonce) a uri username password)
      ≡ (if is_empty a.qop
          then received memory a uri username [] [] (d [] [])
          else received memory a uri username (codes "auth") cnonce (d cnonce a.qop))
read-header md5sum to_base64 from_base64 memory a uri username password cnonce h answerable plain =
    elim (Bool-cases (is_empty a.qop)) [
      | inl e ↦
          rw (header_plain md5sum to_base64 a uri username password answerable (some cnonce) e, e)
            (read-fields from_base64 memory a uri username (response_field (digest_of [] [])) (
                fields-IsClean a uri username (response_field (digest_of [] [])) answerable
                  (((omega arith, refl, refl), refl, digest_plain [] []), tt))
              ∙ received_plain memory a uri username a.algorithm _ refl)
      | inr e ↦
          rw (header-qop md5sum to_base64 a uri username password answerable cnonce e, e)
            (read-fields from_base64 memory a uri username
                (qop_fields cnonce (digest_of cnonce a.qop))
                (fields-IsClean a uri username (qop_fields cnonce (digest_of cnonce a.qop))
                  answerable
                  (
                    ((omega arith, refl, refl), omega arith, omega arith, refl),
                    (
                      ((omega arith, refl, refl), refl, plain),
                      (((omega arith, refl, refl), refl, digest_plain cnonce a.qop), tt),
                    ),
                  ))
              ∙ received-qop memory a uri username a.algorithm cnonce _ refl)
    ]
  where
    digest_of : Bytes → Bytes → Bytes
    digest_of c q =
        calc_digest md5sum (calc_a1 md5sum username a.realm password) uri a.nonce (hex8 a.nc) c q

    digest_plain :
        (c q : Bytes)
        → ArePlain (
            calc_digest md5sum
              (calc_a1 md5sum username a.realm password)
              uri
              a.nonce
              (hex8 a.nc)
              c
              q)
    digest_plain c q =
        (calc_digest-plain md5sum h (calc_a1 md5sum username a.realm password) uri a.nonce
          (hex8 a.nc) c q (calc_a1-some md5sum h username a.realm password)).0

check-either :
    (md5sum : Bytes → Option Bytes) (memory v : Bool) (a : Authenticate)
    (uri username password cnonce : Bytes)
    → IsHash md5sum
    → IsAnswerable a uri username
    → let d = λ (c q : Bytes).
      calc_digest md5sum (calc_a1 md5sum username a.realm password) uri a.nonce (hex8 a.nc) c q in
      validate md5sum password
        (record (if is_empty a.qop
          then received memory a uri username [] [] (d [] [])
          else received memory a uri username (codes "auth") cnonce (d cnonce a.qop)) {
            valid_nonce = v;
          })
      ≡ (if v then valid else ambiguous)
check-either md5sum memory v a uri username password cnonce h answerable =
    elim (Bool-cases (is_empty a.qop)) [
      | inl e ↦ rw e (check-received md5sum v a uri username password [] [] h answerable)
      | inr e ↦
          rw
            (
              e,
              ← calc_digest-qop md5sum (calc_a1 md5sum username a.realm password) uri a.nonce
                  (hex8 a.nc) cnonce a.qop e,
            )
            (check-received md5sum v a uri username password (codes "auth") cnonce h answerable)
    ]

-- A digest login: for a challenge that asks for MD5 or names no algorithm, and for a user name,
-- realm, URI and nonce without commas, equals signs or quotes, of which only the realm may be empty,
-- and where `cnonce` is the random text that the client draws, the header that the client creates
-- from a password is judged valid by the server with the same password if the server says that the
-- nonce is its own, and ambiguous if not, with and without `qop`.
pub digest_login :
    (md5sum to_base64 from_base64 : Bytes → Option Bytes) (memory v : Bool) (a : Authenticate)
    (uri username password cnonce : Bytes)
    → IsHash md5sum
    → IsAnswerable a uri username
    → ArePlain cnonce
    → let header =
        create_authorization_header md5sum to_base64 (some cnonce) a uri username password in
      let received = Authorization.read from_base64 memory header in
      validate md5sum password (record received { valid_nonce = v })
      ≡ (if v then valid else ambiguous)
digest_login md5sum to_base64 from_base64 memory v a uri username password cnonce h answerable
      plain =
    ap (λ r. validate md5sum password (record r { valid_nonce = v }))
      (read-header md5sum to_base64 from_base64 memory a uri username password cnonce h answerable
        plain)
    ∙ check-either md5sum memory v a uri username password cnonce h answerable
