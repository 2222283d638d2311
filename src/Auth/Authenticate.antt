-- ===== src/Auth/Authenticate.antt =====
-- The WWW-Authenticate header, as a client reads it, and the Authorization header that it answers
-- with: `AuthenticateContextImpl` of src/auth_context_impl.cpp.
use linear_cpp.Prelude.{
  ℕ, ◌+◌, ◌-◌, ◌/◌, ◌%◌, ◌^◌, ◌&&◌, ◌||◌, not, List, [], ◌∷◌, ◌++◌, Option, none, some, ltb,
  if◌then◌else◌, Bytes, codes, eq_bytes, is_empty,
}
use linear_cpp.Auth.Fields.{parse}
use linear_cpp.Auth.Digest.{calc_a1, calc_digest}
use linear_cpp.Auth.Header.{AuthType, unused, basic, digest, scheme}
use linear_cpp.Auth.Authorization.{value}

pub record Authenticate : Type 0 where
  pub kind : AuthType
  pub nc : ℕ
  pub realm : Bytes
  pub nonce : Bytes
  pub algorithm : Bytes
  pub qop : Bytes

abbrev pub blank : AuthType → Authenticate
blank kind = record { kind = kind; nc = 0; realm = []; nonce = []; algorithm = []; qop = [] }

unfoldable pub read_kind : AuthType → List (Bytes × Bytes) → Authenticate
read_kind digest kv = record {
  kind = digest;
  nc = 0;
  realm = value (codes "realm") kv;
  nonce = value (codes "nonce") kv;
  algorithm = value (codes "algorithm") kv;
  qop = value (codes "qop") kv;
}
read_kind kind kv = record (blank kind) { realm = value (codes "realm") kv }

unfoldable pub read_scheme : Option (AuthType × Bytes × Bytes) → Authenticate
read_scheme none = blank unused
read_scheme (some (kind, fields, rest)) = read_kind kind (parse fields)

-- The constructor from the header's value.
unfoldable pub read : Bytes → Authenticate
unfolding read_kind read_scheme
read v = read_scheme (scheme v)

abbrev pub hex_digit : ℕ → ℕ
hex_digit n = if ltb n 10 then b'0' + n else b'a' + (n - 10)

-- `std::hex` of an `int`, right-adjusted in 8 places filled with 0: eight digits for 32 bits.
unfoldable pub hex8 : ℕ → Bytes
hex8 n =
    hex_digit (n / 2 ^ 28 % 16)
    ∷ hex_digit (n / 2 ^ 24 % 16)
    ∷ hex_digit (n / 2 ^ 20 % 16)
    ∷ hex_digit (n / 2 ^ 16 % 16)
    ∷ hex_digit (n / 2 ^ 12 % 16)
    ∷ hex_digit (n / 2 ^ 8 % 16)
    ∷ hex_digit (n / 2 ^ 4 % 16)
    ∷ hex_digit (n % 16)
    ∷ []

-- `key="value", `.
abbrev pub quoted : Bytes → Bytes → Bytes
quoted key s = key ++ codes "=\"" ++ s ++ codes "\", "

-- The fields before `qop`.
abbrev pub leading : Authenticate → Bytes → Bytes → Bytes
leading a uri username =
    codes "Digest "
    ++ (quoted (codes "username") username
        ++ (quoted (codes "realm") a.realm
            ++ (quoted (codes "uri") uri
                ++ (quoted (codes "nonce") a.nonce
                    ++ ((if is_empty a.algorithm
                          then []
                          else codes "algorithm=" ++ (a.algorithm ++ codes ", "))
                        ++ (codes "nc=" ++ (hex8 a.nc ++ codes ", ")))))))

module _ (md5sum to_base64 : Bytes → Option Bytes) (random : Option Bytes) where
  -- The part from `qop` on. `random` is 24 random bytes in Base64.
  finish : Authenticate → Bytes → Bytes → Bytes → Bytes → Option Bytes → Bytes
  finish a uri username password authorization none = []
  finish a uri username password authorization (some cnonce) =
      authorization
      ++ (codes "qop=auth, "
          ++ (quoted (codes "cnonce") cnonce
              ++ (codes "response=\""
                  ++ (calc_digest md5sum (calc_a1 md5sum username a.realm password) uri a.nonce
                        (hex8 a.nc) cnonce a.qop
                      ++ codes "\""))))

  finish_plain : Authenticate → Bytes → Bytes → Bytes → Bytes → Bytes
  finish_plain a uri username password authorization =
      authorization
      ++ (codes "response=\""
          ++ (calc_digest md5sum (calc_a1 md5sum username a.realm password) uri a.nonce (hex8 a.nc)
                [] []
              ++ codes "\""))

  create_digest : Authenticate → Bytes → Bytes → Bytes → Bytes
  unfolding finish finish_plain
  create_digest a uri username password =
      if is_empty a.nonce
        || (is_empty uri
            || (not (is_empty a.algorithm)
                && (not (eq_bytes a.algorithm (codes "MD5"))
                    && not (eq_bytes a.algorithm (codes "md5")))))
      then []
      else if is_empty a.qop
      then finish_plain a uri username password (leading a uri username)
      else finish a uri username password (leading a uri username) random

  unfoldable pub create_basic : Option Bytes → Bytes
  create_basic none = []
  create_basic (some s) = codes "Basic " ++ s

  unfoldable pub create_kind : AuthType → Authenticate → Bytes → Bytes → Bytes → Bytes
  unfolding create_digest create_basic
  create_kind basic a uri username password =
      create_basic (to_base64 (username ++ (codes ":" ++ password)))
  create_kind digest a uri username password = create_digest a uri username password
  create_kind _ a uri username password = []

  -- `CreateAuthorizationHeader`; an empty text is no header.
  unfoldable pub create_authorization_header : Authenticate → Bytes → Bytes → Bytes → Bytes
  unfolding create_kind
  create_authorization_header a uri username password =
      if is_empty username then [] else create_kind a.kind a uri username password
