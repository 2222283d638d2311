-- ===== src/Auth/Authorization.antt =====
-- The Authorization header, as a server reads and checks it: `AuthorizationContextImpl` of
-- src/auth_context_impl.cpp.
use mathlib.Core.Option.{get_or}
use linear_cpp.Prelude.{
  Bool, ◌||◌, List, [], ◌∷◌, Option, none, some, if◌then◌else◌, Bytes, codes, eq_bytes, is_empty,
}
use linear_cpp.Ordered
use linear_cpp.Ordered.{bytes_order}
use linear_cpp.Auth.Fields.{split, parse}
use linear_cpp.Auth.Digest.{calc_a1, calc_digest}
use linear_cpp.Auth.Header.{AuthType, unused, basic, digest, unknown, scheme}

pub record Authorization : Type 0 where
  pub kind : AuthType
  pub username : Bytes
  pub nonce : Bytes
  pub valid_nonce : Bool
  pub realm : Bytes
  pub uri : Bytes
  pub qop : Bytes
  pub nc : Bytes
  pub cnonce : Bytes
  pub response : Bytes

-- `AuthorizationContext::Result`.
pub data Result : Type 0 where
  invalid valid ambiguous : Result

-- The fields before the body of the constructor. It leaves `valid_nonce` as the memory was.
abbrev pub blank : Bool → AuthType → Authorization
blank memory kind = record {
  kind = kind;
  username = [];
  nonce = [];
  valid_nonce = memory;
  realm = [];
  uri = [];
  qop = [];
  nc = [];
  cnonce = [];
  response = [];
}

-- `kv[key]`.
abbrev pub value : Bytes → List (Bytes × Bytes) → Bytes
value key kv = get_or (Ordered.Map.find key kv) []

read_basic : Bool → List Bytes → Authorization
read_basic memory (u ∷ p ∷ []) = record (blank memory basic) { username = u; response = p }
read_basic memory _ = blank memory basic

decode_basic : Bool → Option Bytes → Authorization
decode_basic memory none = blank memory basic
decode_basic memory (some s) = read_basic memory (split s b':')

unfoldable pub read_digest : Bool → List (Bytes × Bytes) → Authorization
read_digest memory kv = record {
  kind = digest;
  username = value (codes "username") kv;
  nonce = value (codes "nonce") kv;
  valid_nonce = memory;
  realm = value (codes "realm") kv;
  uri = value (codes "uri") kv;
  qop = value (codes "qop") kv;
  nc = value (codes "nc") kv;
  cnonce = value (codes "cnonce") kv;
  response = value (codes "response") kv;
}

unfoldable pub read_scheme :
    (Bytes → Option Bytes) → Bool → Option (AuthType × Bytes × Bytes) → Authorization
unfolding read_basic decode_basic
read_scheme from_base64 memory none = blank memory unused
read_scheme from_base64 memory (some (unused, fields, rest)) = blank memory unused
read_scheme from_base64 memory (some (basic, fields, rest)) = decode_basic memory (from_base64 rest)
read_scheme from_base64 memory (some (digest, fields, rest)) = read_digest memory (parse fields)
read_scheme from_base64 memory (some (unknown, fields, rest)) = blank memory unknown

-- The constructor from the header's value.
unfoldable pub read : (Bytes → Option Bytes) → Bool → Bytes → Authorization
unfolding read_basic decode_basic read_digest read_scheme
read from_base64 memory v = read_scheme from_base64 memory (scheme v)

module _ (md5sum : Bytes → Option Bytes) where
  unfoldable pub validate_with_hash : Bytes → Authorization → Result
  validate_with_hash hash a =
      if is_empty a.nonce || (is_empty a.uri || is_empty a.response)
      then invalid
      else if eq_bytes a.response (calc_digest md5sum hash a.uri a.nonce a.nc a.cnonce a.qop)
      then if a.valid_nonce then valid else ambiguous
      else invalid

  validate_kind : AuthType → Bytes → Authorization → Result
  validate_kind basic password a = if eq_bytes password a.response then valid else invalid
  validate_kind digest password a =
      if is_empty a.username
      then invalid
      else validate_with_hash (calc_a1 md5sum a.username a.realm password) a
  validate_kind unknown password a = invalid
  validate_kind unused password a = valid

  unfoldable pub validate : Bytes → Authorization → Result
  unfolding validate_kind
  validate password a = validate_kind a.kind password a
