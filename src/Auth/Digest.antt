-- ===== src/Auth/Digest.antt =====
-- `CalcA1` and `CalcDigest` of src/auth_context_impl.cpp (RFC 2617).
use mathlib.Core.Option.{get_or}
use linear_cpp.Prelude.{[], ◌++◌, Option, none, some, if◌then◌else◌, Bytes, codes, is_empty}

module _ (md5sum : Bytes → Option Bytes) where
  unfoldable pub calc_a1 : Bytes → Bytes → Bytes → Bytes
  calc_a1 username realm password =
      get_or (md5sum (username ++ codes ":" ++ realm ++ codes ":" ++ password)) []

  -- A part behind a colon, if it is not empty.
  abbrev part : Bytes → Bytes
  part s = if is_empty s then [] else codes ":" ++ s

  response : Bytes → Bytes → Bytes → Bytes → Bytes → Option Bytes → Bytes
  response a1 nonce nc cnonce qop none = []
  response a1 nonce nc cnonce qop (some a2) =
      get_or
        (md5sum (
          a1
          ++ (codes ":"
              ++ (nonce
                  ++ (part nc
                      ++ (part cnonce
                          ++ ((if is_empty qop then [] else codes ":auth")
                              ++ (codes ":" ++ a2))))))))
        []

  unfoldable pub calc_digest : Bytes → Bytes → Bytes → Bytes → Bytes → Bytes → Bytes
  unfolding response
  calc_digest a1 uri nonce nc cnonce qop =
      if is_empty a1 then [] else response a1 nonce nc cnonce qop (md5sum (codes "GET:" ++ uri))
