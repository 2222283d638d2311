-- ===== src/Auth/Answer.antt =====
-- What a client answers to a digest challenge, as fields (src/auth_context_impl.cpp).
use linear_cpp.Prelude.{
  ◌≡◌, refl, ◌⊎◌, inl, inr, Bool, false, true, not, ◌&&◌, ◌||◌, List, [], ◌∷◌, ◌++◌, map, Option,
  some, append_assoc, arith, All, Bytes, codes, is_empty, eq_bytes,
}
use linear_cpp.Auth.Splitting.{joined}
use linear_cpp.Auth.Parsing.{ArePlain, Field, in_quotes, bare, entry, IsClean}
use linear_cpp.Auth.Digest.{calc_a1, calc_digest}
use linear_cpp.Auth.Header.{digest}
use linear_cpp.Auth.Authenticate.{Authenticate, hex8, create_authorization_header}
use linear_cpp.Auth.RoundTrip.{
  algorithm_field, response_field, qop_fields, fields, leading-text, hex8-plain,
}

-- MD5 as libtv gives it: text of hexadecimal digits, never empty.
pub record IsHash (md5sum : Bytes → Option Bytes) : Type 0 where
  pub value : Bytes → Bytes
  pub total : (s : Bytes) → md5sum s ≡ some (value s)
  pub plain : (s : Bytes) → ArePlain (value s)
  pub some_text : (s : Bytes) → is_empty (value s) ≡ false

-- A challenge that the client answers, and texts that a header can carry.
pub record IsAnswerable (a : Authenticate) (uri username : Bytes) : Type 0 where
  pub kind_digest : a.kind ≡ digest
  pub with_nonce : is_empty a.nonce ≡ false
  pub with_uri : is_empty uri ≡ false
  pub with_username : is_empty username ≡ false
  pub md5 : (a.algorithm ≡ []) ⊎ (a.algorithm ≡ codes "MD5") ⊎ (a.algorithm ≡ codes "md5")
  pub plain_nonce : ArePlain a.nonce
  pub plain_uri : ArePlain uri
  pub plain_username : ArePlain username
  pub plain_realm : ArePlain a.realm

algorithm-IsClean :
    (s : Bytes)
    → (s ≡ []) ⊎ (s ≡ codes "MD5") ⊎ (s ≡ codes "md5")
    → (rest : List Field) → All IsClean rest
    → All IsClean (algorithm_field s ++ rest)
algorithm-IsClean s (inl e) rest clean = rw e clean
algorithm-IsClean s (inr (inl e)) rest clean =
    rw e (((omega arith, refl, refl), omega arith, omega arith, refl), clean)
algorithm-IsClean s (inr (inr e)) rest clean =
    rw e (((omega arith, refl, refl), omega arith, omega arith, refl), clean)

pub fields-IsClean :
    (a : Authenticate) (uri username : Bytes) (rest : List Field)
    → IsAnswerable a uri username
    → All IsClean rest
    → All IsClean (fields a uri username rest)
fields-IsClean a uri username rest h clean =
    let (plain, tight, filled) = hex8-plain a.nc in
    (
      ((omega arith, refl, refl), refl, h.plain_username),
      (
        ((omega arith, refl, refl), refl, h.plain_realm),
        (
          ((omega arith, refl, refl), refl, h.plain_uri),
          (
            ((omega arith, refl, refl), refl, h.plain_nonce),
            algorithm-IsClean a.algorithm h.md5 (bare (codes "nc") (hex8 a.nc) ∷ rest)
                (((omega arith, refl, refl), plain, tight, filled), clean),
          ),
        ),
      ),
    )

module _ (md5sum : Bytes → Option Bytes) (h : IsHash md5sum) where
  pub calc_a1-some :
      (username realm password : Bytes) → is_empty (calc_a1 md5sum username realm password) ≡ false
  unfolding calc_a1
  calc_a1-some username realm password = rw (h.total _) (h.some_text _)

  pub calc_digest-plain :
      (a1 uri nonce nc cnonce qop : Bytes)
      → is_empty a1 ≡ false
      → let d = calc_digest md5sum a1 uri nonce nc cnonce qop in ArePlain d × (is_empty d ≡ false)
  unfolding calc_digest
  calc_digest-plain a1 uri nonce nc cnonce qop e =
      rw (e, h.total (codes "GET:" ++ uri), h.total _) (h.plain _, h.some_text _)

pub calc_digest-qop :
    (md5sum : Bytes → Option Bytes) (a1 uri nonce nc cnonce qop : Bytes)
    → is_empty qop ≡ false
    → calc_digest md5sum a1 uri nonce nc cnonce (codes "auth")
      ≡ calc_digest md5sum a1 uri nonce nc cnonce qop
unfolding calc_digest
calc_digest-qop md5sum a1 uri nonce nc cnonce [] e = cc
calc_digest-qop md5sum a1 uri nonce nc cnonce (c ∷ qop) e = refl

-- The condition under which the client gives up.
abbrev refused : Authenticate → Bytes → Bool
refused a uri =
    is_empty a.nonce
    || (is_empty uri
        || (not (is_empty a.algorithm)
            && (not (eq_bytes a.algorithm (codes "MD5"))
                && not (eq_bytes a.algorithm (codes "md5")))))

answered :
    (a : Authenticate) (uri username : Bytes) → IsAnswerable a uri username → refused a uri ≡ false
answered a uri username h = rw (h.with_nonce, h.with_uri) (by_algorithm a.algorithm h.md5)
  where
    by_algorithm :
        (s : Bytes)
        → (s ≡ []) ⊎ (s ≡ codes "MD5") ⊎ (s ≡ codes "md5")
        → (not (is_empty s) && (not (eq_bytes s (codes "MD5")) && not (eq_bytes s (codes "md5"))))
          ≡ false
    by_algorithm s (inl e) = rw e
    by_algorithm s (inr (inl e)) = rw e
    by_algorithm s (inr (inr e)) = rw e

module _ (md5sum to_base64 : Bytes → Option Bytes) (a : Authenticate)
    (uri username password : Bytes) (answerable : IsAnswerable a uri username) where
  abbrev pub digest_of : Bytes → Bytes → Bytes
  digest_of cnonce qop =
      calc_digest md5sum (calc_a1 md5sum username a.realm password) uri a.nonce (hex8 a.nc) cnonce
        qop

  pub header-qop :
      (cnonce : Bytes)
      → is_empty a.qop ≡ false
      → create_authorization_header md5sum to_base64 (some cnonce) a uri username password
        ≡ codes "Digest"
          ++ joined b','
              (map entry (fields a uri username (qop_fields cnonce (digest_of cnonce a.qop))))
  unfolding create_authorization_header
  header-qop cnonce e =
      rw (answerable.with_username, answerable.kind_digest, answered a uri username answerable, e)
        (leading-text a uri username _ (bare (codes "qop") (codes "auth")) _ (simp append_assoc))

  pub header_plain :
      (random : Option Bytes)
      → is_empty a.qop ≡ true
      → create_authorization_header md5sum to_base64 random a uri username password
        ≡ codes "Digest"
          ++ joined b',' (map entry (fields a uri username (response_field (digest_of [] []))))
  unfolding create_authorization_header
  header_plain random e =
      rw (answerable.with_username, answerable.kind_digest, answered a uri username answerable, e)
        (leading-text a uri username _ (in_quotes (codes "response") (digest_of [] [])) []
          (simp append_assoc))
