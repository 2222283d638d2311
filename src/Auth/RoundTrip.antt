-- ===== src/Auth/RoundTrip.antt =====
-- A server reads the Authorization header that a client wrote (src/auth_context_impl.cpp).
use linear_cpp.Prelude.{
  ℕ, ◌%◌, ◌≡◌, ◌≢◌, refl, sym, append-nil, ◌∙◌, ap, Bool, false, List, [], ◌∷◌, ◌++◌, map, Option,
  some, append_assoc, arith, All, Bytes, codes, is_empty, if◌then◌else◌,
}
use linear_cpp.Ordered
use linear_cpp.Ordered.{bytes_order}
use linear_cpp.Auth.Fields.{parse}
use linear_cpp.Auth.Splitting.{Lacks, joined}
use linear_cpp.Auth.Parsing.{
  ArePlain, IsPlain, Field, in_quotes, bare, entry, IsClean, store, parse-entries,
}
use linear_cpp.Auth.Header.{scheme, digest}
use linear_cpp.Auth.Authorization
use linear_cpp.Auth.Authorization.{Authorization}
use linear_cpp.Auth.Authenticate.{Authenticate, leading, hex8, hex_digit}

-- The fields that the client writes.
abbrev pub algorithm_field : Bytes → List Field
algorithm_field [] = []
algorithm_field (c ∷ s) = bare (codes "algorithm") (c ∷ s) ∷ []

abbrev pub response_field : Bytes → List Field
response_field response = in_quotes (codes "response") response ∷ []

abbrev pub qop_fields : Bytes → Bytes → List Field
qop_fields cnonce response =
    bare (codes "qop") (codes "auth") ∷ in_quotes (codes "cnonce") cnonce ∷ response_field response

abbrev pub fields : Authenticate → Bytes → Bytes → List Field → List Field
fields a uri username rest =
    in_quotes (codes "username") username
    ∷ in_quotes (codes "realm") a.realm
    ∷ in_quotes (codes "uri") uri
    ∷ in_quotes (codes "nonce") a.nonce
    ∷ (algorithm_field a.algorithm ++ bare (codes "nc") (hex8 a.nc) ∷ rest)

-- The text of fields behind others.
abbrev pub tail_text : List Field → Bytes
tail_text [] = []
tail_text (f ∷ fs) = b',' ∷ (entry f ++ tail_text fs)

joined-tail :
    (f : Field) (fs : List Field) → joined b',' (map entry (f ∷ fs)) ≡ entry f ++ tail_text fs
joined-tail f [] = sym (append-nil (entry f))
joined-tail f (g ∷ fs) = ap (λ t. entry f ++ b',' ∷ t) (joined-tail g fs)

algorithm-text :
    (s x t : Bytes) (f : Field) (fs : List Field)
    → b' ' ∷ t ≡ entry f ++ tail_text fs
    → tail_text (algorithm_field s ++ bare (codes "nc") x ∷ f ∷ fs)
      ≡ b','
        ∷ b' '
        ∷ ((if is_empty s then [] else codes "algorithm=" ++ (s ++ codes ", "))
            ++ (codes "nc=" ++ (x ++ (codes ", " ++ t))))
algorithm-text [] x t f fs h = rw (← h)
algorithm-text (c ∷ s) x t f fs h = rw (← h) (simp append_assoc)

-- The text that the client builds is the scheme and its fields, with commas between them.
pub leading-text :
    (a : Authenticate) (uri username t : Bytes) (f : Field) (fs : List Field)
    → b' ' ∷ t ≡ entry f ++ tail_text fs
    → leading a uri username ++ t
      ≡ codes "Digest" ++ joined b',' (map entry (fields a uri username (f ∷ fs)))
leading-text a uri username t f fs h =
    rw joined-tail (rw (algorithm-text a.algorithm (hex8 a.nc) t f fs h) (simp append_assoc))

pub scheme-digest : (t : Bytes) → scheme (codes "Digest" ++ b' ' ∷ t) ≡ some (digest, b' ' ∷ t, t)
unfolding scheme
scheme-digest t = refl

hex_digit-IsPlain : (n : ℕ) → IsPlain (hex_digit (n % 16)) × (hex_digit (n % 16) ≢ b' ')
hex_digit-IsPlain n = ground arith

pub hex8-plain : (n : ℕ) → ArePlain (hex8 n) × Lacks b' ' (hex8 n) × (is_empty (hex8 n) ≡ false)
unfolding hex8
hex8-plain n = grind (arith, hex_digit-IsPlain)

read-entries :
    (from_base64 : Bytes → Option Bytes) (memory : Bool) (k s : Bytes) (fs : List Field)
    → All IsClean (in_quotes k s ∷ fs)
    → Authorization.read from_base64 memory
        (codes "Digest" ++ joined b',' (map entry (in_quotes k s ∷ fs)))
      ≡ Authorization.read_digest memory (store (in_quotes k s ∷ fs) [])
unfolding Authorization.read
read-entries from_base64 memory k s fs clean =
    let j = joined-tail (in_quotes k s) fs in
    ap (Authorization.read_scheme from_base64 memory)
      (ap (λ t. scheme (codes "Digest" ++ t)) j ∙ scheme-digest _)
    ∙ ap (Authorization.read_digest memory)
        (ap parse (sym j) ∙ parse-entries (in_quotes k s ∷ fs) clean)

pub read-fields :
    (from_base64 : Bytes → Option Bytes) (memory : Bool) (a : Authenticate) (uri username : Bytes)
    (rest : List Field)
    → All IsClean (fields a uri username rest)
    → Authorization.read from_base64 memory
        (codes "Digest" ++ joined b',' (map entry (fields a uri username rest)))
      ≡ Authorization.read_digest memory (store (fields a uri username rest) [])
read-fields from_base64 memory a uri username rest clean =
    read-entries from_base64 memory (codes "username") username
      (in_quotes (codes "realm") a.realm
        ∷ in_quotes (codes "uri") uri
        ∷ in_quotes (codes "nonce") a.nonce
        ∷ (algorithm_field a.algorithm ++ bare (codes "nc") (hex8 a.nc) ∷ rest))
      clean

-- What a server makes of the fields, with and without `qop`.
abbrev pub received : Bool → Authenticate → Bytes → Bytes → Bytes → Bytes → Bytes → Authorization
received memory a uri username qop cnonce response = record {
  kind = digest;
  username = username;
  nonce = a.nonce;
  valid_nonce = memory;
  realm = a.realm;
  uri = uri;
  qop = qop;
  nc = hex8 a.nc;
  cnonce = cnonce;
  response = response;
}

module _ (memory : Bool) (a : Authenticate) (uri username : Bytes) where
  pub received-qop :
      (s cnonce response : Bytes)
      → a.algorithm ≡ s
      → Authorization.read_digest memory
          (store (fields a uri username (qop_fields cnonce response)) [])
        ≡ received memory a uri username (codes "auth") cnonce response
  unfolding Authorization.read_digest Ordered.Map.find Ordered.Map.modify
  received-qop [] cnonce response e = rw e
  received-qop (c ∷ s) cnonce response e = rw e

  pub received_plain :
      (s response : Bytes)
      → a.algorithm ≡ s
      → Authorization.read_digest memory
          (store (fields a uri username (response_field response)) [])
        ≡ received memory a uri username [] [] response
  unfolding Authorization.read_digest Ordered.Map.find Ordered.Map.modify
  received_plain [] response e = rw e
  received_plain (c ∷ s) response e = rw e
