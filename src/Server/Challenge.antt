-- ===== src/Server/Challenge.antt =====
-- A client reads the WWW-Authenticate header that a server writes (src/ws_server_impl.cpp,
-- src/wss_server_impl.cpp and src/auth_context_impl.cpp).
use linear_cpp.Prelude.{
  ◌≡◌, refl, ap, ◌∙◌, List, [], ◌∷◌, ◌++◌, some, append_assoc, arith, Bytes, codes,
}
use linear_cpp.Ordered
use linear_cpp.Ordered.{bytes_order}
use linear_cpp.Auth.Fields.{split, parse, field_value, add_field, add_fields}
use linear_cpp.Auth.Splitting.{joined, AreParts, split-joined}
use linear_cpp.Auth.Parsing.{
  ArePlain, Field, in_quotes, bare, entry, IsClean, entry-part, add_field-entry,
}
use linear_cpp.Auth.Header.{digest, scheme}
use linear_cpp.Auth.RoundTrip.{scheme-digest}
use linear_cpp.Auth.Authenticate
use linear_cpp.Auth.Authenticate.{Authenticate}
use linear_cpp.Server.WebSocket.{digest_challenge}

-- What a client makes of a challenge: `qop` keeps its quotes.
abbrev pub challenge : Bytes → Bytes → Authenticate
challenge realm nonce = record {
  kind = digest;
  nc = 0;
  realm = realm;
  nonce = nonce;
  algorithm = codes "MD5";
  qop = codes "\"auth\"";
}

abbrev quoted_qop : Bytes
quoted_qop = codes " qop=\"auth\""

abbrev algorithm : Field
algorithm = bare (codes "algorithm") (codes "MD5")

abbrev texts : Bytes → Bytes → List Bytes
texts realm nonce =
    entry (in_quotes (codes "realm") realm)
    ∷ entry algorithm
    ∷ quoted_qop
    ∷ entry (in_quotes (codes "nonce") nonce)
    ∷ []

-- The text behind the first space.
behind : Bytes → Bytes → Bytes
behind realm nonce =
    codes "realm=\""
    ++ (realm ++ (codes "\", algorithm=MD5, qop=\"auth\", nonce=\"" ++ (nonce ++ codes "\"")))

challenge-scheme :
    (realm nonce : Bytes)
    → scheme (digest_challenge realm nonce)
      ≡ some (digest, b' ' ∷ behind realm nonce, behind realm nonce)
unfolding behind
challenge-scheme realm nonce = scheme-digest (behind realm nonce)

behind-joined : (realm nonce : Bytes) → b' ' ∷ behind realm nonce ≡ joined b',' (texts realm nonce)
unfolding behind
behind-joined realm nonce = simp append_assoc

module _ (realm nonce : Bytes) (plain_realm : ArePlain realm) (plain_nonce : ArePlain nonce) where
  realm-IsClean : IsClean (in_quotes (codes "realm") realm)
  realm-IsClean = ((omega arith, refl, refl), refl, plain_realm)

  nonce-IsClean : IsClean (in_quotes (codes "nonce") nonce)
  nonce-IsClean = ((omega arith, refl, refl), refl, plain_nonce)

  algorithm-IsClean : IsClean algorithm
  algorithm-IsClean = ((omega arith, refl, refl), omega arith, omega arith, refl)

  texts-AreParts : AreParts b',' (texts realm nonce)
  texts-AreParts = (
    entry-part (in_quotes (codes "realm") realm) realm-IsClean,
    (
      entry-part algorithm algorithm-IsClean,
      ((omega arith, refl), (entry-part (in_quotes (codes "nonce") nonce) nonce-IsClean, tt)),
    ),
  )

  -- The fields as a map.
  abbrev fields : List (Bytes × Bytes)
  fields =
      (codes "algorithm", codes "MD5")
      ∷ (codes "nonce", nonce)
      ∷ (codes "qop", codes "\"auth\"")
      ∷ (codes "realm", realm)
      ∷ []

  abbrev with_qop : List (Bytes × Bytes)
  with_qop =
      (codes "algorithm", codes "MD5")
      ∷ (codes "qop", codes "\"auth\"")
      ∷ (codes "realm", realm)
      ∷ []

  added_qop :
      add_field
        (split quoted_qop b'=')
        ((codes "algorithm", codes "MD5") ∷ (codes "realm", realm) ∷ [])
      ≡ with_qop
  unfolding split add_field field_value Ordered.Map.modify
  added_qop = refl

  parse-texts : parse (joined b',' (texts realm nonce)) ≡ fields
  unfolding parse add_fields Ordered.Map.modify
  parse-texts = rw (split-joined b',' (texts realm nonce) texts-AreParts) (
      rw
        (
          add_field-entry (in_quotes (codes "realm") realm) [] realm-IsClean,
          add_field-entry algorithm ((codes "realm", realm) ∷ []) algorithm-IsClean,
        )
        (ap (add_field (split (entry (in_quotes (codes "nonce") nonce)) b'=')) added_qop
          ∙ add_field-entry (in_quotes (codes "nonce") nonce) with_qop nonce-IsClean))

  read_fields : Authenticate.read_kind digest fields ≡ challenge realm nonce
  unfolding Authenticate.read_kind Ordered.Map.find
  read_fields = refl

  -- A client reads in a digest challenge the realm and the nonce that the server wrote, MD5 as the
  -- algorithm, and `qop` with its quotes, if realm and nonce have no comma, equals sign or quote.
  pub read-challenge : Authenticate.read (digest_challenge realm nonce) ≡ challenge realm nonce
  unfolding Authenticate.read Authenticate.read_scheme
  read-challenge =
      ap Authenticate.read_scheme (challenge-scheme realm nonce)
      ∙ ap (Authenticate.read_kind digest) (ap parse (behind-joined realm nonce) ∙ parse-texts)
      ∙ read_fields
