-- ===== src/Examples/Login.antt =====
-- The theorems about authentication (src/auth_context_impl.cpp) at concrete inputs.
use linear_cpp.Prelude.{
  ℕ, ◌≡◌, refl, ◌==◌, inl, inr, Bool, true, not, ◌&&◌, List, [], ◌∷◌, Option, some, none, All,
  Bytes, codes, map, arith,
}
use linear_cpp.Auth.Header.{digest}
use linear_cpp.Auth.Fields.{split, parse}
use linear_cpp.Auth.Splitting.{joined, AreParts, Lacks, split-joined}
use linear_cpp.Auth.Parsing.{Field, in_quotes, bare, entry, IsClean, ArePlain, store, parse-entries}
use linear_cpp.Auth.Authorization
use linear_cpp.Auth.Authorization.{validate, valid, ambiguous}
use linear_cpp.Auth.Authenticate.{Authenticate, create_authorization_header}
use linear_cpp.Auth.Answer.{IsHash, IsAnswerable}
use linear_cpp.Auth.Login.{digest_login}

-- A constant in place of MD5, and no Base64.
abbrev pub toy_md5 : Bytes → Option Bytes
toy_md5 s = some (codes "c4ca")

abbrev pub no_base64 : Bytes → Option Bytes
no_base64 s = none

unfoldable pub is_plain : Bytes → Bool
is_plain [] = true
is_plain (c ∷ s) = not (c == b',') && (not (c == b'=') && (not (c == b'"') && is_plain s))

pub is_plain-ArePlain : (s : Bytes) → is_plain s ≡ true → ArePlain s
unfolding is_plain
is_plain-ArePlain [] h = tt
is_plain-ArePlain (c ∷ s) h =
    ((ground arith, ground arith, ground arith), is_plain-ArePlain s (ground arith))

lacks : ℕ → Bytes → Bool
lacks c [] = true
lacks c (x ∷ s) = not (x == c) && lacks c s

lacks-Lacks : (c : ℕ) (s : Bytes) → lacks c s ≡ true → Lacks c s
unfolding lacks
lacks-Lacks c [] h = tt
lacks-Lacks c (x ∷ s) h = (ground arith, lacks-Lacks c s (ground arith))

pub toy_md5-IsHash : IsHash toy_md5
unfolding is_plain
toy_md5-IsHash = record {
  value = λ s. codes "c4ca";
  total = λ s. refl;
  plain = λ s. is_plain-ArePlain (codes "c4ca") refl;
  some_text = λ s. refl;
}

abbrev challenge : Authenticate
challenge = record {
  kind = digest;
  nc = 1;
  realm = codes "home";
  nonce = codes "d41d8c";
  algorithm = codes "MD5";
  qop = codes "auth";
}

challenge-IsAnswerable : IsAnswerable challenge (codes "/chat") (codes "alice")
unfolding is_plain
challenge-IsAnswerable = record {
  kind_digest = refl;
  with_nonce = refl;
  with_uri = refl;
  with_username = refl;
  md5 = inr (inl refl);
  plain_nonce = is_plain-ArePlain (codes "d41d8c") refl;
  plain_uri = is_plain-ArePlain (codes "/chat") refl;
  plain_username = is_plain-ArePlain (codes "alice") refl;
  plain_realm = is_plain-ArePlain (codes "home") refl;
}

cnonce-ArePlain : ArePlain (codes "x1")
unfolding is_plain
cnonce-ArePlain = is_plain-ArePlain (codes "x1") refl

digest_login_example :
    validate toy_md5
      (codes "secret")
      (record (Authorization.read no_base64 true (
        create_authorization_header toy_md5 no_base64
          (some (codes "x1"))
          challenge
          (codes "/chat")
          (codes "alice")
          (codes "secret"))) { valid_nonce = true })
    ≡ valid
digest_login_example =
    digest_login toy_md5 no_base64 no_base64 true true challenge (codes "/chat") (codes "alice")
      (codes "secret") (codes "x1") toy_md5-IsHash challenge-IsAnswerable cnonce-ArePlain

abbrev fields : List Field
fields = in_quotes (codes "realm") (codes "home") ∷ bare (codes "qop") (codes "auth") ∷ []

fields-AreClean : All IsClean fields
unfolding is_plain lacks
fields-AreClean = (
  (
    (is_plain-ArePlain (codes "realm") refl, refl, refl),
    refl,
    is_plain-ArePlain (codes "home") refl,
  ),
  (
    (
      (is_plain-ArePlain (codes "qop") refl, refl, refl),
      is_plain-ArePlain (codes "auth") refl,
      lacks-Lacks b' ' (codes "auth") refl,
      refl,
    ),
    tt,
  ),
)

parse-entries_example : parse (joined b',' (map entry fields)) ≡ store fields []
parse-entries_example = parse-entries fields fields-AreClean

abbrev parts : List Bytes
parts = codes "ab" ∷ codes "c" ∷ []

parts-AreParts : AreParts b';' parts
unfolding lacks
parts-AreParts =
    ((lacks-Lacks b';' (codes "ab") refl, refl), ((lacks-Lacks b';' (codes "c") refl, refl), tt))

split-joined_example : split (joined b';' parts) b';' ≡ parts
split-joined_example = split-joined b';' parts parts-AreParts
