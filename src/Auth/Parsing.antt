-- ===== src/Auth/Parsing.antt =====
-- `Parse` reads back the fields of a header (src/auth_context_impl.cpp).
use linear_cpp.Prelude.{
  ℕ, suc, ◌-◌, ◌≡◌, ◌≢◌, refl, sym, ap, ◌∙◌, Bool, false, ◌||◌, List, [], ◌∷◌, ◌++◌, map, none,
  some, arith, All, All-append, Bytes, codes, length, eq_bytes, is_empty,
}
use linear_cpp.Ordered
use linear_cpp.Ordered.{bytes_order}
use linear_cpp.Auth.Fields.{
  split, strip, lower, find_first, find_last, take, unquote, field_value, add_field, add_fields,
  parse,
}
use linear_cpp.Auth.Splitting.{Lacks, joined, split_two, split-joined, AreParts}

find_last-Lacks : (c : ℕ) (s : Bytes) → Lacks c s → find_last c s ≡ none
find_last-Lacks c [] h = refl
find_last-Lacks c (x ∷ s) h = ground (arith, find_last-Lacks c s h.1)

find_first-Lacks : (c : ℕ) (s : Bytes) → Lacks c s → find_first c s ≡ none
find_first-Lacks c [] h = refl
find_first-Lacks c (x ∷ s) h = ground (arith, find_first-Lacks c s h.1)

find_last_end : (c : ℕ) (s : Bytes) → find_last c (s ++ c ∷ []) ≡ some (length s)
find_last_end c [] = ground arith
find_last_end c (x ∷ s) = ground (arith, find_last_end c s)

take-length : (s t : Bytes) → take (length s) (s ++ t) ≡ s
take-length [] t = refl
take-length (x ∷ s) t = ground (arith, take-length s t)

minus_one : (n : ℕ) → suc n - 0 - 1 ≡ n
minus_one n = omega arith

unquote_quoted : (s : Bytes) → unquote (b'"' ∷ (s ++ b'"' ∷ [])) ≡ s
unfolding unquote
unquote_quoted s =
    ground (arith, find_last_end b'"' s, take-length s (b'"' ∷ []), minus_one (length s))

unquote_plain : (s : Bytes) → Lacks b'"' s → unquote s ≡ s
unfolding unquote
unquote_plain s h = rw (find_first-Lacks b'"' s h)

strip-Lacks : (s : Bytes) → Lacks b' ' s → strip s ≡ s
strip-Lacks [] h = refl
strip-Lacks (c ∷ s) h = ground (arith, strip-Lacks s h.1)

-- A byte that `Parse` takes as part of a value: no comma, no equals sign, no quote.
abbrev pub IsPlain : ℕ → Type 0
IsPlain c = (c ≢ b',') × (c ≢ b'=') × (c ≢ b'"')

abbrev pub ArePlain : Bytes → Type 0
ArePlain s = All IsPlain s

plain-Lacks : (s : Bytes) → ArePlain s → Lacks b',' s × Lacks b'=' s × Lacks b'"' s
plain-Lacks [] h = (tt, tt, tt)
plain-Lacks (c ∷ s) h = let (a, b, d) = plain-Lacks s h.1 in ((h.0.0, a), (h.0.1, b), (h.0.2, d))

-- A field as the client writes it: with or without quotes round its value.
pub data Field : Type 0 where
  in_quotes bare : Bytes → Bytes → Field

abbrev pub entry : Field → Bytes
entry (in_quotes k s) = b' ' ∷ (k ++ b'=' ∷ b'"' ∷ (s ++ b'"' ∷ []))
entry (bare k s) = b' ' ∷ (k ++ b'=' ∷ s)

abbrev is_bare : Bytes → Bool
is_bare k = eq_bytes k (codes "qop") || eq_bytes k (codes "nc")

abbrev IsKey : Bytes → Type 0
IsKey k = ArePlain k × (strip k ≡ k) × (lower k ≡ k)

abbrev pub IsClean : Field → Type 0
IsClean (in_quotes k s) = IsKey k × (is_bare k ≡ false) × ArePlain s
IsClean (bare k s) = IsKey k × ArePlain s × Lacks b' ' s × (is_empty s ≡ false)

abbrev pub store : List Field → List (Bytes × Bytes) → List (Bytes × Bytes)
store [] kv = kv
store (in_quotes k s ∷ fs) kv = store fs (Ordered.Map.modify k s (λ old. old) kv)
store (bare k s ∷ fs) kv = store fs (Ordered.Map.modify k s (λ old. old) kv)

Lacks-quoted : (c : ℕ) (s : Bytes) → c ≢ b'"' → Lacks c s → Lacks c (b'"' ∷ (s ++ b'"' ∷ []))
Lacks-quoted c s h l =
    let ne : b'"' ≢ c = λ e. h (sym e) in (ne, All-append (λ x. x ≢ c) s (b'"' ∷ []) l (ne, tt))

Lacks-strip : (k : Bytes) → strip (b' ' ∷ k) ≡ strip k
Lacks-strip k = refl

-- What the loop of `Parse` does with one field.
pub add_field-entry :
    (f : Field) (kv : List (Bytes × Bytes))
    → IsClean f
    → add_field (split (entry f) b'=') kv ≡ store (f ∷ []) kv
unfolding add_field field_value
add_field-entry (in_quotes k s) kv (key, named, plain) =
    let split_entry =
      split_two b'=' (b' ' ∷ k) (b'"' ∷ (s ++ b'"' ∷ []))
        ((λ e. absurd (omega arith)), (plain-Lacks k key.0).1)
        (Lacks-quoted b'=' s (λ e. absurd (omega arith)) (plain-Lacks s plain).1) refl in
    rw split_entry (rw (key.1, key.2, named, unquote_quoted s))
add_field-entry (bare k s) kv (key, plain, tight, some_text) =
    let split_entry =
      split_two b'=' (b' ' ∷ k) s ((λ e. absurd (omega arith)), (plain-Lacks k key.0).1)
        (plain-Lacks s plain).1 some_text in
    rw split_entry (
      rw (key.1, key.2)
        (ground (arith, unquote_plain s (plain-Lacks s plain).2, strip-Lacks s tight)))

store-append :
    (f : Field) (fs : List Field) (kv : List (Bytes × Bytes))
    → store (f ∷ fs) kv ≡ store fs (store (f ∷ []) kv)
store-append (in_quotes k s) fs kv = refl
store-append (bare k s) fs kv = refl

add_fields-entries :
    (fs : List Field) (kv : List (Bytes × Bytes))
    → All IsClean fs
    → add_fields (map entry fs) kv ≡ store fs kv
unfolding add_fields
add_fields-entries [] kv h = refl
add_fields-entries (f ∷ fs) kv h =
    ap (add_fields (map entry fs)) (add_field-entry f kv h.0)
    ∙ add_fields-entries fs (store (f ∷ []) kv) h.1
    ∙ sym (store-append f fs kv)

pub entry-part : (f : Field) → IsClean f → Lacks b',' (entry f) × (is_empty (entry f) ≡ false)
entry-part (in_quotes k s) (key, named, plain) = (
  (
    (λ e. absurd (omega arith)),
    All-append (λ x. x ≢ b',') k (b'=' ∷ b'"' ∷ (s ++ b'"' ∷ [])) (plain-Lacks k key.0).0
        (
          (λ e. absurd (omega arith)),
          Lacks-quoted b',' s (λ e. absurd (omega arith)) (plain-Lacks s plain).0,
        ),
  ),
  refl,
)
entry-part (bare k s) (key, plain, tight, some_text) = (
  (
    (λ e. absurd (omega arith)),
    All-append (λ x. x ≢ b',') k (b'=' ∷ s) (plain-Lacks k key.0).0
        ((λ e. absurd (omega arith)), (plain-Lacks s plain).0),
  ),
  refl,
)

entries-AreParts : (fs : List Field) → All IsClean fs → AreParts b',' (map entry fs)
entries-AreParts [] h = tt
entries-AreParts (f ∷ fs) h = (entry-part f h.0, entries-AreParts fs h.1)

-- `Parse` of clean fields, each behind a space and with commas between them, gives them back as a
-- map, where the first field of a key counts.
pub parse-entries :
    (fs : List Field) → All IsClean fs → parse (joined b',' (map entry fs)) ≡ store fs []
unfolding parse
parse-entries fs h =
    rw (split-joined b',' (map entry fs) (entries-AreParts fs h)) (add_fields-entries fs [] h)
