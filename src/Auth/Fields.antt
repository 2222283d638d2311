-- ===== src/Auth/Fields.antt =====
-- `Split` and `Parse` of src/auth_context_impl.cpp.
use linear_cpp.Prelude.{
  ℕ, zero, suc, ◌+◌, ◌-◌, ◌&&◌, ◌||◌, List, [], ◌∷◌, ◌++◌, map, Option, none, some, leb, ◌==◌,
  if◌then◌else◌, Bytes, codes, eq_bytes, is_empty,
}
use linear_cpp.Ordered
use linear_cpp.Ordered.{bytes_order}

-- The loop of `Split`, within a part: `cur` is the part so far. It ends where the text ends, also
-- just behind a separator, so a text that ends in one has no empty last part.
unfoldable pub cut : ℕ → Bytes → Bytes → List Bytes
cut sep cur [] = cur ∷ []
cut sep cur (c ∷ s) =
    let rest = cut sep [] s in
    let more = cut sep (cur ++ c ∷ []) s in
    if c == sep then cur ∷ (if is_empty s then [] else rest) else more

unfoldable pub split : Bytes → ℕ → List Bytes
unfolding cut
split s sep = if is_empty s then [] else cut sep [] s

-- `s.erase(std::remove(s.begin(), s.end(), ' '), s.end())`.
abbrev pub strip : Bytes → Bytes
strip [] = []
strip (c ∷ s) = if c == b' ' then strip s else c ∷ strip s

-- `::tolower` of ASCII.
abbrev pub to_lower : ℕ → ℕ
to_lower c = if leb b'A' c && leb c b'Z' then c + 32 else c

abbrev pub lower : Bytes → Bytes
lower s = map to_lower s

-- `find_first_of` and `find_last_of` of one character.
abbrev pub find_first : ℕ → Bytes → Option ℕ
find_first c [] = none
find_first c (x ∷ s) =
    if x == c then some 0 else elim (find_first c s) [ none ↦ none | some i ↦ some (suc i) ]

abbrev pub find_last : ℕ → Bytes → Option ℕ
find_last c [] = none
find_last c (x ∷ s) = elim (find_last c s) [
  | none ↦ if x == c then some 0 else none
  | some i ↦ some (suc i)
]

abbrev pub drop : ℕ → Bytes → Bytes
drop zero s = s
drop (suc n) [] = []
drop (suc n) (c ∷ s) = drop n s

abbrev pub take : ℕ → Bytes → Bytes
take zero s = []
take (suc n) [] = []
take (suc n) (c ∷ s) = c ∷ take n s

unfoldable pub between : Bytes → Option ℕ → Option ℕ → Bytes
between s (some f) (some l) = if l == f then drop (f + 1) s else take (l - f - 1) (drop (f + 1) s)
between s _ _ = s

-- `s.substr(f_quote + 1, l_quote - f_quote - 1)`. With no quote `npos + 1` is 0 and the count is
-- `npos`, so all of `s` stays; with one quote the count is `npos` too, and the rest is taken.
unfoldable pub unquote : Bytes → Bytes
unfolding between
unquote s = between s (find_first b'"' s) (find_last b'"' s)

-- The value of a field: `qop` and `nc` stand without quotes.
unfoldable pub field_value : Bytes → Bytes → Bytes
field_value key value =
    if eq_bytes key (codes "qop") || eq_bytes key (codes "nc") then strip value else unquote value

-- The body of the loop of `Parse`, on the parts of a field.
unfoldable pub add_field : List Bytes → List (Bytes × Bytes) → List (Bytes × Bytes)
add_field (k ∷ v ∷ []) kv =
    let key = lower (strip k) in Ordered.Map.modify key (field_value key v) (λ old. old) kv
add_field _ kv = kv

unfoldable pub add_fields : List Bytes → List (Bytes × Bytes) → List (Bytes × Bytes)
add_fields [] kv = kv
add_fields (f ∷ fs) kv = add_fields fs (add_field (split f b'=') kv)

unfoldable pub parse : Bytes → List (Bytes × Bytes)
unfolding field_value add_field add_fields
parse s = add_fields (split s b',') []
