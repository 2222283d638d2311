-- ===== src/Any/Quoting.antt =====
-- A text that `operator<<` of include/linear/any.h writes can be read back.
use linear_cpp.Prelude.{
  ℕ, zero, suc, ◌+◌, ◌-◌, ◌*◌, ◌<◌, ◌≡◌, refl, ap, ◌∙◌, [], ◌∷◌, ◌++◌, Option, none, some, ltb,
  ◌==◌, if◌then◌else◌, arith, All, Bytes, append_assoc,
}
use linear_cpp.Any.{escape, escape_all, print, str}

-- A reader of JSON strings: outside an escape, behind a backslash, or within `\u` with so many digits
-- to come, of the value so far.
pub data Mode : Type 0 where
  plain escaped : Mode
  unicode : ℕ → ℕ → Mode

prepend : ℕ → Option (Bytes × Bytes) → Option (Bytes × Bytes)
prepend c none = none
prepend c (some (s, rest)) = some (c ∷ s, rest)

abbrev digit : ℕ → ℕ
digit c = if ltb c b'a' then c - b'0' else c - b'a' + 10

abbrev named : ℕ → ℕ
named c =
    if c == b'b'
    then 8
    else if c == b'f'
    then 12
    else if c == b'n'
    then 10
    else if c == b'r'
    then 13
    else if c == b't'
    then 9
    else c

-- The bytes of a text up to the quote that ends it, and what is behind.
pub read_text : Mode → Bytes → Option (Bytes × Bytes)
unfolding prepend
read_text m [] = none
read_text plain (c ∷ s) =
    let more = read_text plain s in
    let behind = read_text escaped s in
    if c == b'"' then some ([], s) else if c == b'\\' then behind else prepend c more
read_text escaped (c ∷ s) =
    let more = read_text plain s in
    let code = read_text (unicode 4 0) s in if c == b'u' then code else prepend (named c) more
read_text (unicode zero v) (c ∷ s) = none
read_text (unicode (suc zero) v) (c ∷ s) = prepend (v * 16 + digit c) (read_text plain s)
read_text (unicode (suc (suc n)) v) (c ∷ s) = read_text (unicode (suc n) (v * 16 + digit c)) s

read_text-escape :
    (c : ℕ) (s : Bytes) → c < 256 → read_text plain (escape c ++ s) ≡ prepend c (read_text plain s)
unfolding read_text escape
read_text-escape c s h = ground arith

read_text-escape_all :
    (s rest : Bytes)
    → All (λ c. c < 256) s
    → read_text plain (escape_all s ++ b'"' ∷ rest) ≡ some (s, rest)
unfolding escape_all prepend
read_text-escape_all [] rest h = unfold read_text in refl
read_text-escape_all (c ∷ s) rest h =
    ap (read_text plain) (append_assoc (escape c) (escape_all s) (b'"' ∷ rest))
    ∙ read_text-escape c (escape_all s ++ b'"' ∷ rest) h.0
    ∙ ap (prepend c) (read_text-escape_all s rest h.1)

-- A text is written as a quote and what a reader of JSON strings reads back as the same bytes, up to
-- the end of the text and no further, whatever comes behind it.
pub print_text :
    (print_float : ℕ → Bytes) (z : ℕ) (s rest : Bytes)
    → All (λ c. c < 256) s
    → (t : Bytes) × (print print_float (str z s) ++ rest ≡ b'"' ∷ t)
      × (read_text plain t ≡ some (s, rest))
unfolding print
print_text print_float z s rest h = (
  escape_all s ++ b'"' ∷ rest,
  ap (λ t. b'"' ∷ t) (append_assoc (escape_all s) (b'"' ∷ []) rest),
  read_text-escape_all s rest h,
)
