-- ===== src/Any/Printing.antt =====
-- What `operator<<` and `stringify` of include/linear/any.h write.
use linear_cpp.Prelude.{
  ◌⊎◌, ℕ, zero, suc, ◌+◌, ◌/◌, ◌%◌, ◌≤◌, ◌<◌, ◌≡◌, ◌≢◌, refl, Bool, true, false, [], ◌∷◌, ◌++◌, ltb,
  ◌==◌, ◌&&◌, if◌then◌else◌, if_lem, arith, All, All-append, length, Bytes, codes,
}
use linear_cpp.Prelude.Int.{ℤ, pos, negsuc}
use linear_cpp.Auth.Fields.{take}
use linear_cpp.Any.{
  Object, nil, boolean, positive_integer, negative_integer, float32, float64, str, bin, ext, array,
  map, Objects, no_items, item, Pairs, no_pairs, pair, Any, escape, escape_all, decimal, print_int,
  print, print_each, print_more, print_pairs, print_more_pairs, stringify,
}

-- No control character of ASCII.
abbrev pub IsVisible : ℕ → Type 0
IsVisible c = (32 ≤ c) × (c ≢ 127)

abbrev pub AreVisible : Bytes → Type 0
AreVisible s = All IsVisible s

is_visible : Bytes → Bool
is_visible [] = true
is_visible (c ∷ s) = ltb 31 c && (if c == 127 then false else is_visible s)

is_visible-AreVisible : (s : Bytes) → is_visible s ≡ true → AreVisible s
unfolding is_visible
is_visible-AreVisible [] h = tt
is_visible-AreVisible (c ∷ s) h = (ground (arith, h), is_visible-AreVisible s (ground (arith, h)))

escape-is_visible : (c : ℕ) → is_visible (escape c) ≡ true
unfolding escape is_visible
escape-is_visible c = ground arith

append : (s t : Bytes) → AreVisible s → AreVisible t → AreVisible (s ++ t)
append s t = All-append IsVisible s t

escape_all-AreVisible : (s : Bytes) → AreVisible (escape_all s)
unfolding escape_all
escape_all-AreVisible [] = tt
escape_all-AreVisible (c ∷ s) =
    append (escape c) (escape_all s) (is_visible-AreVisible (escape c) (escape-is_visible c))
      (escape_all-AreVisible s)

digit-IsVisible : (n : ℕ) → n < 10 → IsVisible (b'0' + n)
digit-IsVisible n h = ground (arith, h)

decimal-AreVisible : (fuel n : ℕ) → AreVisible (decimal fuel n)
unfolding decimal
decimal-AreVisible zero n = tt
decimal-AreVisible (suc fuel) n =
    if_lem AreVisible (ltb n 10) ((b'0' + n) ∷ []) (decimal fuel (n / 10) ++ (b'0' + n % 10) ∷ [])
      (λ e. (digit-IsVisible n (ground (arith, e)), tt))
      (λ e.
        append (decimal fuel (n / 10)) ((b'0' + n % 10) ∷ []) (decimal-AreVisible fuel (n / 10))
          (digit-IsVisible (n % 10) (omega arith), tt))

print_int-AreVisible : (n : ℤ) → AreVisible (print_int n)
unfolding print_int
print_int-AreVisible (pos n) = decimal-AreVisible 20 n
print_int-AreVisible (negsuc n) = (ground arith, decimal-AreVisible 20 (suc n))

separator-AreVisible : (s : Bytes) → AreVisible s → AreVisible (codes ", " ++ s)
separator-AreVisible s h = (ground arith, (ground arith, h))

module _ (print_float : ℕ → Bytes) (floats : (n : ℕ) → AreVisible (print_float n)) where
  mutual
    unfolding print is_visible

    print-AreVisible : (o : Object) → AreVisible (print print_float o)
    print-AreVisible nil = is_visible-AreVisible (codes "null") refl
    print-AreVisible (boolean true) = is_visible-AreVisible (codes "true") refl
    print-AreVisible (boolean false) = is_visible-AreVisible (codes "false") refl
    print-AreVisible (positive_integer n) = decimal-AreVisible 20 n
    print-AreVisible (negative_integer n) = print_int-AreVisible n
    print-AreVisible (float32 n) = floats n
    print-AreVisible (float64 n) = floats n
    print-AreVisible (str z s) = (
      ground arith,
      append (escape_all s) (b'"' ∷ []) (escape_all-AreVisible s) (ground arith, tt),
    )
    print-AreVisible (bin z s) = is_visible-AreVisible (codes "[BIN]") refl
    print-AreVisible (ext z t s) = is_visible-AreVisible (codes "[EXT]") refl
    print-AreVisible (array z xs) =
        (ground arith, append _ (b']' ∷ []) (print_each-AreVisible xs) (ground arith, tt))
    print-AreVisible (map z ps) =
        (ground arith, append _ (b'}' ∷ []) (print_pairs-AreVisible ps) (ground arith, tt))

    print_each-AreVisible : (xs : Objects) → AreVisible (print_each print_float xs)
    print_each-AreVisible no_items = tt
    print_each-AreVisible (item x xs) = append _ _ (print-AreVisible x) (print_more-AreVisible xs)

    print_more-AreVisible : (xs : Objects) → AreVisible (print_more print_float xs)
    print_more-AreVisible no_items = tt
    print_more-AreVisible (item x xs) =
        separator-AreVisible _ (append _ _ (print-AreVisible x) (print_more-AreVisible xs))

    print_pairs-AreVisible : (ps : Pairs) → AreVisible (print_pairs print_float ps)
    print_pairs-AreVisible no_pairs = tt
    print_pairs-AreVisible (pair k v ps) =
        append _ _ (print-AreVisible k)
          (ground arith, append _ _ (print-AreVisible v) (print_more_pairs-AreVisible ps))

    print_more_pairs-AreVisible : (ps : Pairs) → AreVisible (print_more_pairs print_float ps)
    print_more_pairs-AreVisible no_pairs = tt
    print_more_pairs-AreVisible (pair k v ps) = separator-AreVisible _ (
        append _ _ (print-AreVisible k)
          (ground arith, append _ _ (print-AreVisible v) (print_more_pairs-AreVisible ps)))

  length-take : (n : ℕ) (s : Bytes) → n ≤ length s → length (take n s) ≡ n
  length-take zero s h = refl
  length-take (suc n) [] h = absurd (omega (arith, h))
  length-take (suc n) (c ∷ s) h = omega (arith, length-take n s (omega (arith, h)))

  take-AreVisible : (n : ℕ) (s : Bytes) → AreVisible s → AreVisible (take n s)
  take-AreVisible zero s h = tt
  take-AreVisible (suc n) [] h = tt
  take-AreVisible (suc n) (c ∷ s) h = (h.0, take-AreVisible n s h.1)

  -- What `stringify` gives has no control character, if floats are printed without one. A printed
  -- text that is longer than a positive limit is cut to that many bytes, followed by
  -- "...(truncated)", and is 14 bytes longer than the limit; any other is given whole.
  pub stringify-AreVisible :
      (limit : ℕ) (a : Any)
      → AreVisible (stringify print_float limit a)
        × (0 < limit
            → limit < length (print print_float a.object)
            → (length (take limit (print print_float a.object)) ≡ limit)
              × (stringify print_float limit a
                  ≡ take limit (print print_float a.object) ++ codes "...(truncated)"))
        × ((limit ≡ 0) ⊎ length (print print_float a.object) ≤ limit
            → stringify print_float limit a ≡ print print_float a.object)
  unfolding stringify is_visible
  stringify-AreVisible limit a =
      let s = print print_float a.object in
      let cut = codes "...(truncated)" in
      if_lem
        (λ t.
          AreVisible t
          × (0 < limit
              → limit < length s
              → (length (take limit s) ≡ limit) × (t ≡ take limit s ++ cut))
          × ((limit ≡ 0) ⊎ length s ≤ limit → t ≡ s))
        (ltb 0 limit && ltb limit (length s)) (take limit s ++ cut) s
        (λ e. (
          append (take limit s) cut (take-AreVisible limit s (print-AreVisible a.object))
              (is_visible-AreVisible cut refl),
          λ h more. (length-take limit s (ground (arith, e)), refl),
          λ h. absurd (ground (arith, e, h)),
        ))
        (λ e. (print-AreVisible a.object, λ h more. absurd (ground (arith, e, h, more)), λ h. refl))
