-- ===== src/Auth/Splitting.antt =====
-- `Split` undoes the writing of parts with a separator between them (src/auth_context_impl.cpp).
use linear_cpp.Prelude.{
  ℕ, ◌≡◌, ◌≢◌, refl, false, List, [], ◌∷◌, ◌++◌, append_assoc, append-nil, arith, All, Bytes,
  is_empty,
}
use linear_cpp.Auth.Fields.{cut, split}

-- The separator does not occur in the text.
abbrev pub Lacks : ℕ → Bytes → Type 0
Lacks c s = All (λ x. x ≢ c) s

-- The parts with a separator between any two.
abbrev pub joined : ℕ → List Bytes → Bytes
joined sep [] = []
joined sep (p ∷ []) = p
joined sep (p ∷ q ∷ ps) = p ++ sep ∷ joined sep (q ∷ ps)

abbrev NonEmpty : Bytes → Type 0
NonEmpty s = is_empty s ≡ false

cut-Lacks : (sep : ℕ) (p cur : Bytes) → Lacks sep p → cut sep cur p ≡ (cur ++ p) ∷ []
unfolding cut
cut-Lacks sep [] cur h = rw append-nil
cut-Lacks sep (c ∷ p) cur h =
    ground (arith, cut-Lacks sep p (cur ++ c ∷ []) h.1, append_assoc cur (c ∷ []) p)

cut-append :
    (sep : ℕ) (p s cur : Bytes)
    → Lacks sep p
    → NonEmpty s
    → cut sep cur (p ++ sep ∷ s) ≡ (cur ++ p) ∷ cut sep [] s
unfolding cut
cut-append sep [] s cur h e = ground (arith, append-nil cur)
cut-append sep (c ∷ p) s cur h e =
    ground (arith, cut-append sep p s (cur ++ c ∷ []) h.1 e, append_assoc cur (c ∷ []) p)

split-cut : (sep : ℕ) (s : Bytes) → NonEmpty s → split s sep ≡ cut sep [] s
unfolding split
split-cut sep s e = rw e

-- Two parts.
pub split_two :
    (sep : ℕ) (p s : Bytes)
    → Lacks sep p
    → Lacks sep s
    → NonEmpty s
    → split (p ++ sep ∷ s) sep ≡ p ∷ s ∷ []
split_two sep p s hp hs e =
    rw
      (split-cut sep (p ++ sep ∷ s) (nonempty p), cut-append sep p s [] hp e, cut-Lacks sep s [] hs)
  where
    nonempty : (q : Bytes) → NonEmpty (q ++ sep ∷ s)
    nonempty [] = refl
    nonempty (c ∷ q) = refl

abbrev pub AreParts : ℕ → List Bytes → Type 0
AreParts sep ps = All (λ p. Lacks sep p × NonEmpty p) ps

joined-NonEmpty :
    (sep : ℕ) (p : Bytes) (ps : List Bytes) → NonEmpty p → NonEmpty (joined sep (p ∷ ps))
joined-NonEmpty sep p [] h = h
joined-NonEmpty sep [] (q ∷ ps) h = cc
joined-NonEmpty sep (c ∷ p) (q ∷ ps) h = refl

cut-joined :
    (sep : ℕ) (p : Bytes) (ps : List Bytes)
    → AreParts sep (p ∷ ps)
    → cut sep [] (joined sep (p ∷ ps)) ≡ p ∷ ps
cut-joined sep p [] h = cut-Lacks sep p [] h.0.0
cut-joined sep p (q ∷ ps) h = rw (
  cut-append sep p (joined sep (q ∷ ps)) [] h.0.0 (joined-NonEmpty sep q ps h.1.0.1),
  cut-joined sep q ps h.1,
)

-- Parts that are not empty and hold no separator are read back.
pub split-joined : (sep : ℕ) (ps : List Bytes) → AreParts sep ps → split (joined sep ps) sep ≡ ps
split-joined sep [] h = unfold split in refl
split-joined sep (p ∷ ps) h =
    rw (split-cut sep (joined sep (p ∷ ps)) (joined-NonEmpty sep p ps h.0.1))
      (cut-joined sep p ps h)
