-- ===== src/Ordered/Map.antt =====
-- `std::map<K, V>`.
use linear_cpp.Prelude.{
  ◌≡◌, refl, true, false, List, [], ◌∷◌, Option, none, some, arith, if◌then◌else◌,
}
use mathlib.Core.Option.{get_or}
use linear_cpp.Ordered.{StrictOrder, same_key}

module _ {ℓ κ} {K : Type ℓ} {V : Type κ} ⦃o : StrictOrder K⦄ where
  -- `find`.
  unfoldable pub find : K → List (K × V) → Option V
  find k [] = none
  find k ((j, v) ∷ m) = if o.lt k j then none else if o.lt j k then find k m else some v

  -- `m[k] = f(m[k])`, where a missing key is first given the value `d`. With `f` the identity it
  -- is `m[k]` alone, and `insert(make_pair(k, d))`, which keeps a key that is there.
  unfoldable pub modify : K → V → (V → V) → List (K × V) → List (K × V)
  modify k d f [] = (k, f d) ∷ []
  modify k d f ((j, v) ∷ m) =
      if o.lt k j
      then (k, f d) ∷ (j, v) ∷ m
      else if o.lt j k
      then (j, v) ∷ modify k d f m
      else (j, f v) ∷ m

  -- `erase(k)`.
  unfoldable pub erase : K → List (K × V) → List (K × V)
  erase k [] = []
  erase k ((j, v) ∷ m) = if o.lt k j then (j, v) ∷ m else if o.lt j k then (j, v) ∷ erase k m else m

  -- Every key is above `k`.
  abbrev pub Above : K → List (K × V) → Type 0
  Above k [] = Unit
  Above k ((j, v) ∷ m) = (o.lt k j ≡ true) × Above k m

  -- The keys increase strictly.
  abbrev pub IsOrdered : List (K × V) → Type 0
  IsOrdered [] = Unit
  IsOrdered ((k, v) ∷ m) = Above k m × IsOrdered m

  pub find-modify :
      (j k : K) (d : V) (f : V → V) (m : List (K × V))
      → find j (modify k d f m)
        ≡ (if same_key j k then some (f (get_or (find k m) d)) else find j m)
  unfolding find modify
  find-modify j k d f [] = ground arith
  find-modify j k d f ((i, v) ∷ m) = ground (
    arith,
    find-modify j k d f m,
    o.lt_trans j k i,
    o.lt_trans k i k,
    o.lt_trans i j i,
    o.lt_trans i k i,
    o.lt_irrefl k,
    o.lt_irrefl i,
    o.lt_total j k,
    o.lt_total i k,
    o.lt_total j i,
  )

  find-Above : (j k : K) (m : List (K × V)) → Above k m → o.lt k j ≡ false → find j m ≡ none
  unfolding find
  find-Above j k [] h lt = refl
  find-Above j k ((i, v) ∷ m) h lt =
      ground (arith, o.lt_trans k i j, o.lt_total i j, find-Above j k m h.1)

  pub find-erase :
      (j k : K) (m : List (K × V))
      → IsOrdered m
      → find j (erase k m) ≡ (if same_key j k then none else find j m)
  unfolding find erase
  find-erase j k [] h = ground arith
  find-erase j k ((i, v) ∷ m) h = ground (
    arith,
    find-erase j k m h.1,
    find-Above j i m h.0,
    o.lt_trans j k i,
    o.lt_trans i j i,
    o.lt_trans i k i,
    o.lt_irrefl i,
    o.lt_total j k,
    o.lt_total i k,
    o.lt_total j i,
  )

  Above-trans : (j k : K) (m : List (K × V)) → o.lt j k ≡ true → Above k m → Above j m
  Above-trans j k [] h a = tt
  Above-trans j k ((i, v) ∷ m) h a = (o.lt_trans j k i h a.0, Above-trans j k m h a.1)

  Above-modify :
      (i k : K) (d : V) (f : V → V) (m : List (K × V))
      → o.lt i k ≡ true
      → Above i m
      → Above i (modify k d f m)
  unfolding modify
  Above-modify i k d f [] h a = (h, tt)
  Above-modify i k d f ((j, v) ∷ m) h a = ground (arith, Above-modify i k d f m h a.1)

  pub modify-IsOrdered :
      (k : K) (d : V) (f : V → V) (m : List (K × V)) → IsOrdered m → IsOrdered (modify k d f m)
  unfolding modify
  modify-IsOrdered k d f [] h = (tt, tt)
  modify-IsOrdered k d f ((j, v) ∷ m) h =
      ground (arith, Above-trans k j m, Above-modify j k d f m, modify-IsOrdered k d f m h.1)

  Above-erase : (i k : K) (m : List (K × V)) → Above i m → Above i (erase k m)
  unfolding erase
  Above-erase i k [] a = tt
  Above-erase i k ((j, v) ∷ m) a = ground (arith, Above-erase i k m a.1)

  pub erase-IsOrdered : (k : K) (m : List (K × V)) → IsOrdered m → IsOrdered (erase k m)
  unfolding erase
  erase-IsOrdered k [] h = tt
  erase-IsOrdered k ((j, v) ∷ m) h = ground (arith, Above-erase j k m h.0, erase-IsOrdered k m h.1)
