-- ===== src/Ordered/Set.antt =====
-- `std::set<K>`.
use linear_cpp.Prelude.{
  ◌≡◌, refl, Bool, true, false, List, [], ◌∷◌, arith, if◌then◌else◌, ◌||◌, ◌&&◌, not,
}
use linear_cpp.Ordered.{StrictOrder, same_key}

module _ {ℓ} {K : Type ℓ} ⦃o : StrictOrder K⦄ where
  -- `find(k) != end()`.
  unfoldable pub contains : K → List K → Bool
  contains k [] = false
  contains k (j ∷ s) = if o.lt k j then false else if o.lt j k then contains k s else true

  unfoldable pub insert : K → List K → List K
  insert k [] = k ∷ []
  insert k (j ∷ s) = if o.lt k j then k ∷ j ∷ s else if o.lt j k then j ∷ insert k s else j ∷ s

  unfoldable pub erase : K → List K → List K
  erase k [] = []
  erase k (j ∷ s) = if o.lt k j then j ∷ s else if o.lt j k then j ∷ erase k s else s

  abbrev pub Above : K → List K → Type 0
  Above k [] = Unit
  Above k (j ∷ s) = (o.lt k j ≡ true) × Above k s

  abbrev pub IsOrdered : List K → Type 0
  IsOrdered [] = Unit
  IsOrdered (k ∷ s) = Above k s × IsOrdered s

  pub contains-insert :
      (j k : K) (s : List K) → contains j (insert k s) ≡ (same_key j k || contains j s)
  unfolding contains insert
  contains-insert j k [] = ground arith
  contains-insert j k (i ∷ s) = ground (
    arith,
    contains-insert j k s,
    o.lt_trans j k i,
    o.lt_trans i k i,
    o.lt_irrefl i,
    o.lt_total j k,
    o.lt_total i k,
    o.lt_total j i,
  )

  pub contains-Above : (j k : K) (s : List K) → Above k s → o.lt k j ≡ false → contains j s ≡ false
  unfolding contains
  contains-Above j k [] h lt = refl
  contains-Above j k (i ∷ s) h lt =
      ground (arith, o.lt_trans k i j, o.lt_total i j, contains-Above j k s h.1)

  pub contains-erase :
      (j k : K) (s : List K)
      → IsOrdered s
      → contains j (erase k s) ≡ (not (same_key j k) && contains j s)
  unfolding contains erase
  contains-erase j k [] h = ground arith
  contains-erase j k (i ∷ s) h = ground (
    arith,
    contains-erase j k s h.1,
    contains-Above j i s h.0,
    o.lt_trans j k i,
    o.lt_trans i j i,
    o.lt_trans i k i,
    o.lt_irrefl i,
    o.lt_total j k,
    o.lt_total i k,
    o.lt_total j i,
  )

  Above-insert : (i k : K) (s : List K) → o.lt i k ≡ true → Above i s → Above i (insert k s)
  unfolding insert
  Above-insert i k [] h a = (h, tt)
  Above-insert i k (j ∷ s) h a = ground (arith, Above-insert i k s h a.1)

  Above-trans : (j k : K) (s : List K) → o.lt j k ≡ true → Above k s → Above j s
  Above-trans j k [] h a = tt
  Above-trans j k (i ∷ s) h a = (o.lt_trans j k i h a.0, Above-trans j k s h a.1)

  pub insert-IsOrdered : (k : K) (s : List K) → IsOrdered s → IsOrdered (insert k s)
  unfolding insert
  insert-IsOrdered k [] h = (tt, tt)
  insert-IsOrdered k (j ∷ s) h =
      ground (arith, Above-trans k j s, Above-insert j k s, insert-IsOrdered k s h.1)

  Above-erase : (i k : K) (s : List K) → Above i s → Above i (erase k s)
  unfolding erase
  Above-erase i k [] a = tt
  Above-erase i k (j ∷ s) a = ground (arith, Above-erase i k s a.1)

  pub erase-IsOrdered : (k : K) (s : List K) → IsOrdered s → IsOrdered (erase k s)
  unfolding erase
  erase-IsOrdered k [] h = tt
  erase-IsOrdered k (j ∷ s) h = ground (arith, Above-erase j k s h.0, erase-IsOrdered k s h.1)
