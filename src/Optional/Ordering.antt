-- ===== src/Optional/Ordering.antt =====
-- The order of `optional` (include/linear/optional.h).
use linear_cpp.Prelude.{◌≡◌, Bool, true, false, arith}
use linear_cpp.Ordered.{StrictOrder}
use linear_cpp.Optional.{Optional, eq_optional, lt_optional}

module _ {T : Type 0} (o : StrictOrder T) (eq : T → T → Bool)
    (eq_sound : (a b : T) → eq a b ≡ true → a ≡ b) (eq_refl : (a : T) → eq a a ≡ true) where
  eq-lt : (x y : T) → eq x y ≡ true → o.lt x y ≡ false
  eq-lt x y h = rw (eq_sound x y h) (o.lt_irrefl y)

  lt-eq : (x y : T) → o.lt x y ≡ false → o.lt y x ≡ false → eq x y ≡ true
  lt-eq x y h k = rw (o.lt_total x y h k) (eq_refl y)

  -- `operator<` of `optional` is a strict order, and of two that are neither less nor greater
  -- `operator==` says that they are equal, if both operators of the values are such.
  pub optional_order :
      (a b c : Optional T)
      → (lt_optional eq o.lt a a ≡ false)
        × (lt_optional eq o.lt a b ≡ true
            → lt_optional eq o.lt b c ≡ true
            → lt_optional eq o.lt a c ≡ true)
        × (eq_optional eq o.lt a b ≡ true → lt_optional eq o.lt a b ≡ false)
        × (lt_optional eq o.lt a b ≡ false
            → lt_optional eq o.lt b a ≡ false
            → eq_optional eq o.lt a b ≡ true)
  unfolding eq_optional lt_optional
  optional_order a b c = (
    ground (arith, o.lt_irrefl a.value),
    ground (arith, o.lt_trans a.value b.value c.value),
    ground (arith, eq-lt a.value b.value),
    ground (arith, lt-eq a.value b.value),
  )
