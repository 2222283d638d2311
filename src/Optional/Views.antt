-- ===== src/Optional/Views.antt =====
-- What an `optional` shows (include/linear/optional.h): the value of a disengaged one is not seen.
use mathlib.Core.Option.{get_or}
use linear_cpp.Prelude.{◌≡◌, refl, Bool, true, false, Option, none, some, arith}
use linear_cpp.Optional.{
  Optional, new, copy, from_value, assign_nil, assign, assign_value, value, value_or, eq_optional,
  lt_optional, eq_value, lt_value, eq_nil, nil_eq, lt_nil, nil_lt,
}

module _ {T : Type 0} (eq lt : T → T → Bool) where
  -- Equality and order of `Option`, with `none` first.
  abbrev pub eq_option : Option T → Option T → Bool
  eq_option none none = true
  eq_option none (some b) = false
  eq_option (some a) none = false
  eq_option (some a) (some b) = eq a b

  abbrev pub lt_option : Option T → Option T → Bool
  lt_option none none = false
  lt_option none (some b) = true
  lt_option (some a) none = false
  lt_option (some a) (some b) = lt a b

  -- The view of an `optional` is an `Option`, `value`: the constructors, copies and assignments give
  -- the view that they should, and `value_or` and all comparisons depend on the views alone, for any
  -- equality and order of the values. Of two, and with a value, `==` and `<` are those of `Option`,
  -- and so are `opt == nil` and `nil < opt`; but `nil == opt` is always false, and `opt < nil` is true
  -- exactly for a disengaged `opt`, where an `Option` says the reverse.
  pub optional_view :
      (default v : T) (a b : Optional T)
      → (value (new default) ≡ none)
        × (value (from_value v) ≡ some v)
        × (value (copy default a) ≡ value a)
        × (value (assign_nil a) ≡ none)
        × (value (assign b a) ≡ value b)
        × (value (assign_value v a) ≡ some v)
        × (value_or v a ≡ get_or (value a) v)
        × (eq_optional eq lt a b ≡ eq_option (value a) (value b))
        × (lt_optional eq lt a b ≡ lt_option (value a) (value b))
        × (eq_value eq lt a v ≡ eq_option (value a) (some v))
        × (lt_value eq lt a v ≡ lt_option (value a) (some v))
        × (eq_nil a ≡ eq_option (value a) none)
        × (nil_lt a ≡ lt_option none (value a))
        × (nil_eq a ≡ false)
        × (lt_nil a ≡ eq_option (value a) none)
        × (lt_option (value a) none ≡ false)
  unfolding value new from_value copy assign_nil assign assign_value value_or eq_optional
      lt_optional eq_value lt_value eq_nil nil_eq lt_nil nil_lt
  optional_view default v a b = (
    refl,
    refl,
    ground arith,
    refl,
    ground arith,
    refl,
    ground arith,
    ground arith,
    ground arith,
    ground arith,
    ground arith,
    ground arith,
    ground arith,
    refl,
    ground arith,
    ground arith,
  )
