-- ===== src/Optional.antt =====
-- include/linear/optional.h: a value that may be nil. The value of a disengaged `optional` stays as
-- it was. The conversions of the type (`o.convert(value_)`, `msgpack::object(value_, z)`) and its
-- operators are arguments.
pub mod Views
pub mod Ordering
pub mod Packing
use linear_cpp.Prelude.{ℕ, Bool, true, false, not, ◌&&◌, Option, none, some, if◌then◌else◌}
use linear_cpp.Any.{
  Object, nil, boolean, positive_integer, negative_integer, float32, float64, str, bin, ext, array,
  map, Objects, no_items, item, Pairs, no_pairs, pair, is_nil_object,
}

pub record Optional {ℓ} (T : Type ℓ) : Type ℓ where
  pub initialized : Bool
  pub value : T

-- `optional::copy_msgpack_object`.
unfoldable mutual
  pub copy_msgpack_object : ℕ → Object → Object
  copy_msgpack_object z nil = nil
  copy_msgpack_object z (boolean b) = boolean b
  copy_msgpack_object z (positive_integer n) = positive_integer n
  copy_msgpack_object z (negative_integer n) = negative_integer n
  copy_msgpack_object z (float32 n) = float32 n
  copy_msgpack_object z (float64 n) = float64 n
  copy_msgpack_object z (bin y s) = bin z s
  copy_msgpack_object z (str y s) = str z s
  copy_msgpack_object z (ext y t s) = ext z t s
  copy_msgpack_object z (array y xs) = array z (copy_each z xs)
  copy_msgpack_object z (map y ps) = map z (copy_pairs z ps)

  pub copy_each : ℕ → Objects → Objects
  copy_each z no_items = no_items
  copy_each z (item x xs) = item (copy_msgpack_object z x) (copy_each z xs)

  pub copy_pairs : ℕ → Pairs → Pairs
  copy_pairs z no_pairs = no_pairs
  copy_pairs z (pair k v ps) =
      pair (copy_msgpack_object z k) (copy_msgpack_object z v) (copy_pairs z ps)

-- `!=` of two bools.
abbrev pub differ : Bool → Bool → Bool
differ true b = not b
differ false b = b

module _ {ℓ} {T : Type ℓ} where
  -- `optional()` and `optional(nil)`, with what `T()` gives.
  unfoldable pub new : T → Optional T
  new default = record { initialized = false; value = default }

  -- `optional(other)`.
  unfoldable pub copy : T → Optional T → Optional T
  copy default other = record {
    initialized = other.initialized;
    value = if other.initialized then other.value else default;
  }

  -- `optional(v)`.
  unfoldable pub from_value : T → Optional T
  from_value v = record { initialized = true; value = v }

  -- `operator=(nil)`.
  unfoldable pub assign_nil : Optional T → Optional T
  assign_nil o = record o { initialized = false }

  -- `operator=(v)` of another `optional`.
  unfoldable pub assign : Optional T → Optional T → Optional T
  assign v o =
      if not o.initialized && not v.initialized
      then o
      else if o.initialized && not v.initialized
      then record o { initialized = false }
      else record { initialized = true; value = v.value }

  -- `operator=(v)` of a value.
  unfoldable pub assign_value : T → Optional T → Optional T
  assign_value v o = record { initialized = true; value = v }

  -- `value()`; `none` is a `logic_error`.
  unfoldable pub value : Optional T → Option T
  value o = if o.initialized then some o.value else none

  unfoldable pub value_or : T → Optional T → T
  value_or v o = if o.initialized then o.value else v

  -- `msgpack_unpack`: false beside it if `convert` throws.
  unfoldable pub unpack : (Object → Option T) → Object → Optional T → Optional T × Bool
  unpack convert object o =
      if is_nil_object object
      then (record o { initialized = false }, true)
      else elim (convert object) [
        | none ↦ (record o { initialized = true }, false)
        | some v ↦ (record { initialized = true; value = v }, true)
      ]

  -- `msgpack_object` into a zone.
  unfoldable pub pack : (ℕ → T → Object) → ℕ → Optional T → Object
  pack to_object z o = if o.initialized then copy_msgpack_object z (to_object z o.value) else nil

  module _ (eq lt : T → T → Bool) where
    -- `operator==` and `operator<` of two.
    unfoldable pub eq_optional : Optional T → Optional T → Bool
    eq_optional a b =
        if differ a.initialized b.initialized
        then false
        else if not a.initialized && not b.initialized
        then true
        else eq a.value b.value

    unfoldable pub lt_optional : Optional T → Optional T → Bool
    lt_optional a b =
        if not b.initialized then false else if not a.initialized then true else lt a.value b.value

    -- The operators of an `optional` with a value.
    unfoldable pub eq_value : Optional T → T → Bool
    eq_value o v = if o.initialized then eq o.value v else false

    unfoldable pub lt_value : Optional T → T → Bool
    lt_value o v = if o.initialized then lt o.value v else true

  -- The operators of an `optional` with nil, on its left and on its right.
  unfoldable pub eq_nil : Optional T → Bool
  eq_nil o = not o.initialized

  unfoldable pub nil_eq : Optional T → Bool
  nil_eq o = false

  unfoldable pub lt_nil : Optional T → Bool
  lt_nil o = not o.initialized

  unfoldable pub nil_lt : Optional T → Bool
  nil_lt o = o.initialized
