-- ===== src/Any/Copying.antt =====
-- A copy has the content of its source and memory of its own (include/linear/any.h).
use linear_cpp.Prelude.{
  ℕ, ◌≡◌, ◌≢◌, refl, ap, Bool, true, false, ◌&&◌, not, Option, none, some, arith, ◌==◌, ==_iff,
  Bool-cases, inl, inr, Bytes, is_empty,
}
use linear_cpp.Prelude.Int.{ℤ}
use linear_cpp.Any.{
  Object, nil, boolean, positive_integer, negative_integer, float32, float64, str, bin, ext, array,
  map, Objects, no_items, item, Pairs, no_pairs, pair, kind_of, copy_msgpack_object, copy_each,
  copy_pairs, reads, reads_each, reads_pairs, has_no_items, has_no_pairs, Any, from_object, assign,
}

-- An object without the places of its memory.
mutual
  pub data Value : Type 0 where
    empty : Value
    truth : Bool → Value
    natural : ℕ → Value
    integer : ℤ → Value
    single double : ℕ → Value
    text bytes : Bytes → Value
    typed : ℕ → Bytes → Value
    list : Values → Value
    table : Entries → Value

  pub data Values : Type 0 where
    done : Values
    cons : Value → Values → Values

  pub data Entries : Type 0 where
    done_entries : Entries
    entry : Value → Value → Entries → Entries

unfoldable mutual
  pub content : Object → Value
  content nil = empty
  content (boolean b) = truth b
  content (positive_integer n) = natural n
  content (negative_integer n) = integer n
  content (float32 n) = single n
  content (float64 n) = double n
  content (str z s) = text s
  content (bin z s) = bytes s
  content (ext z t s) = typed t s
  content (array z xs) = list (content_each xs)
  content (map z ps) = table (content_pairs ps)

  pub content_each : Objects → Values
  content_each no_items = done
  content_each (item x xs) = cons (content x) (content_each xs)

  pub content_pairs : Pairs → Entries
  content_pairs no_pairs = done_entries
  content_pairs (pair k v ps) = entry (content k) (content v) (content_pairs ps)

mutual
  unfolding content copy_msgpack_object

  pub content-copy : (z : ℕ) (o : Object) → content (copy_msgpack_object z o) ≡ content o
  content-copy z (array y xs) = ap list (content-copy_each z xs)
  content-copy z (map y ps) = ap table (content-copy_pairs z ps)
  content-copy z nil = refl
  content-copy z (boolean b) = refl
  content-copy z (positive_integer n) = refl
  content-copy z (negative_integer n) = refl
  content-copy z (float32 n) = refl
  content-copy z (float64 n) = refl
  content-copy z (str y s) = refl
  content-copy z (bin y s) = refl
  content-copy z (ext y t s) = refl

  content-copy_each : (z : ℕ) (xs : Objects) → content_each (copy_each z xs) ≡ content_each xs
  content-copy_each z no_items = refl
  content-copy_each z (item x xs) = rw (content-copy z x, content-copy_each z xs)

  content-copy_pairs : (z : ℕ) (ps : Pairs) → content_pairs (copy_pairs z ps) ≡ content_pairs ps
  content-copy_pairs z no_pairs = refl
  content-copy_pairs z (pair k v ps) =
      rw (content-copy z k, content-copy z v, content-copy_pairs z ps)

apart : (y z : ℕ) (b : Bool) → y ≢ z → (y == z && b) ≡ false
apart y z b h = ground (arith, ==_iff y z)

mutual
  unfolding reads copy_msgpack_object

  reads-copy : (y z : ℕ) (o : Object) → y ≢ z → reads y (copy_msgpack_object z o) ≡ false
  reads-copy y z (array x xs) h =
      rw (apart y z (not (has_no_items (copy_each z xs))) h) (reads-copy_each y z xs h)
  reads-copy y z (map x ps) h =
      rw (apart y z (not (has_no_pairs (copy_pairs z ps))) h) (reads-copy_pairs y z ps h)
  reads-copy y z nil h = refl
  reads-copy y z (boolean b) h = refl
  reads-copy y z (positive_integer n) h = refl
  reads-copy y z (negative_integer n) h = refl
  reads-copy y z (float32 n) h = refl
  reads-copy y z (float64 n) h = refl
  reads-copy y z (str x s) h = apart y z (not (is_empty s)) h
  reads-copy y z (bin x s) h = apart y z (not (is_empty s)) h
  reads-copy y z (ext x t s) h = ground (arith, ==_iff y z)

  reads-copy_each : (y z : ℕ) (xs : Objects) → y ≢ z → reads_each y (copy_each z xs) ≡ false
  reads-copy_each y z no_items h = refl
  reads-copy_each y z (item x xs) h = rw (reads-copy y z x h) (reads-copy_each y z xs h)

  reads-copy_pairs : (y z : ℕ) (ps : Pairs) → y ≢ z → reads_pairs y (copy_pairs z ps) ≡ false
  reads-copy_pairs y z no_pairs h = refl
  reads-copy_pairs y z (pair k v ps) h =
      rw (reads-copy y z k h, reads-copy y z v h) (reads-copy_pairs y z ps h)

kind_of-copy : (z : ℕ) (o : Object) → kind_of (copy_msgpack_object z o) ≡ kind_of o
unfolding copy_msgpack_object
kind_of-copy z nil = refl
kind_of-copy z (boolean b) = refl
kind_of-copy z (positive_integer n) = refl
kind_of-copy z (negative_integer n) = refl
kind_of-copy z (float32 n) = refl
kind_of-copy z (float64 n) = refl
kind_of-copy z (str y s) = refl
kind_of-copy z (bin y s) = refl
kind_of-copy z (ext y t s) = refl
kind_of-copy z (array y xs) = refl
kind_of-copy z (map y ps) = refl

-- A value made from an object: its content and its kind, in memory of its own zone alone.
pub record IsCopyOf (o : Object) (zone : ℕ) (a : Any) : Type 0 where
  pub in_zone : a.zone ≡ zone
  pub same_content : content a.object ≡ content o
  pub same_kind : a.kind ≡ kind_of o
  pub own_memory : (y : ℕ) → y ≢ zone → reads y a.object ≡ false

from_object-IsCopyOf : (z : ℕ) (o : Object) → IsCopyOf o z (from_object z o)
unfolding from_object
from_object-IsCopyOf z o = record {
  in_zone = refl;
  same_content = content-copy z o;
  same_kind = kind_of-copy z o;
  own_memory = λ y h. reads-copy y z o h;
}

-- What an assignment leaves.
abbrev pub IsAssigned : Object → Any → Option Any → Type 0
IsAssigned o a none = reads a.zone o ≡ true
IsAssigned o a (some a') = IsCopyOf o a.zone a'

-- An assignment to a value gives it the content and the kind of the object, in memory of its own
-- zone alone, but if the object has memory in that zone: then the copy reads what the zone has given
-- back.
pub assign-IsAssigned : (a : Any) (o : Object) → IsAssigned o a (assign a o)
unfolding assign
assign-IsAssigned a o = elim (Bool-cases (reads a.zone o)) [
  | inl e ↦ rw e e
  | inr e ↦ rw e (from_object-IsCopyOf a.zone o)
]

-- Has the object memory of its own?
unfoldable pub has_memory : Object → Bool
has_memory (str z s) = not (is_empty s)
has_memory (bin z s) = not (is_empty s)
has_memory (ext z t s) = true
has_memory (array z no_items) = false
has_memory (array z (item x xs)) = true
has_memory (map z no_pairs) = false
has_memory (map z (pair k v ps)) = true
has_memory _ = false

reads_self : (z : ℕ) (o : Object) → has_memory o ≡ true → reads z (copy_msgpack_object z o) ≡ true
unfolding reads copy_msgpack_object has_memory
reads_self z (str y s) h = ground (arith, ==_iff z z, h)
reads_self z (bin y s) h = ground (arith, ==_iff z z, h)
reads_self z (ext y t s) h = ground (arith, ==_iff z z, h)
reads_self z (array y no_items) h = cc
reads_self z (array y (item x xs)) h = ground (arith, ==_iff z z)
reads_self z (map y no_pairs) h = cc
reads_self z (map y (pair k v ps)) h = ground (arith, ==_iff z z)
reads_self z nil h = cc
reads_self z (boolean b) h = cc
reads_self z (positive_integer n) h = cc
reads_self z (negative_integer n) h = cc
reads_self z (float32 n) h = cc
reads_self z (float64 n) h = cc

-- A value that was made from an object with memory (a text, a binary or an array or map that is not
-- empty, or an extension) and is assigned to itself is copied from what its zone has given back.
pub assign_self :
    (z : ℕ) (o : Object)
    → has_memory o ≡ true
    → assign (from_object z o) (from_object z o).object ≡ none
unfolding assign from_object
assign_self z o h = rw (reads_self z o h) refl
