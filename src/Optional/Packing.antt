-- ===== src/Optional/Packing.antt =====
-- An `optional` is packed and unpacked (include/linear/optional.h).
use linear_cpp.Prelude.{ℕ, ◌≡◌, refl, sym, ap, ◌∙◌, Bool, true, false, Option, none, some, if_lem}
use linear_cpp.Any
use linear_cpp.Any.{
  Object, nil, boolean, positive_integer, negative_integer, float32, float64, str, bin, ext, array,
  map, Objects, no_items, item, Pairs, no_pairs, pair, is_nil_object,
}
use linear_cpp.Any.Copying.{content, content-copy}
use linear_cpp.Optional.{Optional, copy_msgpack_object, copy_each, copy_pairs, value, pack, unpack}

mutual
  unfolding copy_msgpack_object Any.copy_msgpack_object

  -- The copy of `optional` is that of `any`, on every object.
  pub copy-any : (z : ℕ) (o : Object) → copy_msgpack_object z o ≡ Any.copy_msgpack_object z o
  copy-any z nil = refl
  copy-any z (boolean b) = refl
  copy-any z (positive_integer n) = refl
  copy-any z (negative_integer n) = refl
  copy-any z (float32 n) = refl
  copy-any z (float64 n) = refl
  copy-any z (str y s) = refl
  copy-any z (bin y s) = refl
  copy-any z (ext y t s) = refl
  copy-any z (array y xs) = ap (array z) (copy_each-any z xs)
  copy-any z (map y ps) = ap (map z) (copy_pairs-any z ps)

  copy_each-any : (z : ℕ) (xs : Objects) → copy_each z xs ≡ Any.copy_each z xs
  copy_each-any z no_items = refl
  copy_each-any z (item x xs) = rw (copy-any z x, copy_each-any z xs) refl

  copy_pairs-any : (z : ℕ) (ps : Pairs) → copy_pairs z ps ≡ Any.copy_pairs z ps
  copy_pairs-any z no_pairs = refl
  copy_pairs-any z (pair k v ps) = rw (copy-any z k, copy-any z v, copy_pairs-any z ps) refl

is_nil-copy : (z : ℕ) (o : Object) → is_nil_object (copy_msgpack_object z o) ≡ is_nil_object o
unfolding copy_msgpack_object is_nil_object
is_nil-copy z nil = refl
is_nil-copy z (boolean b) = refl
is_nil-copy z (positive_integer n) = refl
is_nil-copy z (negative_integer n) = refl
is_nil-copy z (float32 n) = refl
is_nil-copy z (float64 n) = refl
is_nil-copy z (str y s) = refl
is_nil-copy z (bin y s) = refl
is_nil-copy z (ext y t s) = refl
is_nil-copy z (array y xs) = refl
is_nil-copy z (map y ps) = refl

module _ {T : Type 0} (to_object : ℕ → T → Object) (convert : Object → Option T) where
  -- How MessagePack treats the values: the object of one converts back to it, a conversion reads the
  -- content of an object and not where its memory is, and the object of no value is nil.
  pub record IsConverted : Type 0 where
    pub back : (y : ℕ) (v : T) → convert (to_object y v) ≡ some v
    pub by_content : (o o' : Object) → content o ≡ content o' → convert o ≡ convert o'
    pub some_object : (y : ℕ) (v : T) → is_nil_object (to_object y v) ≡ false

  unpack-some :
      (object : Object) (v : T) (b : Optional T)
      → is_nil_object object ≡ false
      → convert object ≡ some v
      → unpack convert object b ≡ (record { initialized = true; value = v }, true)
  unfolding unpack
  unpack-some object v b e h = rw (e, h) refl

  unpack-nil : (b : Optional T) → unpack convert nil b ≡ (record b { initialized = false }, true)
  unfolding unpack is_nil_object
  unpack-nil b = refl

  value-some : (a : Optional T) → a.initialized ≡ true → value a ≡ some a.value
  unfolding value
  value-some a e = rw e refl

  value-none : (a : Optional T) → a.initialized ≡ false → value a ≡ none
  unfolding value
  value-none a e = rw e refl

  IsRestored : Optional T → Optional T × Bool → Type 0
  IsRestored a r = (value r.0 ≡ value a) × (r.1 ≡ true)

  -- What is packed into one zone and unpacked has the view of what was packed, whatever the
  -- `optional` held before, and no conversion throws; for values whose objects convert back to them.
  pub unpack-pack :
      IsConverted
      → (z : ℕ) (a b : Optional T)
      → (value (unpack convert (pack to_object z a) b).0 ≡ value a)
        × ((unpack convert (pack to_object z a) b).1 ≡ true)
  unfolding pack IsRestored
  unpack-pack h z a b =
      if_lem (λ object. IsRestored a (unpack convert object b)) a.initialized
        (copy_msgpack_object z (to_object z a.value)) nil
        (λ e.
          let object = copy_msgpack_object z (to_object z a.value) in
          let unpacked =
            unpack-some object a.value b
              (is_nil-copy z (to_object z a.value) ∙ h.some_object z a.value)
              (h.by_content object (to_object z a.value) (
                  ap content (copy-any z (to_object z a.value))
                  ∙ content-copy z (to_object z a.value))
                ∙ h.back z a.value) in
          (
            ap (λ r. value r.0) unpacked
                ∙ value-some (record { initialized = true; value = a.value }) refl
                ∙ sym (value-some a e),
            ap (λ r. r.1) unpacked,
          ))
        (λ e. (
          ap (λ r. value r.0) (unpack-nil b)
              ∙ value-none (record b { initialized = false }) refl
              ∙ sym (value-none a e),
          ap (λ r. r.1) (unpack-nil b),
        ))
