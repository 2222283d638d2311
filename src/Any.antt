-- ===== src/Any.antt =====
-- include/linear/any.h, include/linear/binary.h and include/linear/nil.h: values of any type. An
-- object of MessagePack is a tree. What lies in memory of its own (the bytes of a text, the elements
-- of an array) has the zone that holds it beside it, as a number.
pub mod Copying
pub mod Printing
pub mod Quoting
use linear_cpp.Prelude.{
  ℕ, zero, suc, ◌+◌, ◌-◌, ◌/◌, ◌%◌, ◌&&◌, ◌||◌, not, Bool, true, false, List, [], ◌∷◌, ◌++◌, Option,
  none, some, ltb, ◌==◌, if◌then◌else◌, length, Bytes, codes, is_empty,
}
use linear_cpp.Prelude.Int.{ℤ, pos, negsuc}
use linear_cpp.Ordered.{lt_bytes}
use linear_cpp.Auth.Fields.{take}
use linear_cpp.Auth.Authenticate.{hex_digit}

-- `msgpack::object` with the zone of what it points to. Floats are the bits of `via.f64`; the bytes
-- of `ext` begin with its type.
mutual
  pub data Object : Type 0 where
    nil : Object
    boolean : Bool → Object
    positive_integer : ℕ → Object
    negative_integer : ℤ → Object
    float32 float64 : ℕ → Object
    str bin : ℕ → Bytes → Object
    ext : ℕ → ℕ → Bytes → Object
    array : ℕ → Objects → Object
    map : ℕ → Pairs → Object

  pub data Objects : Type 0 where
    no_items : Objects
    item : Object → Objects → Objects

  pub data Pairs : Type 0 where
    no_pairs : Pairs
    pair : Object → Object → Pairs → Pairs

-- `any::Type`.
pub data Kind : Type 0 where
  is_nil is_boolean is_positive_integer is_negative_integer is_float32 is_float64 is_str is_bin :
      Kind
  is_ext is_array is_map : Kind

abbrev pub kind_of : Object → Kind
kind_of nil = is_nil
kind_of (boolean b) = is_boolean
kind_of (positive_integer n) = is_positive_integer
kind_of (negative_integer n) = is_negative_integer
kind_of (float32 n) = is_float32
kind_of (float64 n) = is_float64
kind_of (str z s) = is_str
kind_of (bin z s) = is_bin
kind_of (ext z t s) = is_ext
kind_of (array z xs) = is_array
kind_of (map z ps) = is_map

-- `any::copy_msgpack_object` into a zone.
unfoldable mutual
  pub copy_msgpack_object : ℕ → Object → Object
  copy_msgpack_object z nil = nil
  copy_msgpack_object z (boolean b) = boolean b
  copy_msgpack_object z (positive_integer n) = positive_integer n
  copy_msgpack_object z (negative_integer n) = negative_integer n
  copy_msgpack_object z (float32 n) = float32 n
  copy_msgpack_object z (float64 n) = float64 n
  copy_msgpack_object z (str y s) = str z s
  copy_msgpack_object z (bin y s) = bin z s
  copy_msgpack_object z (ext y t s) = ext z t s
  copy_msgpack_object z (array y xs) = array z (copy_each z xs)
  copy_msgpack_object z (map y ps) = map z (copy_pairs z ps)

  pub copy_each : ℕ → Objects → Objects
  copy_each z no_items = no_items
  copy_each z (item x xs) = item (copy_msgpack_object z x) (copy_each z xs)

  pub copy_pairs : ℕ → Pairs → Pairs
  copy_pairs z no_pairs = no_pairs
  copy_pairs z (pair k v ps) =
      pair (copy_msgpack_object z k) (copy_msgpack_object z v) (copy_pairs z ps)

abbrev pub has_no_items : Objects → Bool
has_no_items no_items = true
has_no_items (item x xs) = false

abbrev pub has_no_pairs : Pairs → Bool
has_no_pairs no_pairs = true
has_no_pairs (pair k v ps) = false

-- Does a copy of the object read memory of this zone?
unfoldable mutual
  pub reads : ℕ → Object → Bool
  reads z (str y s) = z == y && not (is_empty s)
  reads z (bin y s) = z == y && not (is_empty s)
  reads z (ext y t s) = z == y
  reads z (array y xs) = (z == y && not (has_no_items xs)) || reads_each z xs
  reads z (map y ps) = (z == y && not (has_no_pairs ps)) || reads_pairs z ps
  reads z _ = false

  pub reads_each : ℕ → Objects → Bool
  reads_each z no_items = false
  reads_each z (item x xs) = reads z x || reads_each z xs

  pub reads_pairs : ℕ → Pairs → Bool
  reads_pairs z no_pairs = false
  reads_pairs z (pair k v ps) = reads z k || (reads z v || reads_pairs z ps)

-- An `any` with its zone.
pub record Any : Type 0 where
  pub zone : ℕ
  pub object : Object
  pub kind : Kind

-- `any()`.
unfoldable pub new : ℕ → Any
new zone = record { zone = zone; object = nil; kind = is_nil }

-- `any(o)`, for an object and for an `any`, with a fresh zone.
unfoldable pub from_object : ℕ → Object → Any
from_object zone o =
    let copied = copy_msgpack_object zone o in
    record { zone = zone; object = copied; kind = kind_of copied }

-- `operator=` and `msgpack_unpack`: the zone is cleared, then the object is copied into it. `none`:
-- the copy reads memory that the zone has given back.
unfoldable pub assign : Any → Object → Option Any
unfolding from_object
assign a o = if reads a.zone o then none else some (from_object a.zone o)

unfoldable pub is_nil_object : Object → Bool
is_nil_object nil = true
is_nil_object _ = false

-- `any::is_nil`.
unfoldable pub any_is_nil : Any → Bool
any_is_nil a = is_nil_object a.object

-- `binary::msgpack_unpack`; `none` is a `type_error`.
unfoldable pub unpack_binary : Object → Option Bytes
unpack_binary (bin z s) = some s
unpack_binary (str z s) = some s
unpack_binary _ = none

-- `binary::msgpack_object`.
unfoldable pub pack_binary : ℕ → Bytes → Object
pack_binary z s = bin z s

-- `nil::msgpack_unpack`; false is a `type_error`.
unfoldable pub unpack_nil : Object → Bool
unpack_nil nil = true
unpack_nil _ = false

-- `\u` and four hexadecimal digits.
abbrev pub unicode : ℕ → Bytes
unicode c = b'\\' ∷ b'u' ∷ b'0' ∷ b'0' ∷ hex_digit (c / 16 % 16) ∷ hex_digit (c % 16) ∷ []

-- One byte of a text, as `operator<<` writes it. A `char` of 128 or more is negative, so its `code`
-- is large.
unfoldable pub escape : ℕ → Bytes
escape c =
    if c == b'\\'
    then b'\\' ∷ b'\\' ∷ []
    else if c == b'"'
    then b'\\' ∷ b'"' ∷ []
    else if c == b'/'
    then b'\\' ∷ b'/' ∷ []
    else if c == 8
    then b'\\' ∷ b'b' ∷ []
    else if c == 12
    then b'\\' ∷ b'f' ∷ []
    else if c == 10
    then b'\\' ∷ b'n' ∷ []
    else if c == 13
    then b'\\' ∷ b'r' ∷ []
    else if c == 9
    then b'\\' ∷ b't' ∷ []
    else if ltb c 32 || c == 127
    then unicode c
    else c ∷ []

unfoldable pub escape_all : Bytes → Bytes
unfolding escape
escape_all [] = []
escape_all (c ∷ s) = escape c ++ escape_all s

-- `operator<<` of an unsigned number; 20 digits are enough for 64 bits.
unfoldable pub decimal : ℕ → ℕ → Bytes
decimal zero n = []
decimal (suc fuel) n =
    let rest = decimal fuel (n / 10) in
    if ltb n 10 then (b'0' + n) ∷ [] else rest ++ (b'0' + n % 10) ∷ []

unfoldable pub print_int : ℤ → Bytes
unfolding decimal
print_int (pos n) = decimal 20 n
print_int (negsuc n) = b'-' ∷ decimal 20 (suc n)

-- `operator<<`; `print_float` is that of a `double`.
module _ (print_float : ℕ → Bytes) where
  unfoldable mutual
    unfolding escape_all decimal print_int

    pub print : Object → Bytes
    print nil = codes "null"
    print (boolean b) = if b then codes "true" else codes "false"
    print (positive_integer n) = decimal 20 n
    print (negative_integer n) = print_int n
    print (float32 n) = print_float n
    print (float64 n) = print_float n
    print (str z s) = b'"' ∷ (escape_all s ++ b'"' ∷ [])
    print (bin z s) = codes "[BIN]"
    print (ext z t s) = codes "[EXT]"
    print (array z xs) = b'[' ∷ (print_each xs ++ b']' ∷ [])
    print (map z ps) = b'{' ∷ (print_pairs ps ++ b'}' ∷ [])

    pub print_each : Objects → Bytes
    print_each no_items = []
    print_each (item x xs) = print x ++ print_more xs

    pub print_more : Objects → Bytes
    print_more no_items = []
    print_more (item x xs) = codes ", " ++ (print x ++ print_more xs)

    pub print_pairs : Pairs → Bytes
    print_pairs no_pairs = []
    print_pairs (pair k v ps) = print k ++ (b':' ∷ (print v ++ print_more_pairs ps))

    pub print_more_pairs : Pairs → Bytes
    print_more_pairs no_pairs = []
    print_more_pairs (pair k v ps) =
        codes ", " ++ (print k ++ (b':' ∷ (print v ++ print_more_pairs ps)))

  -- `any::stringify`.
  unfoldable pub stringify : ℕ → Any → Bytes
  stringify limit a =
      let s = print a.object in
      if ltb 0 limit && ltb limit (length s) then take limit s ++ codes "...(truncated)" else s

  -- `any::operator<`.
  unfoldable pub lt_any : Any → Any → Bool
  unfolding stringify
  lt_any a b = lt_bytes (stringify 0 a) (stringify 0 b)
