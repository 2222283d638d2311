-- ===== src/Examples/Objects.antt =====
-- The theorems about values of any type (include/linear/any.h) at concrete inputs.
use linear_cpp.Auth.Fields.{take}
use linear_cpp.Prelude.{◌⊎◌, ℕ, ◌≤◌, ◌<◌, ◌≡◌, ◌∷◌, ◌++◌, some, All, Bytes, codes, length, arith}
use linear_cpp.Any.{
  Any, Object, positive_integer, str, array, item, no_items, is_positive_integer, is_array, print,
  stringify, assign,
}
use linear_cpp.Any.Copying.{IsAssigned, assign-IsAssigned}
use linear_cpp.Any.Printing.{AreVisible, stringify-AreVisible}
use linear_cpp.Any.Quoting.{read_text, plain, print_text}

abbrev no_float : ℕ → Bytes
no_float n = codes "0"

-- A list of a text with a quote and a number, and a value in the zone 1.
abbrev listing : Object
listing = array 5 (item (str 5 (codes "a\"b")) (item (positive_integer 42) no_items))

abbrev number : Any
number = record { zone = 1; object = positive_integer 7; kind = is_positive_integer }

assign-IsAssigned_example : IsAssigned listing number (assign number listing)
assign-IsAssigned_example = assign-IsAssigned number listing

quoted-AreBytes : All (λ c. c < 256) (codes "a\"b")
quoted-AreBytes = (omega arith, (omega arith, (omega arith, tt)))

print_text_example :
    (t : Bytes) × (print no_float (str 5 (codes "a\"b")) ++ codes ", 42" ≡ b'"' ∷ t)
    × (read_text plain t ≡ some (codes "a\"b", codes ", 42"))
print_text_example = print_text no_float 5 (codes "a\"b") (codes ", 42") quoted-AreBytes

no_float-AreVisible : (n : ℕ) → AreVisible (no_float n)
no_float-AreVisible n = (omega arith, tt)

abbrev listed : Any
listed = record { zone = 5; object = listing; kind = is_array }

stringify-AreVisible_example :
    AreVisible (stringify no_float 4 listed)
    × (0 < 4
        → 4 < length (print no_float listing)
        → (length (take 4 (print no_float listing)) ≡ 4)
          × (stringify no_float 4 listed
              ≡ take 4 (print no_float listing) ++ codes "...(truncated)"))
    × (◌≡◌ {A = ℕ} 4 0 ⊎ length (print no_float listing) ≤ 4
        → stringify no_float 4 listed ≡ print no_float listing)
stringify-AreVisible_example = stringify-AreVisible no_float no_float-AreVisible 4 listed
