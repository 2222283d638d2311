-- ===== src/Examples/Values.antt =====
-- The theorems about values that may be missing and about the log (include/linear/optional.h,
-- src/log.cpp) at concrete inputs.
use mathlib.Core.Option.{get_or}
use linear_cpp.Prelude.{
  ◌++◌, Bytes, ap, ℕ, ◌+◌, ◌≡◌, refl, Bool, true, false, ◌==◌, List, [], ◌∷◌, Option, some, none,
  codes, count, if◌then◌else◌, ltb, leb,
}
use linear_cpp.Any.{Object, Objects, no_items, item, positive_integer, array, is_nil_object}
use linear_cpp.Any.Copying.{Value, Values, done, cons, natural, list, content, content_each}
use mathlib.Core.Option
use linear_cpp.Optional.{
  Optional, new, copy, from_value, assign_nil, assign_value, value, value_or, eq_optional, eq_nil,
  nil_eq, lt_nil, nil_lt, lt_optional, eq_value, lt_value, pack, unpack, assign,
}
use linear_cpp.Optional.Views.{eq_option, lt_option, optional_view}
use linear_cpp.Optional.Packing.{IsConverted, unpack-pack}
use linear_cpp.Auth.Fields.{take}
use linear_cpp.Log.{longest, log, log_info, log_err, rank, initial}
use linear_cpp.Log.Calls.{
  Call, ends, sets_level, enables_stderr, enables_file, disables_file, enables_callback, run, one,
  is_opens, is_closes, is_file,
}
use linear_cpp.Log.Lines.{Carries, to_stderr, to_file, to_callback}
use linear_cpp.Log.Sinks.{lost, log_outputs, run_files}

abbrev eq : ℕ → ℕ → Bool
eq a b = a == b

abbrev lt : ℕ → ℕ → Bool
lt a b = ltb a b

abbrev three : Optional ℕ
three = record { initialized = true; value = 3 }

abbrev missing : Optional ℕ
missing = record { initialized = false; value = 8 }

optional_view_example :
    (value {T = ℕ} (new 0) ≡ none)
    × (value {T = ℕ} (from_value 5) ≡ some 5)
    × (value (copy 0 three) ≡ value three)
    × (value (assign_nil three) ≡ none)
    × (value (assign missing three) ≡ value missing)
    × (value (assign_value 5 three) ≡ some 5)
    × (value_or 5 three ≡ get_or (value three) 5)
    × (eq_optional eq lt three missing ≡ eq_option eq lt (value three) (value missing))
    × (lt_optional eq lt three missing ≡ lt_option eq lt (value three) (value missing))
    × (eq_value eq lt three 5 ≡ eq_option eq lt (value three) (some 5))
    × (lt_value eq lt three 5 ≡ lt_option eq lt (value three) (some 5))
    × (eq_nil three ≡ eq_option eq lt (value three) none)
    × (nil_lt three ≡ lt_option eq lt none (value three))
    × (nil_eq three ≡ false)
    × (lt_nil three ≡ eq_option eq lt (value three) none)
    × (lt_option eq lt (value three) none ≡ false)
optional_view_example = optional_view eq lt 0 5 three missing

-- MessagePack of lists of natural numbers.
items : List ℕ → Objects
items [] = no_items
items (n ∷ ns) = item (positive_integer n) (items ns)

read_items : Values → Option (List ℕ)
read_items done = some []
read_items (cons (natural n) vs) = Option.map (λ ns. n ∷ ns) (read_items vs)
read_items (cons _ vs) = none

read_list : Value → Option (List ℕ)
read_list (list vs) = read_items vs
read_list _ = none

abbrev to_object : ℕ → List ℕ → Object
to_object z ns = array z (items ns)

abbrev convert : Object → Option (List ℕ)
convert o = read_list (content o)

read_items_lem : (ns : List ℕ) → read_items (content_each (items ns)) ≡ some ns
unfolding items read_items content
read_items_lem [] = refl
read_items_lem (n ∷ ns) = ap (Option.map (λ ms. n ∷ ms)) (read_items_lem ns)

lists-AreConverted : IsConverted to_object convert
unfolding is_nil_object read_list content
lists-AreConverted = record {
  back = λ y v. read_items_lem v;
  by_content = λ o o' e. ap read_list e;
  some_object = λ y v. refl;
}

abbrev two_items : Optional (List ℕ)
two_items = record { initialized = true; value = 3 ∷ 5 ∷ [] }

abbrev no_list : Optional (List ℕ)
no_list = record { initialized = false; value = [] }

unpack-pack_example :
    (value (unpack convert (pack to_object 2 two_items) no_list).0 ≡ value two_items)
    × ((unpack convert (pack to_object 2 two_items) no_list).1 ≡ true)
unpack-pack_example = unpack-pack to_object convert lists-AreConverted 2 two_items no_list

-- Two files are opened, and one is closed; then a client ends, and stderr is enabled again.
abbrev setup : List Call
setup =
    sets_level log_info
    ∷ enables_stderr
    ∷ enables_file (some 3)
    ∷ enables_file (some 4)
    ∷ enables_callback (some 1)
    ∷ disables_file
    ∷ ends
    ∷ enables_stderr
    ∷ []

log_outputs_example :
    let l = (run setup initial).0 in
    let buffer = take longest (codes "lost") in
    (text : Bytes) × (text' : Bytes) × Carries (codes "2024-01-01") buffer text
    × Carries (codes "2024-01-01") buffer text'
    × (log true log_err (codes "2024-01-01") (codes "lost") l ≡ (
        if leb (rank log_err) (rank l.level)
        then to_stderr l.log_stderr text
          ++ (to_file l.file_sink.fp text' ++ to_callback l.callback buffer)
        else []))
log_outputs_example = log_outputs setup true log_err (codes "2024-01-01") (codes "lost")

run_files_example :
    count (is_opens 3) (run setup initial).1
    ≡ count (is_closes 3) (run setup initial).1
      + one (is_file 3 (run setup initial).0.file_sink.fp)
      + lost 3 setup initial
run_files_example = run_files 3 setup
