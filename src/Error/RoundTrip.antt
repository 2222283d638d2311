-- ===== src/Error/RoundTrip.antt =====
-- Error codes, statuses of libtv and texts (src/error.cpp).
use Prim.Native.String.{String}
use linear_cpp.Prelude.{
  ℕ, zero, suc, ◌+◌, ◌<◌, ◌≡◌, refl, ◌≢◌, List, [], ◌∷◌, arith, length, not, Bool-cases, inl, inr,
  false, true,
}
use linear_cpp.Prelude.Int.{ℤ, pos, negsuc, eq_ℤ_iff, nonzero}
use native.Mathlib.Numerals.{one-add}
use linear_cpp.ErrorMap.{errno_map, lnr_ok, lnr_unknown}
use linear_cpp.Error.{error, eq_error, status_cases, from_status, text_cases, code_text, message}

-- The entry at a position.
abbrev pub entry : List (String × String) → ℕ → String × String
entry [] i = ("", "")
entry (e ∷ rest) zero = e
entry (e ∷ rest) (suc i) = entry rest i

-- What a C++ `switch` over TV_name asks of the values: the labels are distinct, and none is 0,
-- which is a case of its own.
pub record AreLabels (tv : String → ℤ) (m : List (String × String)) : Type 0 where
  pub distinct :
      (i j : ℕ) → i < length m → j < length m → tv (entry m i).0 ≡ tv (entry m j).0 → i ≡ j
  pub not_ok : (i : ℕ) → i < length m → tv (entry m i).0 ≢ pos 0

AreLabels-tail :
    (tv : String → ℤ) (e : String × String) (m : List (String × String))
    → AreLabels tv (e ∷ m)
    → AreLabels tv m
AreLabels-tail tv e m h = record {
  distinct = λ i j p q eq. omega (arith, h.distinct (suc i) (suc j) (omega arith) (omega arith) eq);
  not_ok = λ i p. h.not_ok (suc i) (omega arith);
}

status_cases-entry :
    (tv : String → ℤ) (m : List (String × String)) (c i : ℕ)
    → AreLabels tv m
    → i < length m
    → status_cases tv c m (tv (entry m i).0) ≡ c + i
unfolding status_cases
status_cases-entry tv [] c i h lt = absurd (omega arith)
status_cases-entry tv ((name, text) ∷ m) c zero h lt = ground (arith, eq_ℤ_iff (tv name) (tv name))
status_cases-entry tv ((name, text) ∷ m) c (suc i) h lt = ground (
  arith,
  eq_ℤ_iff (tv (entry m i).0) (tv name),
  h.distinct (suc i) 0,
  status_cases-entry tv m (suc c) i (AreLabels-tail tv (name, text) m h) (omega arith),
)

status_cases_other :
    (tv : String → ℤ) (m : List (String × String)) (c : ℕ) (status : ℤ)
    → ((i : ℕ) → i < length m → status ≢ tv (entry m i).0)
    → status_cases tv c m status ≡ lnr_unknown
unfolding status_cases
status_cases_other tv [] c status h = refl
status_cases_other tv ((name, text) ∷ m) c status h = ground (
  arith,
  eq_ℤ_iff status (tv name),
  h 0 (omega arith),
  status_cases_other tv m (suc c) status (λ i lt. h (suc i) (omega arith)),
)

text_cases-entry :
    (m : List (String × String)) (i : ℕ) → i < length m → text_cases m i ≡ (entry m i).1
unfolding text_cases
text_cases-entry [] i h = absurd (omega arith)
text_cases-entry ((name, text) ∷ m) zero h = refl
text_cases-entry ((name, text) ∷ m) (suc i) h = text_cases-entry m i (omega arith)

nonzero_ne : (status : ℤ) → status ≢ pos 0 → nonzero status ≡ true
nonzero_ne (pos zero) h = absurd (h refl)
nonzero_ne (pos (suc n)) h = refl
nonzero_ne (negsuc n) h = refl

from_status-cases :
    (tv : String → ℤ) (status : ℤ)
    → status ≢ pos 0
    → from_status tv status ≡ error (status_cases tv 1 errno_map status)
unfolding from_status
from_status-cases tv status h = rw (nonzero_ne status h)

-- Where libtv's codes can label a `switch`, the status TV_x of the i-th entry of the map becomes
-- the error code LNR_x, which is i + 1, and its message is the text of that entry.
pub from_status-entry :
    (tv : String → ℤ) (x509_text ssl_text : ℕ → String)
    → AreLabels tv errno_map
    → (i : ℕ) → i < length errno_map
    → (from_status tv (tv (entry errno_map i).0) ≡ error (suc i))
      × (message x509_text ssl_text (from_status tv (tv (entry errno_map i).0))
          ≡ (entry errno_map i).1)
unfolding message code_text
from_status-entry tv x509_text ssl_text h i lt =
    let e : from_status tv (tv (entry errno_map i).0) ≡ error (suc i) =
      rw (
        from_status-cases tv _ (h.not_ok i lt),
        status_cases-entry tv errno_map 1 i h lt,
        one-add,
      ) in
    (e, rw e (ground (arith, text_cases-entry errno_map i lt)))

-- Any other status that is not 0 becomes LNR_UNKNOWN.
pub from_status_other :
    (tv : String → ℤ) (status : ℤ)
    → status ≢ pos 0
    → ((i : ℕ) → i < length errno_map → status ≢ tv (entry errno_map i).0)
    → from_status tv status ≡ error lnr_unknown
from_status_other tv status h other =
    rw (from_status-cases tv status h, status_cases_other tv errno_map 1 status other)

status_cases_pos :
    (tv : String → ℤ) (m : List (String × String)) (c : ℕ) (status : ℤ)
    → 0 < c
    → 0 < status_cases tv c m status
unfolding status_cases
status_cases_pos tv [] c status h = omega arith
status_cases_pos tv ((name, text) ∷ m) c status h =
    ground (arith, status_cases_pos tv m (suc c) status (omega arith))

from_status-fails :
    (tv : String → ℤ) (status : ℤ)
    → nonzero status ≡ true
    → eq_error (from_status tv status) (error lnr_ok) ≡ false
unfolding from_status
from_status-fails tv status h = ground (arith, status_cases_pos tv errno_map 1 status (omega arith))

-- A status of libtv becomes LNR_OK exactly if it is 0.
pub from_status-ok :
    (tv : String → ℤ) (status : ℤ)
    → eq_error (from_status tv status) (error lnr_ok) ≡ not (nonzero status)
from_status-ok tv status = elim (Bool-cases (nonzero status)) [
  | inl e ↦ rw (from_status-fails tv status e, e)
  | inr e ↦ rw e (unfold from_status in rw e)
]
