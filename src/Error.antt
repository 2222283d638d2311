-- ===== src/Error.antt =====
-- src/error.cpp and include/linear/error.h: the class `Error`. The library's code throws none: an
-- error is a value that a call returns or a callback gets.
pub mod RoundTrip
use Prim.Native.String.{String}
use text.Mathlib.Text.{◌==◌ as str_eq}
use linear_cpp.Prelude.{
  ℕ, zero, suc, ◌==◌, Bool, ◌&&◌, not, List, [], ◌∷◌, if◌then◌else◌, Option, none, some,
}
use linear_cpp.Prelude.Int.{ℤ, eq_ℤ, nonzero}
use linear_cpp.ErrorMap.{ErrorCode, lnr_ok, lnr_unknown, lnr_ex509, lnr_essl, errno_map}

pub record Error : Type 0 where
  pub code : ErrorCode
  pub detail_code : ℕ

-- `Error(ErrorCode code, unsigned long detail_code = 0)`.
abbrev pub error : ErrorCode → Error
error c = record { code = c; detail_code = 0 }

-- `operator==`; `operator!=` is its negation.
abbrev pub eq_error : Error → Error → Bool
eq_error a b = a.code == b.code && a.detail_code == b.detail_code

abbrev pub ne_error : Error → Error → Bool
ne_error a b = not (eq_error a b)

-- The cases of the `switch` that LNR_ERR_NAME_GEN writes, over the entries from code `c` on.
-- `tv name` is the value of libtv's TV_name.
status_cases : (String → ℤ) → ErrorCode → List (String × String) → ℤ → ErrorCode
status_cases tv c [] status = lnr_unknown
status_cases tv c ((name, text) ∷ rest) status =
    if eq_ℤ status (tv name) then c else status_cases tv (suc c) rest status

-- `Error(int code)`: a status of libtv as an error.
unfoldable pub from_status : (String → ℤ) → ℤ → Error
unfolding status_cases
from_status tv status =
    if nonzero status then error (status_cases tv 1 errno_map status) else error lnr_ok

-- The cases that LNR_STRERROR_GEN writes.
text_cases : List (String × String) → ℕ → String
text_cases [] i = "unknown error"
text_cases ((name, text) ∷ rest) zero = text
text_cases ((name, text) ∷ rest) (suc i) = text_cases rest i

code_text : ErrorCode → String
code_text zero = "success"
code_text (suc i) = text_cases errno_map i

-- `Message()`. OpenSSL's texts of a detail code are arguments.
pub message : (ℕ → String) → (ℕ → String) → Error → String
message x509_text ssl_text e =
    if e.code == lnr_ex509 && not (e.detail_code == 0)
    then x509_text e.detail_code
    else if e.code == lnr_essl && not (e.detail_code == 0)
    then ssl_text e.detail_code
    else code_text e.code
