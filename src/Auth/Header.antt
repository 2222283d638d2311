-- ===== src/Auth/Header.antt =====
-- The scheme of an Authorization or WWW-Authenticate header (src/auth_context_impl.cpp), and
-- `AuthContext::Type` of include/linear/auth_context.h.
use linear_cpp.Prelude.{
  Bool, true, false, Option, none, some, if◌then◌else◌, Bytes, codes, eq_bytes, ℕ, ◌+◌,
}
use linear_cpp.Auth.Fields.{lower, find_first, take, drop}

pub data AuthType : Type 0 where
  unused basic digest unknown : AuthType

abbrev pub eq_type : AuthType → AuthType → Bool
eq_type unused unused = true
eq_type basic basic = true
eq_type digest digest = true
eq_type unknown unknown = true
eq_type _ _ = false

-- The word before the first space, in lower case, as a type.
abbrev pub scheme_type : Bytes → AuthType
scheme_type t =
    if eq_bytes t (codes "basic")
    then basic
    else if eq_bytes t (codes "digest")
    then digest
    else unknown

at_space : Bytes → Option ℕ → Option (AuthType × Bytes × Bytes)
at_space v none = none
at_space v (some loc) = some (scheme_type (lower (take loc v)), drop loc v, drop (loc + 1) v)

-- A header in three parts: its type, the text from the first space on, and the text behind that
-- space. `none`: it has no space.
unfoldable pub scheme : Bytes → Option (AuthType × Bytes × Bytes)
unfolding at_space
scheme v = at_space v (find_first b' ' v)
