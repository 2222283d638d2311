-- ===== src/Auth.antt =====
-- src/auth_context_impl.cpp and include/linear/auth_context.h: the headers of HTTP authentication.
-- libtv's buffer routines (MD5 as hexadecimal text, Base64, random bytes) are arguments; `none` is
-- their failure, or that of an append before them, for want of memory.
pub mod Fields
pub mod Splitting
pub mod Parsing
pub mod Digest
pub mod Header
pub mod Authorization
pub mod Authenticate
pub mod RoundTrip
pub mod Answer
pub mod Login
pub use Fields.{split, parse, to_lower, lower}
pub use Digest.{calc_a1, calc_digest}
pub use Header.{AuthType, unused, basic, digest, unknown, scheme}
