-- ===== src/Text.antt =====
-- C strings and the text routines that the programs share: trimwhitespace, trimlastenter and
-- makeargv of CSCI4061_asn4/server.c, and what they use of the C library.
mod Defs
pub mod Tokens
pub mod Trim
pub mod Numbers
pub mod Fields
pub mod Plain
pub mod InPlace
unfoldable pub use Defs.*
