-- ===== src/Grep.antt =====
-- user/grep.c: the regular expression matcher, over texts as lists of bytes. A list ends where the
-- C string has its NUL, so no byte of a list is 0.
mod Defs
mod Language
mod Tests
pub use Defs.*
pub use Language.*
