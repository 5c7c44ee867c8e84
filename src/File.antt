-- ===== src/File.antt =====
-- kernel/file.c: the table of open files and its reference counts.
mod Table
mod Holders
mod Tests
pub use Table.*
pub use Holders.*
