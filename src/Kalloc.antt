-- ===== src/Kalloc.antt =====
-- kernel/kalloc.c: the free list of pages.
mod Defs
mod Pages
mod Tests
pub use Defs.*
pub use Pages.*
