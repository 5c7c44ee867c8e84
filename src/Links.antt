-- ===== src/Links.antt =====
-- The doubly linked circular lists of kernel/list.c.
pub mod Defs
pub mod Seg
pub mod Ring
pub mod Runs
pub mod Tests
