-- ===== src/Dir.antt =====
-- Directories of kernel/fs.c.
pub mod Defs
pub mod Lookup
pub mod Find
pub mod Slot
pub mod Link
mod Tests
