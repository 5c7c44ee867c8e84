-- ===== src/Bio.antt =====
-- The buffer cache of kernel/bio.c.
pub mod Defs
pub mod Scan
pub mod Cache
pub mod Release
pub mod Steps
pub mod Tests
