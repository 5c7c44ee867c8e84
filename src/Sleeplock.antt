-- ===== src/Sleeplock.antt =====
-- kernel/sleeplock.c.
pub mod Defs
pub mod Guard
mod Tests
