-- ===== src/Log.antt =====
-- kernel/log.c: the write-ahead log of the file system, and its recovery after a crash.
mod Disk
mod Defs
mod Install
pub mod States
pub mod Commit
pub mod Recover
pub mod Atomic
pub mod Write
pub mod End
pub mod Reserve
mod Tests
pub use Disk.*
pub use Defs.*
pub use Install.*
