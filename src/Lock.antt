-- ===== src/Lock.antt =====
-- kernel/spinlock.c: one lock, used by all CPUs.
mod Defs
mod Nesting
mod Owner
mod Steps
mod Masked
mod Exclusion
mod Tests
pub use Defs.*
pub use Nesting.*
pub use Owner.*
pub use Steps.*
pub use Masked.*
pub use Exclusion.*
