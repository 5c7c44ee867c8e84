-- ===== src/Console.antt =====
-- kernel/console.c: line editing at the interrupt handler, and reads of whole lines.
mod Defs
mod Edit
mod Read
mod Tests
pub use Defs.*
pub use Edit.*
pub use Read.*
