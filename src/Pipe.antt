-- ===== src/Pipe.antt =====
-- kernel/pipe.c: a pipe as a ring of 512 bytes with wrapping 32-bit counters.
mod Defs
mod Queue
mod Fifo
mod Read
mod Tests
pub use Defs.*
pub use Queue.*
pub use Read.*
pub use Fifo.*
