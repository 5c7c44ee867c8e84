-- ===== src/Proc.antt =====
-- kernel/proc.c: the table of processes.
mod Defs
mod Calls
mod Wakeup
mod Family
mod Exit
mod Scan
mod Wait
mod Slot
mod Fork
mod Kill
mod Boot
mod Steps
mod Tests
pub use Defs.*
pub use Calls.*
pub use Wakeup.*
pub use Family.*
pub use Exit.*
pub use Scan.*
pub use Wait.*
pub use Slot.*
pub use Fork.*
pub use Kill.*
pub use Boot.*
pub use Steps.*
