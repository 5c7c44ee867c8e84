-- ===== src/Vm.antt =====
-- kernel/vm.c: page tables, and copies between user and kernel memory.
mod Defs
mod Copyin
mod Copyout
mod Entry
mod Walk
mod Tests
pub use Defs.*
pub use Copyin.*
pub use Copyout.*
pub use Entry.*
pub use Walk.*
