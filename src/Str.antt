-- ===== src/Str.antt =====
-- kernel/string.c: the byte routines over a memory.
-- A memory gives the byte at each address, and a pointer is an address; no run of bytes passes the
-- end of the address space, so pointer arithmetic does not wrap. `char` is unsigned on RISC-V.
mod Move
mod Compare
mod Length
mod Tests
mod Copy
pub use Copy.*
pub use Length.*
unfoldable pub use Compare.*
pub use Move.*
