-- ===== src/Inode.antt =====
-- The inode layer of kernel/fs.c.
pub mod Words
pub mod Defs
pub mod Put
pub mod Layout
pub mod Table
pub mod Blocks
pub mod File
pub mod Steps
pub mod Map
pub mod Content
pub mod Room
pub mod Bytes
pub mod Write
pub mod Overlay
pub mod Writei
pub mod Stored
pub mod Readi
pub mod Trip
pub mod Free
pub mod Trunc
pub mod Empty
pub mod Itrunc
pub mod Tests
