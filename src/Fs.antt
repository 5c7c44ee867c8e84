-- ===== src/Fs.antt =====
-- kernel/fs.c: the layers of the file system.
pub mod Path
pub mod Bitmap
pub mod Alloc
mod Tests
