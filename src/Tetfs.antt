-- ===== src/Tetfs.antt =====
-- kernel/fs/tetfs.c: the file system of the disk. `Layout` has the constants and the records of
-- tetfs.h, `Drive` what the file system relies on of kernel/ata/ata.c, `Bitmap` the block bitmap, and
-- `Inode` the inode table.
pub mod Layout
pub mod Drive
pub mod Bitmap
pub mod Inode
pub mod Directory
pub mod File
pub mod Format
pub mod Descriptors
mod Tests
