-- ===== src/Aofs.antt =====
-- The All-in-One File System of asgn4: one directory of files, each a chain of blocks.
pub mod Bitmap
pub mod Disk
pub mod Blocks
pub mod Files
pub mod Write
pub mod Read
pub mod Truncate
pub mod Tests
