-- ===== src/Fisopfs.antt =====
-- The file system: fisopfs/.
pub mod Bitmap
pub mod Disk
pub mod Files
pub mod Paths
pub mod Dirs
pub mod Calls
mod Samples
mod Tests
