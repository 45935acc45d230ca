-- ===== src/Hanafs.antt =====
-- kernel/filesystem/hanafs.cpp: the file system in memory, with an image of it on a disk.
pub mod Path
pub mod Image
pub mod Entries
pub mod Files
mod Tests
