-- ===== src/Memfs.antt =====
-- samples/memfs: a file system that lives in memory.
pub mod Inode
pub mod Fs
pub mod Names
pub mod Files
pub mod Calls
pub mod Tests
