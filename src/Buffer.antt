-- ===== src/Buffer.antt =====
-- The buffer pool: frames in memory for the pages of files, of src/observer/storage/buffer.
pub mod Lru
pub mod Frames
pub mod Pool
pub mod Header
pub mod Tests
