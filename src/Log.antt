-- ===== src/Log.antt =====
-- The write-ahead log of src/observer/storage/clog/clog.h and src/observer/storage/clog/clog.cpp:
-- its records and their bytes, the buffer and the file, and the recovery from them.
pub mod Int32
pub mod Record
pub mod File
pub mod Buffer
pub mod Entry
pub mod Building
pub mod Reading
pub mod Recover
pub mod Replay
pub mod Durable
pub mod Crash
pub mod Counter
mod Tests
