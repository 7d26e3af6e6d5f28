-- ===== src/Record.antt =====
-- src/observer/storage/record/record_manager.cpp and record_manager.h: records in pages.
pub mod Layout
pub mod Page
pub mod Iterator
mod Tests
