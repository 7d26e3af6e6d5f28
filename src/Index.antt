-- ===== src/Index.antt =====
-- The B+ tree of src/observer/storage/index/bplus_tree.h and src/observer/storage/index/bplus_tree.cpp:
-- its keys, the operations on its nodes, and the search, the insertion and the deletion over pages.
pub mod Key
pub mod Equal
pub mod Order
pub mod Node
pub mod Sorted
pub mod Lookup
pub mod Tree
pub mod Insert
pub mod Leaf
pub mod Full
pub mod Search
pub mod Ranges
pub mod Find
pub mod Grow
pub mod Insertion
pub mod Delete
pub mod Merge
pub mod Removal
pub mod Deletion
pub mod Balance
mod Tests
