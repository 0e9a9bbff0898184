-- ===== src/Kv.antt =====
-- src/LSM-Tree/kvstore.cc and kvstore.h: the key-value store.
pub mod State
pub mod Merge
pub mod Compact
pub mod MinMap
pub mod Newest
pub mod Heads
pub mod Update
pub mod Pop
pub mod MergeLoop
pub mod First
pub mod Merged
pub mod Answers
pub mod Get
pub mod Stock
pub mod Flush
pub mod Put
pub mod PutFlush
pub mod Del
