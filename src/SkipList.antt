-- ===== src/SkipList.antt =====
-- src/LSM-Tree/SkipList.cpp and SkipList.h: the memory table.
pub mod Memory
pub mod Columns
pub mod Right
pub mod Get
pub mod Lookup
pub mod Cells
pub mod Insert
pub mod Depth
pub mod Standing
pub mod Upward
pub mod Lift
pub mod Path
pub mod Replace
pub mod Renew
pub mod Towers
pub mod Rooted
pub mod Level
pub mod First
pub mod PutRows
pub mod Put
pub mod Clear
