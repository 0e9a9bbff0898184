-- ===== src/Table.antt =====
-- src/LSM-Tree/Table.cpp: the sorted tables that the store keeps on the SSD.
pub mod Search
pub mod Build
pub mod Filter
pub mod Pairs
pub mod Branches
pub mod Stores
pub mod Lookup
pub mod Flush
pub mod Rows
pub mod Filled
