-- ===== src/Zones.antt =====
-- src/include/utils.h and src/include/utils.cpp: where tables lie in the zones.
pub mod State
pub mod Reads
pub mod Tables
pub mod Reset
pub mod Slots
pub mod Placement
pub mod Free
pub mod Place
pub mod Write
pub mod Pages
pub mod Counts
pub mod Delete
pub mod Opening
pub mod Init
pub mod Missed
pub mod Cover
pub mod Looks
pub mod Batches
pub mod Fetched
pub mod Values
