-- ===== src/Femu.antt =====
-- src/femu/femu.c: requests to the simulated device, and its start.
pub mod Requests
pub mod Start
pub mod Bytes
pub mod ReadBack
