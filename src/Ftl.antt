-- ===== src/Ftl.antt =====
-- femu/: the flash translation layer of the simulated ZNS device.
pub mod Types
pub mod Params
pub mod Pointer
pub mod Init
pub mod Geometry
pub mod Layout
pub mod Walk
pub mod Disjoint
pub mod Timing
pub mod Commands
pub mod Shape
pub mod Calls
pub mod Transfer
pub mod Device
pub mod Check
pub mod Write
pub mod ReadStep
pub mod ReadLoop
pub mod Read
pub mod Erase
pub mod EraseZone
pub mod Fresh
pub mod Reset
