-- ===== src/Tests.antt =====
-- Runs at concrete inputs.
mod Device
mod Caches
mod Tables
mod Zones
mod Pools
mod Skip
mod Store
mod Merges
