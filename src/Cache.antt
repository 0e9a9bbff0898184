-- ===== src/Cache.antt =====
-- src/include/cache.h: the queues from which the store takes turns, and the least recently used cache.
pub mod Queues
pub mod Contents
pub mod Rounds
pub mod Turns
pub mod Lru
pub mod Nodes
pub mod Keys
pub mod Recency
