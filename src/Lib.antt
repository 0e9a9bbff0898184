-- ===== src/Lib.antt =====
-- A model of LSM-based-on-ZNS-SSD: a key-value store (a log-structured merge tree) that keeps its
-- tables in the zones of a simulated ZNS SSD.
--
-- The program's parts. src/LSM-Tree holds the store (kvstore.cc), its memory table (SkipList.cpp)
-- and its tables on the SSD (Table.cpp). src/include/utils.cpp (`MemoryManager`) places a table's data
-- into zones and calls `femu_read`, `femu_write` and `femu_reset` of src/femu/femu.c, which hand
-- a request to the flash translation layer, src/femu/ftl.c. That layer turns logical blocks into
-- pages of flash dies and keeps the time at which each die is free again.
--
-- What is modelled, and where:
-- Base: natural numbers with C's wrap-around (Word), tests into Bool, lemmas on lists and division.
-- Ftl: src/femu/ftl.c. Types and Params are the structures of ftl.h and nvme.h and their sizes,
-- Pointer the arithmetic on a zone's pages (`zns_advance_write_pointer`, `get_next_page`,
-- `locate_page`, `zns_reset_wpp`), Init the start, Timing `ssd_advance_status`, Commands `zns_write`,
-- `zns_read` and `zns_reset`. The other modules hold proofs: Geometry and Layout (where pages lie),
-- Walk and Disjoint (their order and places), Shape (the arrays of the device), Calls (the commands to
-- the dies), Device (the device's invariant, `IsDevice`), Transfer, Check, Write, ReadStep, ReadLoop, Read, Erase, EraseZone,
-- Reset, Fresh.
-- Femu: src/femu/femu.c. Requests holds its functions, Start, Bytes and ReadBack the proofs.
-- Cache: src/include/cache.h. Queues is the class `queue_cache`, with its proofs in Contents, Rounds and
-- Turns; Lru is the class `LRUCache`, with its proofs in Nodes, Keys and Recency.
-- Table: src/LSM-Tree/Table.cpp. Search is the binary search and its proof, Build the class with its
-- constructor from a sorted vector, its lookup and its bloom filter, Flush the constructor from a skip list; Filter,
-- Pairs, Branches, Stores, Lookup, Rows and Filled are proofs.
-- Zones: src/include/utils.h and src/include/utils.cpp, the class `MemoryManager`. State is the class and its
-- constructor; Reads holds `getValue` and `readTable`, Tables `deleteTable` and the end of `writeTable`, Reset the
-- loop of `writeTable`, `evictZone`, `tryReset` and `resetZone`. `IsManager` (Place) is the invariant: the zones
-- are rows of slots written from the front, open and queued zones have a free slot and are there once, and the
-- tables of places are inverse to each other and lead to written slots. Init, Write, Delete and Values are its
-- proofs, over Slots, Placement, Free, Counts, Pages, Missed, Cover, Batches and Fetched.
-- Pools: src/include/threadPool.h (Threads, with proofs in Order and Drain) and src/readThreadPool.h (Readers,
-- with proofs in Shared).
-- SkipList: src/LSM-Tree/SkipList.cpp and SkipList.h. Memory is the class with its heap of nodes; Columns says what
-- pairs the towers of a skip list lead to, Right, Get and Lookup are proofs on `get`. Cells says what rows of cells
-- a heap links, Towers when a skip list is in order; Depth tells the rows apart, Standing and Insert are about one
-- row, Upward, Lift and Level about the rows that `put` changes, Path about its path, Replace and Renew about a key
-- that is there, First, PutRows and Put about `put` as a whole, Clear about `clear`, and Rooted leads from rows to what `get` needs.
-- Kv: src/LSM-Tree/kvstore.cc and kvstore.h, with the order of tables of Table.h. State is the class `KVStore` with
-- its constructor and `get`; Merge is `update` and the merge of `compactionForLevel`, Compact the rest of it,
-- `writeToFile`, `put` and `del`. Proofs: MinMap, Newest, Heads, Update, Pop, MergeLoop, First and Merged on the merge,
-- Answers and Get on `get`, Stock says when a store is in order, Put, Flush, PutFlush and Del are on `put` and `del`. The store calls tables and skip list; their calls of the zone manager are a list, in
-- order, since the store does not use the answers.
-- Tests: runs on a small device, and the device that ftl_config.h configures.
--
-- How the code is read. A structure is a record, a pointer into `zone_array` an index, and a function
-- that changes what its argument points to returns the changed record. `none` stands for a failed
-- assertion, for an access outside an array, or for a loop that its fuel does not end. What `ftl_err`
-- prints is a list of messages, after which the code goes on as the source does. The clock is an
-- argument, a function from the number of a reading to its value. Unsigned arithmetic keeps its
-- wrap-around; `int` fields, which the code never makes negative, are plain numbers.
--
-- `Geometry` says when a build's sizes divide: a zone is a whole number of blocks on each channel of
-- its group, a die a whole number of zones, and the zones fit the device. The build of ftl_config.h
-- satisfies it (Tests). It also asks that the device's counts fit an `int`, since the source multiplies `int`s. A device in order (`IsDevice`) has the arrays that its sizes promise, and each
-- zone has its first pages written, up to its write pointer, and is full exactly if all of them are.
--
-- Fuel: the loop over the blocks of a zone in `zns_reset` gets one more than the blocks of a zone on
-- a channel, which is enough (Ftl/Erase); the loop that waits in `dispatch_io` gets its fuel from the
-- caller (Femu/Bytes), and so does the loop of `queue_cache::get`, for which the number of queues is
-- enough (Cache/Turns), and the binary search of a table, for which one more than the number of keys is
-- enough (Table/Search). The loop of `resetZone` over a zone's slots gets two more than the slots, its loop
-- over zones one more than the tables that move; the loop of `writeTable` that makes room gets its fuel from the
-- caller, and one is enough when a twentieth of the zones are empty (Zones/Write). The merge of tables needs one round more than their pairs, and
-- `update` as many as the pairs and the tables (Kv/Merged).
--
-- A step of a thread pool is what one thread does while it holds the lock, the return of a task, an enqueue, or
-- the start of the destructor; a run is any sequence of such steps. That a thread blocks in a condition variable, and may
-- miss a notification, is a thread that takes no more step; that threads end is not claimed. The manager's requests to the device, to the
-- pool and to a future are a list of events.
--
-- The device's record `commands` is no field of the source: it lists the calls of `ssd_advance_status`, each with its
-- command and page, so that the theorems can say which pages and blocks a request reaches (Ftl/Calls).
--
-- Not modelled: what a page holds (the code keeps no data), the printing of `printppa`, the benchmark src/main.cpp
-- and src/test.h, and how the system runs threads. The hash of
-- MurmurHash3.h, a copy of a public function, is a parameter.
pub mod Base
pub mod Cache
pub mod Femu
pub mod Ftl
pub mod Kv
pub mod Pools
pub mod SkipList
pub mod Table
pub mod Tests
pub mod Zones
