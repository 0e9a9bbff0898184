-- ===== src/Zones/Reads.antt =====
-- `getValue` and `readTable` of src/include/utils.cpp: which pages are read, and which are in the cache.
use lsm_based_on_zns_ssd.Base.{
  ℕ, zero, suc, ◌+◌, ◌-◌, ◌*◌, ◌/◌, ◌%◌, true, false, if◌then◌else◌, ◌==◌, List, [], ◌∷◌, ◌++◌,
  Option, none, some, ◌>>=◌, length, get_elem?, set, add64, sub64, mul64, to_u32,
}
use lsm_based_on_zns_ssd.Cache.Lru.{LruCache, lru_get, lru_put, not_found}
use lsm_based_on_zns_ssd.Zones.State.{
  MemoryManager, femu_read_call, wait_table, assign, log, default_page_size, default_sstable_size,
}

-- The test of `completeTable`, the wait and the erase.
unfoldable pub wait_for : ℕ → ℕ → MemoryManager → Option MemoryManager
wait_for level num m = do
  table ← get_elem? m.complete_table level
  some (
      if table num
      then log (wait_table level num)
          (record m { complete_table = set m.complete_table level (assign table num false) })
      else m)

-- `mappingTable[level][num]`, which adds a 0 where there is nothing.
unfoldable pub mapped_at : ℕ → ℕ → MemoryManager → Option (ℕ × MemoryManager)
mapped_at level num m = do
  table ← get_elem? m.mapping_table level
  elim (table num) [
    | some s ↦ some (s, m)
    | none ↦
        some (0, record m { mapping_table = set m.mapping_table level (assign table num (some 0)) })
  ]

-- The first loop, with `k` pages left from `page` on: it stops at a page that is not in the cache.
unfoldable pub skip_cached : ℕ → ℕ → LruCache → Option (ℕ × ℕ × LruCache)
skip_cached zero page cache = some (zero, page, cache)
skip_cached (suc k) page cache = do
  (found, cache') ← lru_get page cache
  let rest = skip_cached k (page + 1) cache'
  if found == not_found then some (suc k, page, cache') else rest

-- `UINT64_MAX`.
abbrev pub no_batch : ℕ
no_batch = 18_446_744_073_709_551_615

-- The second loop: the intervals of pages that are not in the cache, which it puts there.
unfoldable pub read_batches :
    ℕ → ℕ → LruCache → ℕ → ℕ → List (ℕ × ℕ) → Option (List (ℕ × ℕ) × LruCache)
read_batches zero page cache batch_left batch_right interval = some (
  if batch_left == no_batch then interval else interval ++ ((batch_left, batch_right) ∷ []),
  cache,
)
read_batches (suc k) page cache batch_left batch_right interval = do
  (found, cache') ← lru_get page cache
  if found == not_found
      then (lru_put page cache' >>= λ cache''.
          read_batches k (page + 1) cache'' (if batch_left == no_batch then page else batch_left)
            page interval)
      else if batch_left == no_batch
      then read_batches k (page + 1) cache' batch_left batch_right interval
      else read_batches k (page + 1) cache' no_batch batch_right
          (interval ++ ((batch_left, batch_right) ∷ []))

-- The reads of the intervals.
unfoldable pub read_intervals : List (ℕ × ℕ) → MemoryManager → MemoryManager
read_intervals [] m = m
read_intervals ((first, last) ∷ rest) m = read_intervals rest (
    log
      (femu_read_call (mul64 (add64 (sub64 last first) 1) default_page_size)
        (mul64 first default_page_size) true)
      m)

unfoldable pub manager_get_value : ℕ → ℕ → ℕ → ℕ → MemoryManager → Option MemoryManager
unfolding wait_for mapped_at skip_cached read_batches read_intervals
manager_get_value level num offset length_ m = do
  m₁ ← wait_for level num m
  (s, m₂) ← mapped_at level num m₁
  let left = add64 s offset / default_page_size
  let right = add64 (add64 s offset) length_ / default_page_size
  (k, page, cache) ← skip_cached (right + 1 - left) left m₂.page_cache
  (interval, cache') ← read_batches k page cache no_batch no_batch []
  let m₃ = read_intervals interval (record m₂ { page_cache = cache' })
  some (record m₃ { read_num = to_u32 (m₃.read_num + length interval) })

unfoldable pub manager_read_table : ℕ → ℕ → ℕ → ℕ → MemoryManager → Option MemoryManager
unfolding wait_for mapped_at
manager_read_table level num offset length_ m = do
  m₁ ← wait_for level num m
  (s, m₂) ← mapped_at level num m₁
  let from = add64 s offset
  let to = add64 from length_
  let left = from / default_page_size * default_page_size
  let right =
      if to % default_sstable_size == 0
      then to
      else mul64 (to / default_page_size + 1) default_page_size
  some (log (femu_read_call (sub64 right left) left true) m₂)
