-- ===== src/Zones/Tables.antt =====
-- `writeTable`, `deleteTable`, `evictZone`, `tryReset` and `resetZone` of src/include/utils.cpp. The code
-- compares quotients of numbers as `double`s; they are compared here as fractions. `none` is a failed
-- assertion, an access outside a container, an exit of the program, or a loop that does not end.
use lsm_based_on_zns_ssd.Base.{
  ℕ, zero, suc, ◌+◌, ◌-◌, ◌/◌, ◌%◌, Bool, true, false, if◌then◌else◌, ltb, leb, List, [], ◌∷◌, ◌++◌,
  Option, none, some, ◌>>=◌, length, get_elem?, set, add64, to_u32,
}
use lsm_based_on_zns_ssd.Cache.Queues.{empty, get}
use lsm_based_on_zns_ssd.Cache.Lru.{LruCache, lru_del}
use lsm_based_on_zns_ssd.Zones.State.{
  MemoryManager, ZoneMeta, ZoneErr, no_such_table, zones_all_full, enqueue_write, zone_err, assign,
  insert, log, default_page_size, default_sstable_size,
}

abbrev pub report : Bool → ZoneErr → MemoryManager → MemoryManager
report true e m = log (zone_err e) m
report false e m = m

-- The arithmetic of `uint16_t`.
abbrev pub to_u16 : ℕ → ℕ
to_u16 a = a % 65_536

abbrev pub with_meta : ℕ → ZoneMeta → MemoryManager → MemoryManager
with_meta zone meta m = record m { zone_metas = set m.zone_metas zone meta }

-- The loop that takes pages out of the cache, with `k` left.
unfoldable pub forget_pages : ℕ → ℕ → LruCache → Option LruCache
forget_pages zero page cache = some cache
forget_pages (suc k) page cache = do cache' ← lru_del page cache; forget_pages k (page + 1) cache'

unfoldable pub manager_delete_table : ℕ → ℕ → MemoryManager → Option MemoryManager
unfolding forget_pages insert
manager_delete_table level num m = do
  pending ← get_elem? m.complete_table level
  table ← get_elem? m.mapping_table level
  elim (table num) [
    | none ↦ if pending num then none else some m
    | some s ↦ do
      let order = to_u32 (s / m.zone_cap)
      meta ← get_elem? m.zone_metas order
      let meta' = record meta {
        valid_table_num = to_u16 (meta.valid_table_num + 65_535);
        deleted_table = meta.deleted_table ++ (s ∷ []);
      }
      let left = s / default_page_size
      let right = add64 s default_sstable_size / default_page_size
      cache ← forget_pages (right + 1 - left) left m.page_cache
      let m₁ = report (leb meta.write_ptr s) no_such_table (
          with_meta order meta' (record m {
            mapping_table = set m.mapping_table level (assign table num none);
            remapping_table = assign m.remapping_table s none;
            page_cache = cache;
          }))
      if pending num
          then none
          else some (
              if leb meta.end meta.write_ptr
              then record m₁ { reset_zones = insert order m₁.reset_zones }
              else m₁)
  ]

abbrev pub extend {ℓ} : {A : Type ℓ} → ℕ → A → List A → List A
extend level a xs = if ltb (length xs) (level + 1) then xs ++ (a ∷ []) else xs

-- The zone in turn is replaced when it is full.
unfoldable pub next_open : ℕ → ZoneMeta → MemoryManager → Option MemoryManager
unfolding insert empty
next_open zone meta m =
    if leb meta.end meta.write_ptr
    then (get (length m.empty_zone.queues) m.empty_zone >>= λ r.
        some (record (report (empty m.empty_zone) zones_all_full m) {
          full_zone = insert zone m.full_zone;
          open_zone = set m.open_zone m.which_zone r.0;
          empty_zone = r.1;
        }))
    else some m

-- `mappingTable[level][num] = s`, and the entries of the other two tables.
unfoldable pub enter_table : ℕ → ℕ → ℕ → MemoryManager → Option MemoryManager
enter_table level num s m = do
  let mapping = extend level (λ n. none) m.mapping_table
  let complete =
      if ltb (length m.mapping_table) (level + 1)
      then m.complete_table ++ ((λ n. false) ∷ [])
      else m.complete_table
  table ← get_elem? mapping level
  pending ← get_elem? complete level
  some (record m {
    mapping_table = set mapping level (assign table num (some s));
    remapping_table = assign m.remapping_table s (some (level, num));
    complete_table = set complete level (assign pending num true);
  })

-- `writeTable` after its loop.
unfoldable pub place_table : ℕ → ℕ → MemoryManager → Option MemoryManager
unfolding next_open enter_table
place_table level num m = do
  zone ← get_elem? m.open_zone m.which_zone
  meta ← get_elem? m.zone_metas zone
  let s = meta.write_ptr
  let meta' = record meta {
    write_ptr = add64 s default_sstable_size;
    valid_table_num = to_u16 (meta.valid_table_num + 1);
  }
  m₁ ← next_open zone meta' (with_meta zone meta' m)
  let which = (m.which_zone + 1) % m.open_zone_num
  m₂ ← enter_table level num s (record m₁ { which_zone = which })
  some (log (enqueue_write (which + 1) default_sstable_size s) m₂)
