-- ===== src/Zones/Reset.antt =====
-- `resetZone`, `tryReset`, `evictZone` and `writeTable` of src/include/utils.cpp: a zone is emptied, after
-- the tables that are still in it have been written to other zones. The code compares quotients of numbers
-- as `double`s; they are compared here as fractions. `none` is an exit of the program, an access outside
-- a container, or a loop that does not end.
use lsm_based_on_zns_ssd.Base.{
  ℕ, zero, suc, ◌+◌, ◌-◌, ◌*◌, ◌/◌, Bool, true, false, not, ◌||◌, if◌then◌else◌, ltb, leb, ◌==◌,
  List, [], ◌∷◌, Option, none, some, ◌>>=◌, length, get_elem?, set, add64, mul64,
}
use lsm_based_on_zns_ssd.Cache.Queues.{empty, get, put, getsize}
use lsm_based_on_zns_ssd.Zones.State.{
  MemoryManager, ZoneMeta, not_in_full_queue, valid_table_wrong, femu_read_call, femu_write_call,
  femu_reset_call, assign, contains, insert, erase, log, default_sstable_size,
}
use lsm_based_on_zns_ssd.Zones.Reads.{wait_for}
use lsm_based_on_zns_ssd.Zones.Tables.{to_u16, report, with_meta, place_table}

-- `remappingTable[table]` where there is nothing.
abbrev or_zero : Option (ℕ × ℕ) → ℕ × ℕ
or_zero none = (0, 0)
or_zero (some it) = it

-- What `std::sort` does to the addresses of deleted tables.
unfoldable pub sorted_insert : ℕ → List ℕ → List ℕ
sorted_insert a [] = a ∷ []
sorted_insert a (x ∷ xs) = if leb a x then a ∷ (x ∷ xs) else x ∷ sorted_insert a xs

unfoldable pub sort : List ℕ → List ℕ
unfolding sorted_insert
sort [] = []
sort (x ∷ xs) = sorted_insert x (sort xs)

-- The tables of a zone that are still there, from the slot `table` on; `deleted` is sorted.
unfoldable pub live_tables : ℕ → ℕ → ℕ → List ℕ → MemoryManager → Option (List ℕ × MemoryManager)
unfolding wait_for
live_tables zero table end deleted m = none
live_tables (suc fuel) table end deleted m =
    let keep = (do
      let it = or_zero (m.remapping_table table)
      m₁ ←
          wait_for (it.0) (it.1)
            (record m { remapping_table = assign m.remapping_table table (some it) })
      (rest, m₂) ←
          live_tables fuel (add64 table default_sstable_size) end deleted
            (log (femu_read_call default_sstable_size table false) m₁)
      some (table ∷ rest, m₂)) in
    let skip = λ (ds : List ℕ). live_tables fuel (add64 table default_sstable_size) end ds m in
    if ltb table end
    then elim deleted [ [] ↦ keep | d ∷ ds ↦ if d == table then skip ds else keep ]
    else some ([], m)

-- The inner loop over the slots of the zone to write to: the tables that are left, and how many were
-- written since the last zone that became full.
unfoldable pub fill_zone :
    ℕ → ℕ → ℕ → List ℕ → ℕ → MemoryManager → Option (List ℕ × ℕ × MemoryManager)
fill_zone zero table end tables since m = none
fill_zone (suc fuel) table end [] since m = some ([], since, m)
fill_zone (suc fuel) table end (from ∷ tables) since m =
    let it = or_zero (m.remapping_table from) in
    let rest =
      (get_elem? m.mapping_table (it.0) >>= λ mapping.
      fill_zone fuel (add64 table default_sstable_size) end tables (since + 1) (
        log (femu_write_call default_sstable_size table false) (record m {
          mapping_table = set m.mapping_table (it.0) (assign mapping (it.1) (some table));
          remapping_table = assign (assign m.remapping_table from none) table (some it);
        }))) in
    if ltb table end then rest else some (from ∷ tables, since, m)

-- The loop that writes the tables to other zones.
unfoldable pub relocate : ℕ → List ℕ → ℕ → MemoryManager → Option MemoryManager
unfolding fill_zone insert
relocate zero tables since m = none
relocate (suc fuel) [] since m = some m
relocate (suc fuel) (t ∷ tables) since m = do
  (zone, q) ← if empty m.empty_zone then none else get (length m.empty_zone.queues) m.empty_zone
  meta ← get_elem? m.zone_metas zone
  (rest, since', m₁) ←
      fill_zone (length tables + 2) meta.write_ptr meta.end (t ∷ tables) since
        (record m { empty_zone = q })
  let meta' = record meta {
    write_ptr = add64 meta.write_ptr (mul64 since' default_sstable_size);
    valid_table_num = to_u16 (meta.valid_table_num + since');
  }
  let m₂ = with_meta zone meta' m₁
  let full = leb meta'.end meta'.write_ptr
  q' ← if full then some m₂.empty_zone else put zone m₂.empty_zone
  relocate fuel rest (if full then 0 else since') (record m₂ {
    empty_zone = q';
    full_zone = if full then insert zone m₂.full_zone else m₂.full_zone;
  })

-- The end of `resetZone`: the zone is emptied on the device and given back.
unfoldable pub empty_out : ℕ → MemoryManager → Option MemoryManager
unfolding erase
empty_out zone m = do
  meta ← get_elem? m.zone_metas zone
  let meta' = record meta { write_ptr = meta.start; valid_table_num = 0; deleted_table = [] }
  q ← put zone m.empty_zone
  some (record (with_meta zone meta' (log (femu_reset_call m.zone_cap meta.start) m)) {
    empty_zone = q;
    full_zone = erase zone m.full_zone;
    reset_times = m.reset_times + 1;
  })

unfoldable pub save_tables : ℕ → ZoneMeta → MemoryManager → Option MemoryManager
unfolding sort live_tables relocate
save_tables zone meta m = do
  let meta' = record meta { deleted_table = sort meta.deleted_table }
  let slots = (meta.end - meta.start) / default_sstable_size + 2
  (tables, m₁) ← live_tables slots meta.start meta.end meta'.deleted_table (with_meta zone meta' m)
  relocate (length tables + 1) tables 0
      (report (not (length tables == meta.valid_table_num)) valid_table_wrong m₁)

-- Only a zone that is full is emptied, and if more than a fifth of it is in use only when `force` says so.
unfoldable pub reset_zone : ℕ → Bool → MemoryManager → Option MemoryManager
unfolding save_tables empty_out
reset_zone zone force m = do
  meta ← get_elem? m.zone_metas zone
  let maximum_table = m.zone_cap / default_sstable_size
  let m₁ = report (not (contains zone m.full_zone)) not_in_full_queue m
  let used = meta.valid_table_num
  if ltb meta.write_ptr meta.end
      then some m
      else if used == maximum_table
      then (if force then none else some m₁)
      else if ltb (5 * used) maximum_table || force
      then ((if used == 0 then some m₁ else save_tables zone meta m₁) >>= empty_out zone)
      else some m₁

-- The loop of `tryReset`.
unfoldable pub reset_each : List ℕ → MemoryManager → Option MemoryManager
unfolding reset_zone
reset_each [] m = some m
reset_each (z ∷ zs) m = do m₁ ← reset_zone z false m; reset_each zs m₁

unfoldable pub try_reset : MemoryManager → Option MemoryManager
unfolding reset_each
try_reset m = do m₁ ← reset_each m.reset_zones m; some (record m₁ { reset_zones = [] })

-- The loop of `evictZone`: the zone with the fewest tables so far, and their number.
unfoldable pub least_used : List ℕ → List ZoneMeta → ℕ → ℕ → Option ℕ
least_used [] metas to_reset min_num = some to_reset
least_used (z ∷ zs) metas to_reset min_num = do
  meta ← get_elem? metas z
  let less = ltb meta.valid_table_num min_num
  least_used zs metas (if less then z else to_reset)
      (if less then meta.valid_table_num else min_num)

abbrev first : List ℕ → Option ℕ
first [] = none
first (z ∷ zs) = some z

unfoldable pub evict_zone : MemoryManager → Option MemoryManager
unfolding try_reset least_used reset_zone
evict_zone m = if leb 1 (length m.reset_zones) then try_reset m else (do
  z ← first m.full_zone
  to_reset ← least_used m.full_zone m.zone_metas z (m.zone_cap / default_sstable_size)
  reset_zone to_reset true m)

-- The loop of `writeTable`: as long as fewer than a twentieth of the zones are empty.
unfoldable pub make_room : ℕ → MemoryManager → Option MemoryManager
unfolding evict_zone getsize
make_room zero m = none
make_room (suc fuel) m =
    let rest = evict_zone m >>= make_room fuel in
    if ltb (20 * getsize m.empty_zone) m.zone_num then rest else some m

unfoldable pub manager_write_table : ℕ → ℕ → ℕ → MemoryManager → Option MemoryManager
unfolding make_room place_table
manager_write_table fuel level num m = do m₁ ← make_room fuel m; place_table level num m₁
