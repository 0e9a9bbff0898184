-- ===== src/Kv/Compact.antt =====
-- `compactionForLevel`, `writeToFile`, `put` and `del` of src/LSM-Tree/kvstore.cc.
use lsm_based_on_zns_ssd.Base.{
  ℕ, zero, suc, ◌+◌, ◌-◌, Bool, true, false, not, ◌&&◌, if◌then◌else◌, ltb, leb, ◌==◌, List, [],
  ◌∷◌, ◌++◌, Option, none, some, ◌>>=◌, length, get_elem?, set, add64, sub64,
}
use lsm_based_on_zns_ssd.Table.Build.{Table, PoolCall, pool_try_reset, make_table, traverse, clear}
use lsm_based_on_zns_ssd.Table.Flush.{flush_table}
use lsm_based_on_zns_ssd.Zones.State.{default_sstable_size}
use lsm_based_on_zns_ssd.SkipList.Columns.{Pairs}
use lsm_based_on_zns_ssd.SkipList.Memory.{SkipList, skip_get, skip_put, int64_max}
use lsm_based_on_zns_ssd.Kv.State.{
  KvStore, upper_num, level0, table_less, set_emplace, set_erase, is_empty, del_mark, kv_get,
}
use lsm_based_on_zns_ssd.Kv.Merge.{merge_tables}

-- The first `n` files of a level; an iterator at the end has no file.
unfoldable pub first_files : ℕ → List Table → Option (List Table)
first_files zero ts = some []
first_files (suc n) [] = none
first_files (suc n) (t ∷ ts) = do rest ← first_files n ts; some (t ∷ rest)

pub record Range : Type 0 where
  pub time_stamp : ℕ
  pub temp_min : ℕ
  pub temp_max : ℕ

-- The time stamp and the keys of the files that move, over the loop.
unfoldable pub range_of : List Table → Range → Range
range_of [] r = r
range_of (t ∷ ts) r = range_of ts (record {
  time_stamp = t.meta_info.time_stamp;
  temp_min = if ltb t.min_key r.temp_min then t.min_key else r.temp_min;
  temp_max = if ltb r.temp_max t.max_key then t.max_key else r.temp_max;
})

-- The files of a level that share keys with the range.
unfoldable pub overlapping : Range → List Table → List Table
overlapping r [] = []
overlapping r (t ∷ ts) =
    let rest = overlapping r ts in
    if leb r.temp_min t.max_key && leb t.min_key r.temp_max then t ∷ rest else rest

-- What the priority queue hands out: the files by time stamp and smallest key.
unfoldable pub push_file : Table → List Table → List Table
push_file t [] = t ∷ []
push_file t (u ∷ us) = if table_less u t then u ∷ push_file t us else t ∷ (u ∷ us)

unfoldable pub sort_files : List Table → List Table
unfolding push_file
sort_files [] = []
sort_files (t ∷ ts) = push_file t (sort_files ts)

-- `traverse` of each file.
unfoldable pub traverse_files : List Table → List Pairs × List PoolCall
unfolding traverse
traverse_files [] = ([], [])
traverse_files (t ∷ ts) = let r = traverse_files ts in ((traverse t).0 ∷ r.0, (traverse t).1 ++ r.1)

unfoldable pub write_to_file : (ℕ → List ℕ) → ℕ → ℕ → Pairs → KvStore → Option KvStore
unfolding set_emplace
write_to_file hash level time_stamp new_table kv = do
  count ← get_elem? kv.level level
  tables ← get_elem? kv.ss_table level
  (t, calls) ← make_table hash level (count + 1) time_stamp (length new_table) new_table
  some (record kv {
    level = set kv.level level (count + 1);
    ss_table = set kv.ss_table level (set_emplace t tables);
    calls = kv.calls ++ calls;
  })

unfoldable pub write_files : (ℕ → List ℕ) → ℕ → ℕ → List Pairs → KvStore → Option KvStore
unfolding write_to_file
write_files hash level time_stamp [] kv = some kv
write_files hash level time_stamp (new_table ∷ files) kv = do
  kv₁ ← write_to_file hash level time_stamp new_table kv
  write_files hash level time_stamp files kv₁

-- The loop that deletes the files of a level.
unfoldable pub remove_files : ℕ → List Table → KvStore → Option KvStore
unfolding set_erase
remove_files level [] kv = some kv
remove_files level (t ∷ ts) kv = do
  tables ← get_elem? kv.ss_table level
  remove_files level ts (record kv {
    ss_table = set kv.ss_table level (set_erase t tables);
    calls = kv.calls ++ clear t;
  })

-- A new level at the end.
unfoldable pub push_level : ℕ → KvStore → KvStore
push_level level kv =
    if leb (length kv.level) level
    then record kv { level = kv.level ++ (0 ∷ []); ss_table = kv.ss_table ++ ([] ∷ []) }
    else kv

-- One round of `compactionForLevel`, with the number of files that move.
unfoldable pub compact_round : (ℕ → List ℕ) → ℕ → ℕ → ℕ → ℕ → KvStore → Option KvStore
unfolding first_files range_of overlapping sort_files traverse_files merge_tables write_files
    remove_files
compact_round hash fuel turns level compact_num kv = do
  above ← get_elem? kv.ss_table (level - 1)
  moved ← first_files compact_num above
  below ← get_elem? kv.ss_table level
  let r = range_of moved (record { time_stamp = 0; temp_min = int64_max; temp_max = 0 })
  let hit = overlapping r below
  let read = traverse_files (sort_files (moved ++ hit))
  files ← merge_tables fuel turns (level == length kv.ss_table - 1) (read.0)
  kv₁ ← write_files hash level r.time_stamp files (record kv { calls = kv.calls ++ read.1 })
  kv₂ ← remove_files (level - 1) moved kv₁
  remove_files level hit kv₂

-- The recursion, with fuel for the levels.
unfoldable pub compaction_for_level : ℕ → (ℕ → List ℕ) → ℕ → ℕ → ℕ → KvStore → Option KvStore
unfolding push_level compact_round
compaction_for_level zero hash fuel turns level kv = none
compaction_for_level (suc deep) hash fuel turns level kv =
    get_elem? kv.ss_table (level - 1) >>= λ (above : List Table).
    let sst_num = length above in
    let compact_num = if level == 1 then level0 + 1 else sst_num - upper_num (level - 1) in
    let next =
      (compact_round hash fuel turns level compact_num (push_level level kv)
        >>= compaction_for_level deep hash fuel turns (level + 1)) in
    if not (level == 1) && leb sst_num (upper_num (level - 1))
    then some (record kv { calls = kv.calls ++ (pool_try_reset ∷ []) })
    else next

-- What `put` adds to `memory`.
unfoldable pub account : List ℕ → List ℕ → SkipList → SkipList
account val s mem_table =
    if is_empty val
    then record mem_table { memory = add64 mem_table.memory (4 + 8 + length s + 1) }
    else record mem_table { memory = add64 mem_table.memory (sub64 (length s) (length val)) }

-- The memory table becomes a file of level 0.
unfoldable pub flush : (ℕ → List ℕ) → (List ℕ → ℕ) → ℕ → ℕ → KvStore → Option KvStore
unfolding set_emplace
flush hash left_size levels wide kv = do
  count ← get_elem? kv.level 0
  tables ← get_elem? kv.ss_table 0
  (t, calls, mem_table) ← flush_table hash left_size levels wide (count + 1) kv.mem_table
  some (record kv {
    mem_table = mem_table;
    level = set kv.level 0 (count + 1);
    ss_table = set kv.ss_table 0 (set_emplace t tables);
    calls = kv.calls ++ calls;
  })

-- `left_size` and `coin` as in Table/Flush and SkipList/Memory.
pub record Setting : Type 0 where
  pub hash : ℕ → List ℕ
  pub left_size : List ℕ → ℕ
  pub coin : ℕ → Bool
  pub levels : ℕ
  pub wide : ℕ
  pub deep : ℕ
  pub fuel : ℕ
  pub turns : ℕ

-- The part of `put` that makes room.
unfoldable pub make_space : Setting → List ℕ → List ℕ → KvStore → Option KvStore
unfolding flush account compaction_for_level
make_space g val s kv = do
  kv₁ ← flush g.hash g.left_size g.levels g.wide kv
  let kv₂ = record kv₁ { mem_table = account val s kv₁.mem_table }
  count ← get_elem? kv₂.level 0
  let compacted =
      (compaction_for_level g.deep g.hash g.fuel g.turns 1 kv₂ >>= λ (kv₃ : KvStore).
      some (record kv₃ { level = set kv₃.level 0 0 }))
  if ltb level0 count then compacted else some kv₂

unfoldable pub kv_put : Setting → ℕ → List ℕ → KvStore → Option KvStore
unfolding make_space account
kv_put g key s kv = do
  val ← skip_get g.levels g.wide key kv.mem_table
  let kv₁ = record kv { mem_table = account val s kv.mem_table }
  let spaced = make_space g val s kv₁
  kv₂ ← if ltb default_sstable_size kv₁.mem_table.memory then spaced else some kv₁
  mem_table ← skip_put g.coin g.levels g.wide key s kv₂.mem_table
  some (record kv₂ { mem_table = mem_table })

unfoldable pub kv_del : Setting → ℕ → KvStore → Option (Bool × KvStore)
unfolding kv_put
kv_del g key kv = do
  (value, kv₁) ← kv_get g.hash g.fuel g.levels g.wide key kv
  let put_mark = (kv_put g key del_mark kv₁ >>= λ kv₂. some (true, kv₂))
  if is_empty value then some (false, kv₁) else put_mark
