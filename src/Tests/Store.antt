-- ===== src/Tests/Store.antt =====
-- The key-value store (src/LSM-Tree/kvstore.cc) with a few keys.
use lsm_based_on_zns_ssd.Base.{
  subst, zero, suc, ap, ◌≤◌, to_u32-eq, get_elem?, if◌then◌else◌, ◌==◌, ℕ, ◌≡◌, refl, arith, true,
  false, List, [], ◌∷◌, ◌++◌, Option, some, ◌>>=◌, add64, sub64, to_u32,
}
use mathlib.Core.Option.{some-injective}
use lsm_based_on_zns_ssd.Table.Build.{Table, PoolCall, make_table, get_value}
use lsm_based_on_zns_ssd.Table.Lookup.{table_of, table_of-Stores}
use lsm_based_on_zns_ssd.SkipList.Memory.{SkipList, skip_get, skip_list, skip_put}
use lsm_based_on_zns_ssd.SkipList.Columns.{value_of, Pairs}
use lsm_based_on_zns_ssd.Kv.State.{unmarked, KvStore, kv_store, kv_get, del_mark}
use lsm_based_on_zns_ssd.Kv.Merge.{find_min}
use lsm_based_on_zns_ssd.Kv.Compact.{account, Setting, kv_put, kv_del, compaction_for_level}
use lsm_based_on_zns_ssd.Kv.Answers.{
  first_of, levels_value, Levels, no_level, next_level, no_table, next_table, store_value,
}
use lsm_based_on_zns_ssd.SkipList.Towers.{IsTowers, put_pair}
use lsm_based_on_zns_ssd.Kv.Stock.{Holds, InBounds, Older, no_older, older_and}
use lsm_based_on_zns_ssd.Kv.Flush.{flushed}
use lsm_based_on_zns_ssd.Kv.PutFlush.{IsFull, kv_put-flushed}
use lsm_based_on_zns_ssd.SkipList.Lookup.{IsSkipList}
use lsm_based_on_zns_ssd.Kv.Put.{HasRoom, answer, kv_put-Holds}
use lsm_based_on_zns_ssd.Kv.Del.{kv_del-Deletes}
use lsm_based_on_zns_ssd.Kv.Get.{kv_get-value}
use lsm_based_on_zns_ssd.Tests.Tables.{two-Increasing, two_words}
use lsm_based_on_zns_ssd.Tests.Skip.{two_keys-IsTowers, two_keys, two_pairs, two_keys-IsSkipList}

abbrev first_table : Table
first_table = table_of two_words 0 1 5 2 3 (65 ∷ []) ((7, 66 ∷ []) ∷ [])

-- Two keys in memory, of which so many bytes count as used.
abbrev in_memory : ℕ → SkipList
in_memory n = record two_keys { memory = n; time_stamp = 6 }

-- The keys 3 and 5 in memory, 3 and 7 in a table.
abbrev small_store : KvStore
small_store = record kv_store {
  mem_table = in_memory 1_048_604;
  ss_table = (first_table ∷ []) ∷ [];
}

in_memory-IsSkipList : (n : ℕ) → IsSkipList (in_memory n) 1 two_pairs
in_memory-IsSkipList n = record {
  sized = two_keys-IsSkipList.sized;
  rooted = two_keys-IsSkipList.rooted;
  ascends = two_keys-IsSkipList.ascends;
}

in_memory-IsTowers : (n : ℕ) → IsTowers (in_memory n) 2 two_pairs
in_memory-IsTowers n = record {
  rows = two_keys-IsTowers.rows;
  towers = two_keys-IsTowers.towers;
  counted = two_keys-IsTowers.counted;
  same = two_keys-IsTowers.same;
  ascends = two_keys-IsTowers.ascends;
  free = two_keys-IsTowers.free;
  sized = two_keys-IsTowers.sized;
}

abbrev one_table : List (List Pairs)
one_table = (((3, 65 ∷ []) ∷ (7, 66 ∷ []) ∷ []) ∷ []) ∷ []

small_store-Levels : Levels two_words 9 small_store.ss_table one_table
small_store-Levels =
    next_level (first_table ∷ []) (((3, 65 ∷ []) ∷ (7, 66 ∷ []) ∷ []) ∷ []) [] []
      (next_table first_table ((3, 65 ∷ []) ∷ (7, 66 ∷ []) ∷ []) [] []
        (record {
          stores =
              table_of-Stores two_words 0 1 5 2 3 (65 ∷ []) ((7, 66 ∷ []) ∷ [])
                (two-Increasing (65 ∷ []) (66 ∷ []));
          short = omega arith;
        })
        no_table)
      no_level

kv_get-value_example :
    (more : List PoolCall) × (kv_get two_words 9 3 3 7 small_store
      ≡ some (store_value 7 two_pairs one_table, record small_store { calls = [] ++ more }))
kv_get-value_example =
    kv_get-value two_words 9 3 3 7 1 small_store two_pairs one_table
      (in_memory-IsSkipList 1_048_604) small_store-Levels (omega arith) (omega arith)

abbrev small : Setting
small = record {
  hash = two_words;
  left_size = λ v. 0;
  coin = λ n. false;
  levels = 9;
  wide = 9;
  deep = 3;
  fuel = 9;
  turns = 9;
}

abbrev asked : ℕ → KvStore → Option (List ℕ)
asked key kv = kv_get two_words 9 9 9 key kv >>= λ r. some (r.0)

put_get : (kv_put small 4 (44 ∷ []) kv_store >>= asked 4) ≡ some (44 ∷ [])
unfolding kv_put kv_get add64 sub64 skip_get skip_list skip_put
put_get = refl

put_del_get :
    (kv_put small 4 (44 ∷ []) kv_store >>= λ kv. kv_del small 4 kv >>= λ r. asked 4 (r.1)) ≡ some []
unfolding kv_del kv_get add64 sub64 skip_get skip_list skip_put
put_del_get = refl

-- Four files of level 0, of which the last has the newest value of the key 3, go to level 1.
abbrev file_at : ℕ → ℕ → ℕ → Table
file_at n low v = table_of two_words 0 n n 2 low (v ∷ []) ((9, n ∷ []) ∷ [])

abbrev full_level : KvStore
full_level = record kv_store {
  level = 4 ∷ [];
  ss_table = (file_at 1 3 10 ∷ file_at 2 5 20 ∷ file_at 3 7 30 ∷ file_at 4 3 40 ∷ []) ∷ [];
}

compacted : (compaction_for_level 3 two_words 20 20 1 full_level >>= asked 3) ≡ some (40 ∷ [])
unfolding compaction_for_level kv_get add64 to_u32 skip_get skip_list find_min make_table get_value
compacted = refl

old_kept : (compaction_for_level 3 two_words 20 20 1 full_level >>= asked 5) ≡ some (20 ∷ [])
unfolding compaction_for_level kv_get add64 to_u32 skip_get skip_list find_min make_table get_value
old_kept = refl

two_pairs-InBounds : InBounds 3 5 two_pairs
two_pairs-InBounds = record { above = above; below = below }
  where
    above : (i : ℕ) (q : ℕ × List ℕ) → get_elem? two_pairs i ≡ some q → 3 ≤ q.0
    above zero q e =
        let same : 3 ≡ q.0 = ap (λ p. p.0) (some-injective (3, 30 ∷ []) q e) in omega (arith, same)
    above (suc zero) q e =
        let same : 5 ≡ q.0 = ap (λ p. p.0) (some-injective (5, 50 ∷ []) q e) in omega (arith, same)
    above (suc (suc i)) q e = absurd (ground arith)

    below : (i : ℕ) (q : ℕ × List ℕ) → get_elem? two_pairs i ≡ some q → q.0 ≤ 5
    below zero q e =
        let same : 3 ≡ q.0 = ap (λ p. p.0) (some-injective (3, 30 ∷ []) q e) in omega (arith, same)
    below (suc zero) q e =
        let same : 5 ≡ q.0 = ap (λ p. p.0) (some-injective (5, 50 ∷ []) q e) in omega (arith, same)
    below (suc (suc i)) q e = absurd (ground arith)

in_memory-Holds :
    (n : ℕ) → Holds small 2 two_pairs one_table (record small_store { mem_table = in_memory n })
in_memory-Holds n = record {
  towers = in_memory-IsTowers n;
  tables_hold = small_store-Levels;
  bounds = two_pairs-InBounds;
  newer = λ ts e.
      subst (Older 6) (some-injective (first_table ∷ []) ts e)
        (older_and first_table [] (omega (arith, to_u32-eq 5 (omega arith))) no_older);
}

small_store-HasRoom : HasRoom 7 (70 ∷ []) two_pairs small_store
unfolding account add64
small_store-HasRoom = refl

mark-HasRoom : HasRoom 7 del_mark two_pairs small_store
unfolding account add64
mark-HasRoom = refl

kv_put-Holds_example :
    (kv' : KvStore) × (new_level : ℕ) × (kv_put small 7 (70 ∷ []) small_store ≡ some kv')
    × Holds small new_level (put_pair 7 (70 ∷ []) two_pairs) one_table kv'
    × ((k : ℕ)
        → answer small k kv'
          ≡ some (
              unmarked (
                first_of
                  (if 7 == k then 70 ∷ [] else value_of k two_pairs)
                  (levels_value k one_table))))
kv_put-Holds_example =
    kv_put-Holds small 2 two_pairs one_table small_store (in_memory-Holds 1_048_604) (omega arith)
      (omega arith) (omega arith) 7 (omega arith) (70 ∷ []) small_store-HasRoom

kv_del-Deletes_example :
    (kv' : KvStore) × (kv_del small 7 small_store ≡ some (true, kv'))
    × ((k : ℕ)
        → answer small k kv' ≡ some (if 7 == k then [] else store_value k two_pairs one_table))
kv_del-Deletes_example =
    kv_del-Deletes small 2 two_pairs one_table small_store (in_memory-Holds 1_048_604) (omega arith)
      (omega arith) (omega arith) 7 (omega arith) mark-HasRoom

-- The memory table is full.
abbrev full_store : KvStore
full_store = record small_store { mem_table = in_memory 67_108_860 }

full_store-IsFull : IsFull 7 (70 ∷ []) two_pairs full_store
unfolding account add64
full_store-IsFull = refl

kv_put-flushed_example :
    (kv' : KvStore) × (new_level : ℕ) × (kv_put small 7 (70 ∷ []) full_store ≡ some kv')
    × Holds small new_level (put_pair 7 (70 ∷ []) []) (flushed two_pairs one_table) kv'
    × ((k : ℕ)
        → answer small k kv'
          ≡ some (
              unmarked (
                first_of
                  (if 7 == k then 70 ∷ [] else [])
                  (first_of (value_of k two_pairs) (levels_value k one_table)))))
kv_put-flushed_example =
    kv_put-flushed small 2 two_pairs one_table full_store (in_memory-Holds 67_108_860) (omega arith)
      (omega arith) (omega arith) (omega arith) (omega arith) (omega arith) 0 refl
      (first_table ∷ []) refl (omega arith) 7 (omega arith) (70 ∷ []) full_store-IsFull
