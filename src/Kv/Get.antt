-- ===== src/Kv/Get.antt =====
-- `get` of src/LSM-Tree/kvstore.cc, over the memory table and the levels.
use mathlib.Core.List.{append-nil}
use lsm_based_on_zns_ssd.Base.{
  ℕ, ◌+◌, ◌≤◌, ◌<◌, ◌≡◌, refl, sym, ap, Bool-cases, inl, inr, List, [], ◌++◌, some, length,
}
use lsm_based_on_zns_ssd.Table.Build.{PoolCall}
use lsm_based_on_zns_ssd.SkipList.Columns.{Pairs, value_of}
use lsm_based_on_zns_ssd.SkipList.Memory.{skip_get}
use lsm_based_on_zns_ssd.SkipList.Lookup.{IsSkipList, skip_get-value}
use lsm_based_on_zns_ssd.Kv.State.{KvStore, is_empty, unmarked, kv_get}
use lsm_based_on_zns_ssd.Kv.Answers.{Levels, store_value, get_from_levels-value}

-- In a store whose memory table is a skip list with given pairs, and whose tables store pairs in
-- order, `get` returns and answers with the value in the memory table, or else in the first level that has one, and
-- there in its last table that has one, where the empty string is no value; and with the empty string if that value
-- marks a deletion. Of the store only the log of calls grows. The fuel is more than the pairs of each table, the
-- levels of the skip list and its pairs.
pub kv_get-value :
    (hash : ℕ → List ℕ) (fuel levels wide key level : ℕ) (kv : KvStore) (memory : Pairs)
    (tables : List (List Pairs))
    → IsSkipList kv.mem_table level memory
    → Levels hash fuel kv.ss_table tables
    → length memory < wide
    → level + 2 ≤ levels
    → (more : List PoolCall) × (kv_get hash fuel levels wide key kv
        ≡ some (store_value key memory tables, record kv { calls = kv.calls ++ more }))
unfolding kv_get
kv_get-value hash fuel levels wide key level kv memory tables w t h k =
    let e : skip_get levels wide key kv.mem_table ≡ some (value_of key memory) =
      skip_get-value kv.mem_table level memory w levels wide key h k in
    let (calls, run) = get_from_levels-value hash fuel key kv.ss_table tables t in
    elim (Bool-cases (is_empty (value_of key memory))) [
      | inl none_here ↦ (calls, rw (e, none_here, run) refl)
      | inr here ↦ (
        [],
        rw (e, here)
            (ap (λ c. some (unmarked (value_of key memory), record kv { calls = c }))
              (sym (append-nil kv.calls))),
      )
    ]
