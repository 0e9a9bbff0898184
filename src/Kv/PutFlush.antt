-- ===== src/Kv/PutFlush.antt =====
-- `put` of src/LSM-Tree/kvstore.cc when the memory table is full and level 0 is not.
use lsm_based_on_zns_ssd.Base.{
  ℕ, ◌+◌, ◌≤◌, ◌<◌, ◌≡◌, refl, ap, ◌∙◌, arith, true, false, if◌then◌else◌, ltb, ◌==◌, List, [],
  some, Bool-cases, inl, inr, get_elem?, length, u32_mod,
}
use lsm_based_on_zns_ssd.Table.Build.{Table}
use lsm_based_on_zns_ssd.Zones.State.{default_sstable_size}
use lsm_based_on_zns_ssd.SkipList.Memory.{SkipList, head_key}
use lsm_based_on_zns_ssd.SkipList.Columns.{Pairs, value_of}
use lsm_based_on_zns_ssd.SkipList.Towers.{put_pair}
use lsm_based_on_zns_ssd.Kv.State.{KvStore, level0, is_empty, unmarked}
use lsm_based_on_zns_ssd.Kv.Compact.{Setting, account, make_space, kv_put}
use lsm_based_on_zns_ssd.Kv.Answers.{first_of, levels_value}
use lsm_based_on_zns_ssd.Kv.Stock.{Holds}
use lsm_based_on_zns_ssd.Kv.Flush.{flushed, levels_value-flushed, flush-Holds}
use lsm_based_on_zns_ssd.Kv.Put.{answer, answer-Holds, memory_get, account-Holds, memory_put-Holds}

abbrev pub IsFull : ℕ → List ℕ → Pairs → KvStore → Type 0
IsFull key s memory kv =
    ltb default_sstable_size (account (value_of key memory) s kv.mem_table).memory ≡ true

account-stamp : (val s : List ℕ) (m : SkipList) → (account val s m).time_stamp ≡ m.time_stamp
unfolding account
account-stamp val s m = elim (Bool-cases (is_empty val)) [ inl e ↦ rw e refl | inr e ↦ rw e refl ]

module _ (g : Setting) (level : ℕ) (memory : Pairs) (tables : List (List Pairs)) (kv : KvStore)
    (w : Holds g level memory tables kv) (pos : 0 < length memory) (wide : length memory < g.wide)
    (searched : length memory < g.fuel) (some_wide : 1 < g.wide) (deep : level + 3 ≤ g.levels)
    (early : kv.mem_table.time_stamp + 1 < u32_mod) (count : ℕ)
    (counted : get_elem? kv.level 0 ≡ some count) (ts : List Table)
    (level_0 : get_elem? kv.ss_table 0 ≡ some ts) (small : count + 1 ≤ level0) (key : ℕ)
    (inside : key < head_key) (s : List ℕ) where
  -- Room is made.
  make_space-Holds :
      (kv' : KvStore) × (make_space g
          (value_of key memory)
          s
          (record kv { mem_table = account (value_of key memory) s kv.mem_table })
        ≡ some kv')
      × Holds g 0 [] (flushed memory tables) kv'
  unfolding make_space
  make_space-Holds =
      let kv₁ : KvStore = record kv { mem_table = account (value_of key memory) s kv.mem_table } in
      let (kv₂, run, v, now) =
        flush-Holds g level memory tables kv₁
          (account-Holds g level memory tables kv (value_of key memory) s w) pos wide searched
          (omega (arith, deep))
          (omega (arith, account-stamp (value_of key memory) s kv.mem_table, early)) count counted
          ts level_0 in
      let below : ltb level0 (count + 1) ≡ false = ground (arith, small) in
      (
        record kv₂ { mem_table = account (value_of key memory) s kv₂.mem_table },
        rw (run, now, below) refl,
        account-Holds g 0 [] (flushed memory tables) kv₂ (value_of key memory) s v,
      )

  -- In a store in order whose memory table is not empty and full by the count of `put`, with fewer tables in level 0
  -- than a compaction needs, for a key below that of the heads, with fuel for the pairs and the levels of the memory
  -- table and a time stamp that fits 32 bits, `put` returns, whatever the coin, a store in order. The pairs of the
  -- memory table are in a table at the end of level 0, and the memory table holds just the pair that was put. `get`
  -- then answers for the key with the value, or if it is empty with what it answered before; for another key as
  -- before; and with the empty string for the mark of a deletion.
  pub kv_put-flushed :
      IsFull key s memory kv
      → (kv' : KvStore) × (new_level : ℕ) × (kv_put g key s kv ≡ some kv')
        × Holds g new_level (put_pair key s []) (flushed memory tables) kv'
        × ((k : ℕ)
            → answer g k kv'
              ≡ some (
                  unmarked (
                    first_of
                      (if key == k then s else [])
                      (first_of (value_of k memory) (levels_value k tables)))))
  unfolding kv_put
  kv_put-flushed full =
      let (kv₂, made, v) = make_space-Holds in
      let (m, new_level, run, grows, u) =
        memory_put-Holds g 0 [] (flushed memory tables) kv₂ key s v inside
          (omega (arith, some_wide)) (omega (arith, deep)) (omega arith) in
      (
        record kv₂ { mem_table = m },
        new_level,
        rw (memory_get g level memory tables kv w wide (omega (arith, deep)) key, full, made, run)
            refl,
        u,
        λ k.
            answer-Holds g new_level (put_pair key s []) (flushed memory tables)
              (record kv₂ { mem_table = m }) u some_wide (omega (arith, grows, deep)) k
            ∙ ap (λ a. some (unmarked (first_of (value_of k (put_pair key s [])) a)))
                (levels_value-flushed k memory tables),
      )
