-- ===== src/Kv/Put.antt =====
-- `put` and `del` of src/LSM-Tree/kvstore.cc while the memory table has room.
use lsm_based_on_zns_ssd.Base.{
  sym, add64, sub64, subst, ℕ, ◌+◌, ◌≤◌, ◌<◌, ◌≡◌, refl, ap, ◌∙◌, arith, false, if◌then◌else◌, ltb,
  ◌==◌, List, ◌++◌, Option, some, ◌>>=◌, Bool-cases, inl, inr, length, u64_mod,
}
use lsm_based_on_zns_ssd.Table.Build.{PoolCall}
use lsm_based_on_zns_ssd.Zones.State.{default_sstable_size}
use lsm_based_on_zns_ssd.SkipList.Memory.{skip_put, SkipList, head_key, skip_get}
use lsm_based_on_zns_ssd.SkipList.Columns.{Pairs, value_of}
use lsm_based_on_zns_ssd.SkipList.Lookup.{skip_get-value}
use lsm_based_on_zns_ssd.SkipList.Towers.{put_pair, value_of-put_pair, length-put_pair}
use lsm_based_on_zns_ssd.SkipList.Rooted.{towers-IsSkipList}
use lsm_based_on_zns_ssd.SkipList.Put.{skip_put-Puts}
use lsm_based_on_zns_ssd.Kv.State.{KvStore, is_empty, unmarked, kv_get}
use lsm_based_on_zns_ssd.Kv.Compact.{Setting, account, kv_put}
use lsm_based_on_zns_ssd.Kv.Stock.{Holds, put-InBounds, Older}
use lsm_based_on_zns_ssd.Kv.Answers.{first_of, levels_value, store_value}
use lsm_based_on_zns_ssd.Kv.Get.{kv_get-value}

-- What `put` counts for the memory table does not pass the size of a table.
abbrev pub HasRoom : ℕ → List ℕ → Pairs → KvStore → Type 0
HasRoom key s memory kv =
    ltb default_sstable_size (account (value_of key memory) s kv.mem_table).memory ≡ false

-- What `get` answers.
abbrev pub answer : Setting → ℕ → KvStore → Option (List ℕ)
answer g k kv = kv_get g.hash g.fuel g.levels g.wide k kv >>= λ r. some (r.0)

abbrev pub with_calls : List PoolCall → KvStore → KvStore
with_calls calls kv = record kv { calls = calls }

module _ (g : Setting) (level : ℕ) (memory : Pairs) (tables : List (List Pairs)) (kv : KvStore)
    (w : Holds g level memory tables kv) (wide : length memory < g.wide)
    (deep : level + 2 ≤ g.levels) where
  pub get-Holds :
      (k : ℕ)
      → (more : List PoolCall) × (kv_get g.hash g.fuel g.levels g.wide k kv
          ≡ some (store_value k memory tables, with_calls (kv.calls ++ more) kv))
  get-Holds k =
      let (top, less, list) = towers-IsSkipList kv.mem_table level memory w.towers in
      kv_get-value g.hash g.fuel g.levels g.wide k top kv memory tables list w.tables_hold wide
        (omega (arith, less, deep))

  pub answer-Holds : (k : ℕ) → answer g k kv ≡ some (store_value k memory tables)
  answer-Holds k = let (more, e) = get-Holds k in rw e refl

  pub memory_get :
      (key : ℕ) → skip_get g.levels g.wide key kv.mem_table ≡ some (value_of key memory)
  memory_get key =
      let (top, less, list) = towers-IsSkipList kv.mem_table level memory w.towers in
      skip_get-value kv.mem_table top memory list g.levels g.wide key wide
        (omega (arith, less, deep))

-- The count of the memory that is used is beside the pairs.
pub account-Holds :
    (g : Setting) (level : ℕ) (memory : Pairs) (tables : List (List Pairs)) (kv : KvStore)
    (val s : List ℕ)
    → Holds g level memory tables kv
    → Holds g level memory tables (record kv { mem_table = account val s kv.mem_table })
unfolding account
account-Holds g level memory tables kv val s w = elim (Bool-cases (is_empty val)) [
  | inl e ↦ rw e (counted_by (4 + 8 + length s + 1))
  | inr e ↦ rw e (counted_by (sub64 (length s) (length val)))
]
  where
    counted_by :
        (n : ℕ)
        → Holds g level memory tables
            (record kv { mem_table = record kv.mem_table { memory = add64 kv.mem_table.memory n } })
    counted_by n = record {
      towers = record {
        rows = w.towers.rows;
        towers = w.towers.towers;
        counted = w.towers.counted;
        same = w.towers.same;
        ascends = w.towers.ascends;
        free = w.towers.free;
        sized = w.towers.sized;
      };
      tables_hold = w.tables_hold;
      bounds = w.bounds;
      newer = w.newer;
    }

-- `put` of the memory table.
pub memory_put-Holds :
    (g : Setting) (level : ℕ) (memory : Pairs) (tables : List (List Pairs)) (kv : KvStore) (key : ℕ)
    (s : List ℕ)
    → Holds g level memory tables kv
    → key < head_key
    → length memory < g.wide
    → level + 1 ≤ g.levels
    → length memory + 1 < u64_mod
    → (m : SkipList) × (new_level : ℕ) × (skip_put g.coin g.levels g.wide key s kv.mem_table
        ≡ some m)
      × (new_level ≤ level + 1)
      × Holds g new_level (put_pair key s memory) tables (record kv { mem_table = m })
memory_put-Holds g level memory tables kv key s w inside wide deep fits =
    let (m, run, u) =
      skip_put-Puts g.coin key s inside g.levels g.wide level kv.mem_table memory w.towers wide deep
        fits in
    (
      m,
      u.new_level,
      run,
      u.grows,
      record {
        towers = u.towers;
        tables_hold = w.tables_hold;
        bounds =
            put-InBounds key s kv.mem_table m.min_key m.max_key memory w.bounds u.least u.greatest;
        newer = λ ts e. subst (λ n. Older n ts) (sym u.stamp) (w.newer ts e);
      },
    )

module _ (g : Setting) (level : ℕ) (memory : Pairs) (tables : List (List Pairs)) (kv : KvStore)
    (w : Holds g level memory tables kv) (wide : length memory + 1 < g.wide)
    (deep : level + 3 ≤ g.levels) (fits : length memory + 1 < u64_mod) (key : ℕ)
    (inside : key < head_key) where
  put-Holds :
      (s : List ℕ)
      → HasRoom key s memory kv
      → (kv' : KvStore) × (new_level : ℕ) × (kv_put g key s kv ≡ some kv')
        × (new_level ≤ level + 1)
        × Holds g new_level (put_pair key s memory) tables kv'
  unfolding kv_put
  put-Holds s room =
      let kv₁ : KvStore = record kv { mem_table = account (value_of key memory) s kv.mem_table } in
      let (m, new_level, run, grows, u) =
        memory_put-Holds g level memory tables kv₁ key s
          (account-Holds g level memory tables kv (value_of key memory) s w) inside
          (omega (arith, wide)) (omega (arith, deep)) fits in
      (
        record kv₁ { mem_table = m },
        new_level,
        rw
            (
              memory_get g level memory tables kv w (omega (arith, wide)) (omega (arith, deep)) key,
              room,
              run,
            )
            refl,
        grows,
        u,
      )

  -- In a store in order, for a key below that of the heads, if what `put` counts does not pass the size of a table,
  -- with fuel for the levels and the pairs of the memory table and for those that come, and room for the count,
  -- `put` returns, whatever the coin, a store in order whose memory table has the value of the key. `get` then
  -- answers for the key with this value, or if it is empty with what the tables have; for another key as before;
  -- and with the empty string for the mark of a deletion.
  pub kv_put-Holds :
      (s : List ℕ)
      → HasRoom key s memory kv
      → (kv' : KvStore) × (new_level : ℕ) × (kv_put g key s kv ≡ some kv')
        × Holds g new_level (put_pair key s memory) tables kv'
        × ((k : ℕ)
            → answer g k kv'
              ≡ some (
                  unmarked
                    (first_of (if key == k then s else value_of k memory) (levels_value k tables))))
  kv_put-Holds s room =
      let (kv', new_level, run, grows, u) = put-Holds s room in
      (
        kv',
        new_level,
        run,
        u,
        λ k.
            answer-Holds g new_level (put_pair key s memory) tables kv' u
              (omega (arith, length-put_pair key s memory, wide)) (omega (arith, grows, deep)) k
            ∙ ap (λ v. some (unmarked (first_of v (levels_value k tables))))
                (value_of-put_pair k key s memory),
      )
