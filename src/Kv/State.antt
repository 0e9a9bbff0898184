-- ===== src/Kv/State.antt =====
-- The class `KVStore` of src/LSM-Tree/kvstore.h, the order of `Table`s (src/LSM-Tree/Table.h), and `get` of
-- src/LSM-Tree/kvstore.cc. Strings are lists of bytes. The calls of the zone manager are kept in the order in which
-- they are made: what it answers is not used.
use lsm_based_on_zns_ssd.Base.{
  ℕ, ◌+◌, ◌^◌, Bool, true, false, ◌&&◌, if◌then◌else◌, ltb, ◌==◌, List, [], ◌∷◌, ◌++◌, Option, some,
  ◌>>=◌,
}
use lsm_based_on_zns_ssd.Table.Build.{Table, PoolCall, get_value}
use lsm_based_on_zns_ssd.SkipList.Memory.{SkipList, skip_list, skip_get}

pub record KvStore : Type 0 where
  pub mem_table : SkipList
  pub level : List ℕ
  pub ss_table : List (List Table)
  pub calls : List PoolCall

-- The string "~DELETED~".
abbrev pub del_mark : List ℕ
del_mark = 126 ∷ 68 ∷ 69 ∷ 76 ∷ 69 ∷ 84 ∷ 69 ∷ 68 ∷ 126 ∷ []

abbrev pub upper_num : ℕ → ℕ
upper_num i = 3 ^ (i + 1)

abbrev pub level0 : ℕ
level0 = 3

abbrev pub kv_store : KvStore
kv_store = record { mem_table = skip_list; level = 0 ∷ []; ss_table = [] ∷ []; calls = [] }

-- `==` and `empty` of strings.
abbrev pub same_string : List ℕ → List ℕ → Bool
same_string [] [] = true
same_string [] (y ∷ ys) = false
same_string (x ∷ xs) [] = false
same_string (x ∷ xs) (y ∷ ys) = (x == y) && same_string xs ys

abbrev pub is_empty : List ℕ → Bool
is_empty [] = true
is_empty (x ∷ xs) = false

-- `operator<` of `Table`.
abbrev pub table_less : Table → Table → Bool
table_less a b =
    if a.meta_info.time_stamp == b.meta_info.time_stamp
    then ltb a.min_key b.min_key
    else ltb a.meta_info.time_stamp b.meta_info.time_stamp

-- `emplace` of `set<Table>`: a table that is neither less nor greater than one that is there is not added.
unfoldable pub set_emplace : Table → List Table → List Table
set_emplace t [] = t ∷ []
set_emplace t (u ∷ us) =
    if table_less t u then t ∷ (u ∷ us) else if table_less u t then u ∷ set_emplace t us else u ∷ us

-- `erase` of an element.
unfoldable pub set_erase : Table → List Table → List Table
set_erase t [] = []
set_erase t (u ∷ us) =
    if table_less t u then u ∷ set_erase t us else if table_less u t then u ∷ set_erase t us else us

-- From `rbegin` to `rend`.
abbrev pub backwards {ℓ} : {A : Type ℓ} → List A → List A
backwards [] = []
backwards (x ∷ xs) = backwards xs ++ (x ∷ [])

-- The loops of `get` over the tables of a level, and over the levels.
unfoldable pub get_from_tables : (ℕ → List ℕ) → ℕ → ℕ → List Table → Option (List ℕ × List PoolCall)
get_from_tables hash fuel key [] = some ([], [])
get_from_tables hash fuel key (t ∷ ts) =
    let rest = get_from_tables hash fuel key ts in
    get_value hash fuel key t >>= λ r.
    if is_empty (r.0) then (rest >>= λ q. some (q.0, r.1 ++ q.1)) else some r

unfoldable pub get_from_levels :
    (ℕ → List ℕ) → ℕ → ℕ → List (List Table) → Option (List ℕ × List PoolCall)
unfolding get_from_tables
get_from_levels hash fuel key [] = some ([], [])
get_from_levels hash fuel key (ts ∷ levels) =
    let rest = get_from_levels hash fuel key levels in
    get_from_tables hash fuel key (backwards ts) >>= λ r.
    if is_empty (r.0) then (rest >>= λ q. some (q.0, r.1 ++ q.1)) else some r

-- The mark of a deleted key is not given out.
abbrev pub unmarked : List ℕ → List ℕ
unmarked ans = if same_string ans del_mark then [] else ans

-- `fuel` is for the search in a table, `levels` and `wide` for the skip list.
unfoldable pub kv_get : (ℕ → List ℕ) → ℕ → ℕ → ℕ → ℕ → KvStore → Option (List ℕ × KvStore)
unfolding get_from_levels
kv_get hash fuel levels wide key kv = do
  ans ← skip_get levels wide key kv.mem_table
  let on_disk =
      (get_from_levels hash fuel key kv.ss_table >>= λ r.
      some (unmarked (r.0), record kv { calls = kv.calls ++ r.1 }))
  if is_empty ans then on_disk else some (unmarked ans, kv)
