-- ===== src/Kv/Merge.antt =====
-- The merge of tables in src/LSM-Tree/kvstore.cc: `update`, and the loops of `compactionForLevel` over the pairs.
-- An iterator is the part of the vector that is left, and `minKey`, a map whose first element is the one with the
-- smallest key, the list of its elements by key. `none` is a use of an iterator at the end, or a loop that does not
-- end.
use lsm_based_on_zns_ssd.Base.{
  ℕ, zero, suc, ◌+◌, Bool, ◌&&◌, if◌then◌else◌, ltb, ◌==◌, List, [], ◌∷◌, ◌++◌, Option, none, some,
  ◌>>=◌, length, get_elem?, set, add64,
}
use lsm_based_on_zns_ssd.Table.Build.{initial_size}
use lsm_based_on_zns_ssd.Zones.State.{default_sstable_size}
use lsm_based_on_zns_ssd.SkipList.Columns.{Pairs}
use lsm_based_on_zns_ssd.Kv.State.{del_mark, same_string}

abbrev pub MinKey : Type 0
MinKey = List (ℕ × ℕ)

-- `find` of a key, and the assignment of its value, which adds the key where it belongs.
unfoldable pub find_min : ℕ → MinKey → Option ℕ
find_min key [] = none
find_min key ((k, i) ∷ rest) = if k == key then some i else find_min key rest

unfoldable pub set_min : ℕ → ℕ → MinKey → MinKey
set_min key i [] = (key, i) ∷ []
set_min key i ((k, j) ∷ rest) =
    if ltb key k
    then (key, i) ∷ ((k, j) ∷ rest)
    else if k == key
    then (key, i) ∷ rest
    else (k, j) ∷ set_min key i rest

-- By the answer of `find`: there is no such key, or the number of its iterator.
abbrev pub if_found {ℓ} : {A : Type ℓ} → Option ℕ → A → (ℕ → A) → A
if_found none new old = new
if_found (some pos) new old = old pos

-- `update`: the loop, and its call of itself.
unfoldable pub update : ℕ → List Pairs → MinKey → ℕ → Option (List Pairs × MinKey)
unfolding set_min
update zero iters min_key index = none
update (suc fuel) iters min_key index = get_elem? iters index >>= λ (left : Pairs). elim left [
  | [] ↦ some (iters, min_key)
  | (p ∷ rest) ↦
      let skip = update fuel (set iters index rest) min_key index in
      if_found (find_min (p.0) min_key) (some (iters, set_min (p.0) index min_key)) (λ pos.
        let replace = update fuel iters (set_min (p.0) index min_key) pos in
        if ltb pos index then replace else skip)
]

-- The loop that finds the first pair of a table whose key no newer table has put into `minKey`.
unfoldable pub first_new : MinKey → ℕ → Pairs → Pairs × MinKey
unfolding set_min
first_new min_key i [] = ([], min_key)
first_new min_key i ((key, value) ∷ rest) =
    let later = first_new min_key i rest in
    if_found (find_min key min_key) ((key, value) ∷ rest, set_min key i min_key) (λ pos. later)

-- The loop over the tables, from the last to the first; the tables given are those from number `i` on.
unfoldable pub first_iters : ℕ → List Pairs → List Pairs × MinKey
unfolding first_new
first_iters i [] = ([], [])
first_iters i (pairs ∷ newer) =
    let r = first_iters (i + 1) newer in let q = first_new (r.1) i pairs in (q.0 ∷ r.0, q.1)

-- The main loop: the files that are written, in order. `min_key` loses its first element in each round; `size` is
-- the size of the file with the pairs of `new_table`.
unfoldable pub merge_loop : ℕ → ℕ → Bool → List Pairs → MinKey → Pairs → ℕ → Option (List Pairs)
unfolding update
merge_loop zero turns last_level iters min_key new_table size = none
merge_loop (suc fuel) turns last_level iters [] new_table size =
    some (if 0 == length new_table then [] else new_table ∷ [])
merge_loop (suc fuel) turns last_level iters ((temp_key, index) ∷ min_key) new_table size = do
  left ← get_elem? iters index
  (pair, rest) ← elim left [ [] ↦ none | p ∷ ps ↦ some (p, ps) ]
  let temp_value = pair.1
  (iters', min_key') ← update turns (set iters index rest) min_key index
  let more = add64 size (length temp_value + 1 + 12)
  let full = ltb default_sstable_size more
  let skipped = merge_loop fuel turns last_level iters' min_key' new_table size
  let written =
      (merge_loop fuel turns last_level iters' min_key' ((temp_key, temp_value) ∷ [])
          (initial_size + length temp_value + 1 + 12)
        >>= λ files. some (new_table ∷ files))
  let added =
      merge_loop fuel turns last_level iters' min_key' (new_table ++ ((temp_key, temp_value) ∷ []))
        more
  if last_level && same_string temp_value del_mark then skipped else if full then written else added

-- From the pairs of the tables, the oldest table first, to the files.
unfoldable pub merge_tables : ℕ → ℕ → Bool → List Pairs → Option (List Pairs)
unfolding first_iters merge_loop
merge_tables fuel turns last_level tables =
    let r = first_iters 0 tables in merge_loop fuel turns last_level (r.0) (r.1) [] initial_size
