-- ===== src/Tests/Merges.antt =====
-- The merge of two tables (src/LSM-Tree/kvstore.cc).
use lsm_based_on_zns_ssd.Base.{
  ℕ, zero, suc, ◌≡◌, refl, subst, arith, true, List, [], ◌∷◌, some, add64,
}
use mathlib.Core.Option.{some-injective}
use lsm_based_on_zns_ssd.SkipList.Columns.{Pairs, Ascends, no_pair, one_more}
use lsm_based_on_zns_ssd.Kv.State.{del_mark}
use lsm_based_on_zns_ssd.Kv.Merge.{merge_tables, find_min}
use lsm_based_on_zns_ssd.Kv.Newest.{find_pair, newest}
use lsm_based_on_zns_ssd.Kv.Heads.{AllAscend}
use lsm_based_on_zns_ssd.Kv.MergeLoop.{flat, keep}
use lsm_based_on_zns_ssd.Kv.Merged.{merge_tables-Merged}

-- An older and a newer table, which share the key 3; the newer one deletes the key 5.
abbrev older : Pairs
older = (3, 1 ∷ []) ∷ (5, 2 ∷ []) ∷ []

abbrev newer : Pairs
newer = (3, 3 ∷ []) ∷ (5, del_mark) ∷ []

pair-Ascends : (v w : List ℕ) → Ascends 0 ((3, v) ∷ (5, w) ∷ [])
pair-Ascends v w =
    one_more 0 3 v ((5, w) ∷ []) (omega arith) (one_more 4 5 w [] (omega arith) (no_pair 6))

both-AllAscend : AllAscend 0 (older ∷ newer ∷ [])
both-AllAscend zero ps e =
    subst (Ascends 0) (some-injective older ps e) (pair-Ascends (1 ∷ []) (2 ∷ []))
both-AllAscend (suc zero) ps e =
    subst (Ascends 0) (some-injective newer ps e) (pair-Ascends (3 ∷ []) del_mark)
both-AllAscend (suc (suc i)) ps e = absurd (ground arith)

merge_tables-Merged_example :
    (files : List Pairs) × (merge_tables 5 6 true (older ∷ newer ∷ []) ≡ some files)
    × Ascends 0 (flat files)
    × ((key : ℕ) → find_pair key (flat files) ≡ keep true (newest key (older ∷ newer ∷ [])))
merge_tables-Merged_example =
    merge_tables-Merged 5 6 true (older ∷ newer ∷ []) both-AllAscend (omega arith) (omega arith)

merged : merge_tables 5 6 true (older ∷ newer ∷ []) ≡ some (((3, 3 ∷ []) ∷ []) ∷ [])
unfolding merge_tables find_min add64
merged = refl
