-- ===== src/Table/Filled.antt =====
-- The constructor of `Table` from a `SkipList` (src/LSM-Tree/Table.cpp) takes the pairs that the skip list holds.

use lsm_based_on_zns_ssd.Base.{
  ℕ, ◌+◌, ◌≤◌, ◌<◌, ◌≡◌, refl, ap, arith, false, List, [], ◌∷◌, Option, none, some, ◌>>=◌, length,
  to_u32, add64, map,
}
use lsm_based_on_zns_ssd.Table.Build.{Table, write_table, fill_filter, data_area}
use lsm_based_on_zns_ssd.Table.Flush.{first_right, fill_table}
use lsm_based_on_zns_ssd.SkipList.Memory.{
  Node, SkipList, first_node_loop, get_first_node, get_time_stamp, get_size, get_min_max_key,
}
use lsm_based_on_zns_ssd.SkipList.Columns.{Pairs, Column}
use lsm_based_on_zns_ssd.SkipList.Lookup.{IsSkipList, Rooted, no_level, top_level}
use lsm_based_on_zns_ssd.Table.Rows.{
  Row, bottom-Row, first_node_loop-Column, filter_nodes-Row, Indexes, offset_nodes-Indexes,
}

-- The table has the pairs of the skip list, their filter, their keys in its index, and the two bounds of the list.
pub record Fills (hash : ℕ → List ℕ) (left_size : List ℕ → ℕ) (fuel wide order : ℕ) (s : SkipList)
    (pairs : Pairs) : Type 0 where
  pub t : Table
  pub after : SkipList
  pub returns :
      fill_table hash left_size fuel wide order s ≡ some (t, write_table 0 order ∷ [], after)
  pub key_value : t.key_value ≡ pairs
  pub bloom : t.bloom_filter ≡ fill_filter hash pairs (λ j. false)
  pub keys : map (λ o. o.0) t.offset ≡ map (λ o. o.0) pairs
  pub pair_num : t.meta_info.pair_num ≡ to_u32 (length pairs)
  pub advanced : after ≡ record s { time_stamp = add64 s.time_stamp 1 }
  pub stamped : t.meta_info.time_stamp ≡ to_u32 s.time_stamp
  pub least : t.min_key ≡ s.min_key
  pub greatest : t.max_key ≡ s.max_key

root_bottom :
    (fuel level : ℕ) (pairs : Pairs) (nodes : ℕ → Option Node) (head : Option ℕ)
    → Rooted nodes head level pairs
    → 0 < length pairs
    → level + 2 ≤ fuel
    → (b : ℕ) × (first_node_loop fuel nodes head none ≡ some (some b)) × Column nodes 0 b pairs
root_bottom fuel _ _ nodes _ no_level pos h = absurd (omega (arith, pos))
root_bottom fuel _ _ nodes _ (top_level a level pairs c) pos h =
    first_node_loop-Column nodes fuel level a pairs none c h

-- `GetFirstNode()->right` leads along all pairs.
first_right-Row :
    (fuel level : ℕ) (pairs : Pairs) (s : SkipList)
    → Rooted s.nodes s.head level pairs
    → 0 < length pairs
    → level + 2 ≤ fuel
    → (p : Option ℕ) × (first_right fuel s ≡ some p) × Row s.nodes p pairs
unfolding first_right get_first_node
first_right-Row fuel level pairs s r pos h =
    let b = root_bottom fuel level pairs s.nodes s.head r pos h in
    let row = bottom-Row s.nodes (b.0) pairs (b.2) in
    (row.0.right, rw (first_right, get_first_node, b.1, ◌>>=◌) (rw (row.1, ◌>>=◌) refl), row.2)

-- For a skip list in order with a pair at least.
pub fill_table-Fills :
    (hash : ℕ → List ℕ) (left_size : List ℕ → ℕ) (s : SkipList) (level : ℕ) (pairs : Pairs)
    → IsSkipList s level pairs
    → (fuel wide order : ℕ) → 0 < length pairs
    → length pairs < wide
    → level + 2 ≤ fuel
    → Fills hash left_size fuel wide order s pairs
unfolding fill_table get_time_stamp get_size get_min_max_key
fill_table-Fills hash left_size s level pairs w fuel wide order pos h k =
    let f = first_right-Row fuel level pairs s w.rooted pos k in
    let i : Indexes s.nodes wide left_size (data_area s.size) 0 (f.0) pairs =
      offset_nodes-Indexes s.nodes wide left_size (data_area s.size) 0 (f.0) pairs (f.2) h in
    record {
      t = record {
        meta_info = record {
          time_stamp = to_u32 s.time_stamp;
          level = 0;
          order = order;
          data_length = i.end;
          pair_num = to_u32 s.size;
        };
        min_key = s.min_key;
        max_key = s.max_key;
        bloom_filter = fill_filter hash pairs (λ j. false);
        offset = i.offset;
        key_value = pairs;
      };
      after = record s { time_stamp = add64 s.time_stamp 1 };
      returns =
          rw (f.1, filter_nodes-Row s.nodes wide hash (f.0) pairs (λ j. false) (f.2) h)
            (rw i.returns refl);
      key_value = refl;
      bloom = refl;
      keys = i.keys;
      pair_num = ap to_u32 w.sized;
      advanced = refl;
      stamped = refl;
      least = refl;
      greatest = refl;
    }
