-- ===== src/Table/Flush.antt =====
-- The constructor of `Table` from a `SkipList` in src/LSM-Tree/Table.cpp. `left_size` is the size of a string that was
-- moved from, which the standard library does not fix. The strings of the nodes are deleted after the move and are
-- not changed here.
use lsm_based_on_zns_ssd.Base.{
  ℕ, zero, suc, ◌+◌, Bool, false, List, [], ◌∷◌, Option, none, some, ◌>>=◌, to_u32,
}
use lsm_based_on_zns_ssd.Table.Build.{Table, PoolCall, write_table, set_bits, data_area}
use lsm_based_on_zns_ssd.SkipList.Memory.{
  Node, SkipList, get_first_node, get_time_stamp, get_size, get_min_max_key, skip_clear,
}

-- `GetFirstNode()->right`.
unfoldable pub first_right : ℕ → SkipList → Option (Option ℕ)
unfolding get_first_node
first_right fuel s =
    get_first_node fuel s >>= λ q. q >>= λ a. s.nodes a >>= λ (node : Node). some node.right

-- The loop that fills the filter.
unfoldable pub filter_nodes :
    ℕ → (ℕ → List ℕ) → (ℕ → Option Node) → Option ℕ → (ℕ → Bool) → Option (ℕ → Bool)
unfolding set_bits
filter_nodes zero hash nodes p bloom = none
filter_nodes (suc fuel) hash nodes none bloom = some bloom
filter_nodes (suc fuel) hash nodes (some a) bloom = nodes a >>= λ (node : Node).
    filter_nodes fuel hash nodes node.right (set_bits (hash node.key) bloom)

-- The loop that fills the index and the pairs: the index, the pairs and the length.
unfoldable pub offset_nodes :
    ℕ
    → (List ℕ → ℕ)
    → ℕ
    → ℕ
    → (ℕ → Option Node)
    → Option ℕ
    → Option (List (ℕ × ℕ) × List (ℕ × List ℕ) × ℕ)
offset_nodes zero left_size area curlength nodes p = none
offset_nodes (suc fuel) left_size area curlength nodes none = some ([], [], curlength)
offset_nodes (suc fuel) left_size area curlength nodes (some a) = nodes a >>= λ (node : Node).
    offset_nodes fuel left_size area (to_u32 (curlength + left_size node.val + 1)) nodes node.right
    >>= λ r. some ((node.key, to_u32 (area + curlength)) ∷ r.0, (node.key, node.val) ∷ r.1, r.2)

-- The constructor before the skip list is cleared, and all of it.
unfoldable pub fill_table :
    (ℕ → List ℕ) → (List ℕ → ℕ) → ℕ → ℕ → ℕ → SkipList → Option (Table × List PoolCall × SkipList)
unfolding first_right filter_nodes offset_nodes data_area get_time_stamp get_size get_min_max_key
fill_table hash left_size fuel wide order s = do
  p ← first_right fuel s
  bloom ← filter_nodes wide hash s.nodes p (λ j. false)
  (offset, key_value, curlength) ← offset_nodes wide left_size (data_area (get_size s)) 0 s.nodes p
  some (
    record {
      meta_info = record {
        time_stamp = to_u32 ((get_time_stamp s).0);
        level = 0;
        order = order;
        data_length = curlength;
        pair_num = to_u32 (get_size s);
      };
      min_key = (get_min_max_key s).0;
      max_key = (get_min_max_key s).1;
      bloom_filter = bloom;
      offset = offset;
      key_value = key_value;
    },
    write_table 0 order ∷ [],
    (get_time_stamp s).1,
  )

unfoldable pub flush_table :
    (ℕ → List ℕ) → (List ℕ → ℕ) → ℕ → ℕ → ℕ → SkipList → Option (Table × List PoolCall × SkipList)
unfolding fill_table skip_clear
flush_table hash left_size fuel wide order s = do
  (t, calls, s₁) ← fill_table hash left_size fuel wide order s
  s₂ ← skip_clear fuel wide s₁
  some (t, calls, s₂)
