-- ===== src/Table/Lookup.antt =====
-- `getValue` on a table that the constructor makes (src/LSM-Tree/Table.cpp), against its pairs.
use lsm_based_on_zns_ssd.Base.{
  map, ℕ, ◌+◌, ◌<◌, ◌≡◌, refl, ap, false, List, [], ◌∷◌, some, length, to_u32,
}
use lsm_based_on_zns_ssd.Table.Stores.{Stores, get_value-Stores}
use lsm_based_on_zns_ssd.Table.Search.{Increasing}
use lsm_based_on_zns_ssd.Table.Build.{
  Table, PoolCall, write_table, total_length, fill_offset, last_key, make_table, get_value,
  fill_filter, data_area,
}
use lsm_based_on_zns_ssd.Table.Filter.{fill_filter-test_bits}
use lsm_based_on_zns_ssd.Table.Pairs.{lookup, last_key-le, first_key-le}

abbrev pub table_of : (ℕ → List ℕ) → ℕ → ℕ → ℕ → ℕ → ℕ → List ℕ → List (ℕ × List ℕ) → Table
table_of hash level order time_stamp num_pair k w ps = record {
  meta_info = record {
    time_stamp = to_u32 time_stamp;
    level = level;
    order = order;
    data_length = total_length 0 ((k, w) ∷ ps);
    pair_num = to_u32 num_pair;
  };
  min_key = k;
  max_key = last_key k ps;
  bloom_filter = fill_filter hash ((k, w) ∷ ps) (λ j. false);
  offset = fill_offset (data_area num_pair) 0 ((k, w) ∷ ps);
  key_value = (k, w) ∷ ps;
}

fill_offset-keys :
    (area from : ℕ) (ps : List (ℕ × List ℕ))
    → map (λ (a : ℕ × ℕ). a.0) (fill_offset area from ps) ≡ map (λ (a : ℕ × List ℕ). a.0) ps
unfolding fill_offset
fill_offset-keys area from [] = refl
fill_offset-keys area from ((k, v) ∷ ps) =
    ap (λ x. k ∷ x) (fill_offset-keys area (to_u32 (from + length v + 1)) ps)

-- The table of a vector that is not empty.
pub table_of-Stores :
    (hash : ℕ → List ℕ) (level order time_stamp num_pair k : ℕ) (v : List ℕ)
    (ps : List (ℕ × List ℕ))
    → Increasing ((k, v) ∷ ps)
    → Stores hash (table_of hash level order time_stamp num_pair k v ps) ((k, v) ∷ ps)
table_of-Stores hash level order time_stamp num_pair k v ps up = record {
  key_value = refl;
  keys = fill_offset-keys (data_area num_pair) 0 ((k, v) ∷ ps);
  filtered = λ i key u e. fill_filter-test_bits hash ((k, v) ∷ ps) (λ j. false) i key u e;
  least = λ i q e. first_key-le k v ps i q up e;
  greatest = λ i q e. last_key-le k v ps i q up e;
  increasing = up;
}

module _ (hash : ℕ → List ℕ) (level order time_stamp num_pair k : ℕ) (w : List ℕ)
    (ps : List (ℕ × List ℕ)) (up : Increasing ((k, w) ∷ ps)) where
  abbrev pairs : List (ℕ × List ℕ)
  pairs = (k, w) ∷ ps

  abbrev t : Table
  t = table_of hash level order time_stamp num_pair k w ps

  make_table-eq :
      make_table hash level order time_stamp num_pair pairs ≡ some (t, write_table level order ∷ [])
  unfolding make_table
  make_table-eq = refl

  module _ (key fuel : ℕ) where
    -- For a vector of pairs that is not empty and whose keys grow, the constructor makes a table from which
    -- `getValue` returns, for every key and with fuel for one more round than there are pairs, the value of the
    -- key in the vector, or the empty string if the key is not there, whatever the hash function.
    pub get_value-make_table :
        length pairs < fuel
        → (table : Table) × (made : List PoolCall) × (calls : List PoolCall) × (make_table hash
              level order time_stamp num_pair pairs
            ≡ some (table, made))
          × (get_value hash fuel key table ≡ some (lookup key pairs, calls))
    get_value-make_table enough =
        let (calls, e) =
          get_value-Stores hash t pairs
            (table_of-Stores hash level order time_stamp num_pair k w ps up) key fuel enough in
        (t, write_table level order ∷ [], calls, make_table-eq, e)
