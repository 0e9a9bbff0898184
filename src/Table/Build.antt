-- ===== src/Table/Build.antt =====
-- The class `Table` of src/LSM-Tree/Table.cpp and Table.h: the constructor from a sorted vector, and
-- `getValue`, `traverse` and `clear`. Strings are lists of bytes. `hash` is `MurmurHash3_x64_128` with the
-- seed 1, whose result is a list of words. The calls of the zone manager are returned beside the result,
-- in order: what it answers is not used. `none` is an access outside a vector.
use lsm_based_on_zns_ssd.Base.{
  ℕ, ◌+◌, ◌-◌, ◌*◌, ◌%◌, Bool, true, false, not, ◌||◌, if◌then◌else◌, ltb, ◌==◌, List, [], ◌∷◌,
  Option, none, some, ◌>>=◌, length, get_elem?, to_u32, u32_mod,
}
use lsm_based_on_zns_ssd.Table.Search.{search}

pub record Meta : Type 0 where
  pub time_stamp : ℕ
  pub level : ℕ
  pub order : ℕ
  pub data_length : ℕ
  pub pair_num : ℕ

-- The bloom filter is the function that `test` computes.
pub record Table : Type 0 where
  pub meta_info : Meta
  pub min_key : ℕ
  pub max_key : ℕ
  pub bloom_filter : ℕ → Bool
  pub offset : List (ℕ × ℕ)
  pub key_value : List (ℕ × List ℕ)

pub data PoolCall : Type 0 where
  write_table delete_table : ℕ → ℕ → PoolCall
  pool_get_value read_table : ℕ → ℕ → ℕ → ℕ → PoolCall
  pool_try_reset : PoolCall

-- `filterSize` bytes, and where the index of a table begins.
abbrev pub filter_bits : ℕ
filter_bits = 8 * 1_048_576

abbrev pub initial_size : ℕ
initial_size = 28 + 1_048_576

unfoldable pub set_bits : List ℕ → (ℕ → Bool) → ℕ → Bool
set_bits [] bloom j = bloom j
set_bits (w ∷ ws) bloom j =
    let rest = set_bits ws bloom j in if w % filter_bits == j then true else rest

unfoldable pub test_bits : List ℕ → (ℕ → Bool) → Bool
test_bits [] bloom = true
test_bits (w ∷ ws) bloom =
    let rest = test_bits ws bloom in if not (bloom (w % filter_bits)) then false else rest

-- The loop that fills the filter.
unfoldable pub fill_filter : (ℕ → List ℕ) → List (ℕ × List ℕ) → (ℕ → Bool) → ℕ → Bool
unfolding set_bits
fill_filter hash [] bloom = bloom
fill_filter hash ((key, value) ∷ rest) bloom = fill_filter hash rest (set_bits (hash key) bloom)

unfoldable pub data_area : ℕ → ℕ
data_area num_pair = to_u32 (initial_size + num_pair * 12)

-- The loop that fills the index, from the length `curlength` on.
unfoldable pub fill_offset : ℕ → ℕ → List (ℕ × List ℕ) → List (ℕ × ℕ)
fill_offset area curlength [] = []
fill_offset area curlength ((key, value) ∷ rest) =
    (key, to_u32 (area + curlength)) ∷ fill_offset area (to_u32 (curlength + length value + 1)) rest

unfoldable pub total_length : ℕ → List (ℕ × List ℕ) → ℕ
total_length curlength [] = curlength
total_length curlength ((key, value) ∷ rest) =
    total_length (to_u32 (curlength + length value + 1)) rest

-- The key of `rbegin`.
unfoldable pub last_key : ℕ → List (ℕ × List ℕ) → ℕ
last_key key [] = key
last_key key ((key', value) ∷ rest) = last_key key' rest

unfoldable pub make_table :
    (ℕ → List ℕ) → ℕ → ℕ → ℕ → ℕ → List (ℕ × List ℕ) → Option (Table × List PoolCall)
unfolding fill_filter data_area fill_offset total_length last_key
make_table hash level order time_stamp num_pair [] = none
make_table hash level order time_stamp num_pair ((key, value) ∷ rest) =
    let new_table = (key, value) ∷ rest in
    some (
      record {
        meta_info = record {
          time_stamp = to_u32 time_stamp;
          level = level;
          order = order;
          data_length = total_length 0 new_table;
          pair_num = to_u32 num_pair;
        };
        min_key = key;
        max_key = last_key key rest;
        bloom_filter = fill_filter hash new_table (λ j. false);
        offset = fill_offset (data_area num_pair) 0 new_table;
        key_value = new_table;
      },
      write_table level order ∷ [],
    )

-- The length of the value at the place `index`.
unfoldable pub value_length : Table → ℕ → ℕ → Option ℕ
unfolding data_area
value_length t index from =
    if index + 1 == length t.offset
    then some (to_u32 (data_area t.meta_info.pair_num + t.meta_info.data_length + u32_mod - from))
    else (get_elem? t.offset (index + 1) >>= λ next. some (to_u32 (next.1 + u32_mod - from)))

unfoldable pub get_value : (ℕ → List ℕ) → ℕ → ℕ → Table → Option (List ℕ × List PoolCall)
unfolding test_bits search value_length
get_value hash fuel key t =
    if ltb key t.min_key || ltb t.max_key key
    then some ([], [])
    else if not (test_bits (hash key) t.bloom_filter)
    then some ([], [])
    else (search fuel t.offset key >>= λ r. elim r [
      | none ↦ some ([], [])
      | some index ↦ do
        (_, from) ← get_elem? t.offset index
        len ← value_length t index from
        (_, value) ← get_elem? t.key_value index
        some (value, pool_get_value t.meta_info.level t.meta_info.order from len ∷ [])
    ])

-- The pairs, and the calls.
unfoldable pub traverse : Table → List (ℕ × List ℕ) × List PoolCall
unfolding data_area
traverse t = (
  t.key_value,
  read_table t.meta_info.level t.meta_info.order (data_area t.meta_info.pair_num)
        t.meta_info.data_length
      ∷ [],
)

unfoldable pub clear : Table → List PoolCall
clear t = delete_table t.meta_info.level t.meta_info.order ∷ []
