-- ===== src/Table/Branches.antt =====
-- Where the tests of `getValue` in src/LSM-Tree/Table.cpp lead.

use lsm_based_on_zns_ssd.Base.{
  ℕ, ◌+◌, ◌-◌, ◌<◌, ◌≡◌, refl, arith, true, false, eq→==, ltb, ◌||◌, none, ne→==_false, List, [],
  ◌∷◌, some, length, get_elem?, get_elem?-lt, to_u32, u32_mod, ℕ_discrete,
}
use lsm_based_on_zns_ssd.Table.Search.{search}
use lsm_based_on_zns_ssd.Table.Build.{
  Table, pool_get_value, get_value, value_length, test_bits, data_area,
}

-- Where the tests of `getValue` lead.
module _ (hash : ℕ → List ℕ) (fuel key : ℕ) (t : Table) where
  pub get_value-outside :
      (ltb key t.min_key || ltb t.max_key key) ≡ true → get_value hash fuel key t ≡ some ([], [])
  unfolding get_value
  get_value-outside e = rw e refl

  module _ (inside : (ltb key t.min_key || ltb t.max_key key) ≡ false) where
    pub get_value-filtered :
        test_bits (hash key) t.bloom_filter ≡ false → get_value hash fuel key t ≡ some ([], [])
    unfolding get_value
    get_value-filtered e = rw (inside, e) refl

    module _ (passed : test_bits (hash key) t.bloom_filter ≡ true) where
      pub get_value-missing :
          search fuel t.offset key ≡ some none → get_value hash fuel key t ≡ some ([], [])
      unfolding get_value
      get_value-missing e = rw (inside, passed, e) refl

      pub get_value-found :
          (i : ℕ) (from len : ℕ) (value : List ℕ)
          → search fuel t.offset key ≡ some (some i)
          → get_elem? t.offset i ≡ some (key, from)
          → value_length t i from ≡ some len
          → get_elem? t.key_value i ≡ some (key, value)
          → get_value hash fuel key t
            ≡ some (value, pool_get_value t.meta_info.level t.meta_info.order from len ∷ [])
      unfolding get_value
      get_value-found i from len value e here l there = rw (inside, passed, e, here, l, there) refl

pub value_length-total :
    (t : Table) (i from : ℕ) → i < length t.offset → (len : ℕ) × (value_length t i from ≡ some len)
unfolding value_length
value_length-total t i from h = elim (ℕ_discrete (i + 1) (length t.offset)) [
  | yes p ↦ (
    to_u32 (data_area t.meta_info.pair_num + t.meta_info.data_length + u32_mod - from),
    rw (value_length, eq→== (i + 1) (length t.offset) p) refl,
  )
  | no p ↦
      let (next, here) = get_elem?-lt t.offset (i + 1) (omega (arith, h, p)) in
      (
        to_u32 (next.1 + u32_mod - from),
        rw (value_length, ne→==_false (i + 1) (length t.offset) p, here) refl,
      )
]
