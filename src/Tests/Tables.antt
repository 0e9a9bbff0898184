-- ===== src/Tests/Tables.antt =====
-- Runs of src/LSM-Tree/Table.cpp, and the theorems applied to them.
use lsm_based_on_zns_ssd.Base.{
  List, suc, zero, subst, none, Option, ◌+◌, ◌∷◌, ℕ, ◌<◌, ◌≡◌, refl, arith, [], some,
}
use mathlib.Core.Option.{some-injective}
use lsm_based_on_zns_ssd.Table.Search.{Increasing, Answers, search, search-Answers}
use lsm_based_on_zns_ssd.Table.Build.{Table, PoolCall, make_table, get_value}
use lsm_based_on_zns_ssd.Table.Pairs.{lookup}
use lsm_based_on_zns_ssd.Table.Lookup.{get_value-make_table}

pub two-Increasing {ℓ} : {V : Type ℓ} (x y : V) → Increasing ((3, x) ∷ ((7, y) ∷ []))
unfolding Increasing
two-Increasing x y zero (suc zero) a b l e e' =
    subst (λ p. p.0 < b.0) (some-injective (3, x) a e)
      (subst (λ p. 3 < p.0) (some-injective (7, y) b e') (omega arith))
two-Increasing x y zero zero a b l e e' = absurd (omega (arith, l))
two-Increasing x y zero (suc (suc j)) a b l e e' = absurd (ground arith)
two-Increasing x y (suc zero) zero a b l e e' = absurd (omega (arith, l))
two-Increasing x y (suc zero) (suc zero) a b l e e' = absurd (omega (arith, l))
two-Increasing x y (suc zero) (suc (suc j)) a b l e e' = absurd (ground arith)
two-Increasing x y (suc (suc i)) j a b l e e' = absurd (ground arith)

abbrev two_offsets : List (ℕ × ℕ)
two_offsets = (3, 10) ∷ ((7, 12) ∷ [])

search-Answers_example :
    (r : Option ℕ) × (search 3 two_offsets 7 ≡ some r) × Answers two_offsets 7 r
search-Answers_example = search-Answers two_offsets 7 (two-Increasing 10 12) 3 (omega arith)

search-seven : search 3 two_offsets 7 ≡ some (some 1)
unfolding search
search-seven = refl

search-five : search 3 two_offsets 5 ≡ some none
unfolding search
search-five = refl

abbrev pub two_words : ℕ → List ℕ
two_words key = key ∷ ((key + 1) ∷ [])

abbrev two_pairs : List (ℕ × List ℕ)
two_pairs = (3, 65 ∷ []) ∷ ((7, 66 ∷ []) ∷ [])

get_value-make_table_example :
    (table : Table) × (made : List PoolCall) × (calls : List PoolCall) × (make_table two_words 1 0 5
        2 two_pairs
      ≡ some (table, made))
    × (get_value two_words 3 7 table ≡ some (lookup 7 two_pairs, calls))
get_value-make_table_example =
    get_value-make_table two_words 1 0 5 2 3 (65 ∷ []) ((7, 66 ∷ []) ∷ [])
      (two-Increasing (65 ∷ []) (66 ∷ [])) 7 3 (omega arith)
