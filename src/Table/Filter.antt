-- ===== src/Table/Filter.antt =====
-- The bloom filter of a table (src/LSM-Tree/Table.cpp): the bits of the keys that were added.
use lsm_based_on_zns_ssd.Base.{
  ℕ, zero, suc, ◌%◌, ◌≡◌, refl, ap, arith, Bool, true, eq→==, List, [], ◌∷◌, some, get_elem?,
  Bool-cases, inl, inr,
}
use mathlib.Core.Option.{some-injective}
use lsm_based_on_zns_ssd.Table.Build.{filter_bits, set_bits, test_bits, fill_filter}

-- A bit that is set stays set.
set_bits-keeps :
    (ws : List ℕ) (bloom : ℕ → Bool) (j : ℕ) → bloom j ≡ true → set_bits ws bloom j ≡ true
unfolding set_bits
set_bits-keeps [] bloom j h = h
set_bits-keeps (w ∷ ws) bloom j h = rw (set_bits-keeps ws bloom j h) (ground arith)

fill_filter-keeps :
    (hash : ℕ → List ℕ) (ps : List (ℕ × List ℕ)) (bloom : ℕ → Bool) (j : ℕ)
    → bloom j ≡ true
    → fill_filter hash ps bloom j ≡ true
unfolding fill_filter
fill_filter-keeps hash [] bloom j h = h
fill_filter-keeps hash ((k, v) ∷ ps) bloom j h =
    fill_filter-keeps hash ps (set_bits (hash k) bloom) j (set_bits-keeps (hash k) bloom j h)

test_bits_mono :
    (ws : List ℕ) (bloom bloom' : ℕ → Bool)
    → ((j : ℕ) → bloom j ≡ true → bloom' j ≡ true)
    → test_bits ws bloom ≡ true
    → test_bits ws bloom' ≡ true
unfolding test_bits
test_bits_mono [] bloom bloom' more h = refl
test_bits_mono (w ∷ ws) bloom bloom' more h = elim (Bool-cases (bloom (w % filter_bits))) [
  | inl e ↦ rw (more (w % filter_bits) e) (test_bits_mono ws bloom bloom' more (rw e at h))
  | inr e ↦ absurd (ground (arith, e, h))
]

-- The bits of a key that was added are set.
test_bits-set_bits : (ws : List ℕ) (bloom : ℕ → Bool) → test_bits ws (set_bits ws bloom) ≡ true
unfolding test_bits set_bits
test_bits-set_bits [] bloom = refl
test_bits-set_bits (w ∷ ws) bloom =
    let bit : set_bits (w ∷ ws) bloom (w % filter_bits) ≡ true =
      rw (eq→== (w % filter_bits) (w % filter_bits) refl) refl in
    rw bit (
      test_bits_mono ws (set_bits ws bloom) (set_bits (w ∷ ws) bloom) (λ j e. rw e (ground arith))
        (test_bits-set_bits ws bloom))

pub fill_filter-test_bits :
    (hash : ℕ → List ℕ) (ps : List (ℕ × List ℕ)) (bloom : ℕ → Bool) (i key : ℕ) (value : List ℕ)
    → get_elem? ps i ≡ some (key, value)
    → test_bits (hash key) (fill_filter hash ps bloom) ≡ true
unfolding fill_filter
fill_filter-test_bits hash [] bloom i key value e = absurd (ground arith)
fill_filter-test_bits hash ((k, v) ∷ ps) bloom zero key value e =
    let same : k ≡ key = ap (λ (p : ℕ × List ℕ). p.0) (some-injective (k, v) (key, value) e) in
    rw (← same) (
      test_bits_mono (hash k) (set_bits (hash k) bloom)
        (fill_filter hash ps (set_bits (hash k) bloom))
        (λ j h. fill_filter-keeps hash ps (set_bits (hash k) bloom) j h)
        (test_bits-set_bits (hash k) bloom))
fill_filter-test_bits hash ((k, v) ∷ ps) bloom (suc i) key value e =
    fill_filter-test_bits hash ps (set_bits (hash k) bloom) i key value e
