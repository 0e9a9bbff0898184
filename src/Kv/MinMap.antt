-- ===== src/Kv/MinMap.antt =====
-- `minKey` of src/LSM-Tree/kvstore.cc as a map: what an assignment changes, and its order.
use lsm_based_on_zns_ssd.Base.{
  ℕ, suc, ◌≤◌, ◌<◌, ◌≡◌, refl, subst, arith, if◌then◌else◌, ltb, ◌==◌, [], ◌∷◌, none, some,
  Bool-cases, inl, inr, ℕ_discrete, eq→==, ne→==_false, ltb→lt,
}
use lsm_based_on_zns_ssd.Kv.Merge.{MinKey, find_min, set_min}

-- The keys grow, from `low` on.
pub data IsSorted : ℕ → MinKey → Type 0 where
  no_key : (low : ℕ) → IsSorted low []
  next_key :
      (low key i : ℕ) (rest : MinKey)
      → low ≤ key
      → IsSorted (suc key) rest
      → IsSorted low ((key, i) ∷ rest)

pub find_min-set_min :
    (key k i : ℕ) (m : MinKey)
    → find_min key (set_min k i m) ≡ (if k == key then some i else find_min key m)
unfolding find_min set_min
find_min-set_min key k i [] = refl
find_min-set_min key k i ((k', j) ∷ rest) =
    let ih : find_min key (set_min k i rest) ≡ (if k == key then some i else find_min key rest) =
      find_min-set_min key k i rest in
    ground arith

pub IsSorted-weaken : (low low' : ℕ) (m : MinKey) → low' ≤ low → IsSorted low m → IsSorted low' m
IsSorted-weaken _ low' _ h (no_key low) = no_key low'
IsSorted-weaken _ low' _ h (next_key low key i rest up more) =
    next_key low' key i rest (omega (arith, up, h)) more

pub set_min-IsSorted :
    (low k i : ℕ) (m : MinKey) → low ≤ k → IsSorted low m → IsSorted low (set_min k i m)
unfolding set_min
set_min-IsSorted _ k i _ h (no_key low) = next_key low k i [] h (no_key (suc k))
set_min-IsSorted _ k i _ h (next_key low k' j rest up more) = elim (Bool-cases (ltb k k')) [
  | inl before ↦ rw before (
      next_key low k i ((k', j) ∷ rest) h
        (next_key (suc k) k' j rest (omega (arith, ltb→lt k k' before)) more))
  | inr after ↦ elim (ℕ_discrete k' k) [
    | yes p ↦
        rw (after, eq→== k' k p)
          (next_key low k i rest h (subst (λ x. IsSorted (suc x) rest) p more))
    | no p ↦
        let less : suc k' ≤ k = ground arith in
        rw (after, ne→==_false k' k p)
          (next_key low k' j (set_min k i rest) up (set_min-IsSorted (suc k') k i rest less more))
  ]
]

-- Below the order there is no key.
pub find_min-below : (low key : ℕ) (m : MinKey) → IsSorted low m → key < low → find_min key m ≡ none
unfolding find_min
find_min-below _ key _ (no_key low) h = refl
find_min-below _ key _ (next_key low k i rest up more) h =
    rw (ne→==_false k key (λ e. absurd (omega (arith, e, up, h))))
      (find_min-below (suc k) key rest more (omega (arith, up, h)))
