-- ===== src/Table/Search.antt =====
-- `Table::search` of src/LSM-Tree/Table.cpp, the binary search of the index.
use mathlib.Core.Option.{some-injective}
use lsm_based_on_zns_ssd.Base.{
  ℕ, zero, suc, ◌+◌, ◌-◌, ◌/◌, ◌≤◌, ◌<◌, ◌≡◌, ◌≢◌, refl, sym, ap, subst, lt→ltb, le→ltb_false,
  eq→==, ne→==_false, ◌∙◌, arith, if◌then◌else◌, ltb, ◌==◌, List, Option, none, some, ◌>>=◌, length,
  get_elem?, get_elem?-lt, lt-get_elem?, dec_lt, ℕ_discrete,
}

-- `top` is `high + 1`, since `high` may be -1. The result is `some none` where the code returns -1.
unfoldable pub search_loop : ℕ → List (ℕ × ℕ) → ℕ → ℕ → ℕ → Option (Option ℕ)
search_loop zero offset target low top = none
search_loop (suc fuel) offset target low top =
    let mid = (top - 1 - low) / 2 + low in
    if ltb low top
    then (get_elem? offset mid >>= λ pair.
        let low' = if ltb target (pair.0) then low else mid + 1 in
        let top' = if ltb target (pair.0) then mid else top in
        let rest = search_loop fuel offset target low' top' in
        if pair.0 == target then some (some mid) else rest)
    else some none

unfoldable pub search : ℕ → List (ℕ × ℕ) → ℕ → Option (Option ℕ)
unfolding search_loop
search fuel offset target = search_loop fuel offset target 0 (length offset)

-- The keys grow from each element to every later one.
unfoldable pub Increasing {ℓ} : {V : Type ℓ} → List (ℕ × V) → Type ℓ
Increasing {V = V} xs =
    (i j : ℕ) (a b : ℕ × V) → i < j → get_elem? xs i ≡ some a → get_elem? xs j ≡ some b → a.0 < b.0

-- The answer to a search.
pub data Answers (xs : List (ℕ × ℕ)) (target : ℕ) : Option ℕ → Type 0 where
  found : (i o : ℕ) → get_elem? xs i ≡ some (target, o) → Answers xs target (some i)
  missing : ((i : ℕ) (p : ℕ × ℕ) → get_elem? xs i ≡ some p → p.0 ≢ target) → Answers xs target none

abbrev middle : ℕ → ℕ → ℕ
middle low top = (top - 1 - low) / 2 + low

module _ (fuel : ℕ) (xs : List (ℕ × ℕ)) (target low top : ℕ) where
  search_loop-end : top ≤ low → search_loop (suc fuel) xs target low top ≡ some none
  unfolding search_loop
  search_loop-end h = rw (le→ltb_false low top h) refl

  module _ (p : ℕ × ℕ) (h : low < top) (here : get_elem? xs (middle low top) ≡ some p) where
    search_loop-hit :
        p.0 ≡ target → search_loop (suc fuel) xs target low top ≡ some (some (middle low top))
    unfolding search_loop
    search_loop-hit e = rw (lt→ltb low top h, here, eq→== (p.0) target e) refl

    search_loop-left :
        target < p.0
        → search_loop (suc fuel) xs target low top ≡ search_loop fuel xs target low (middle low top)
    unfolding search_loop
    search_loop-left l =
        rw
          (
            lt→ltb low top h,
            here,
            ne→==_false (p.0) target (λ e. absurd (omega (arith, e, l))),
            lt→ltb target (p.0) l,
          )
          refl

    search_loop-right :
        p.0 < target
        → search_loop (suc fuel) xs target low top
          ≡ search_loop fuel xs target (middle low top + 1) top
    unfolding search_loop
    search_loop-right l =
        rw
          (
            lt→ltb low top h,
            here,
            ne→==_false (p.0) target (λ e. absurd (omega (arith, e, l))),
            le→ltb_false target (p.0) (omega (arith, l)),
          )
          refl

module _ (xs : List (ℕ × ℕ)) (target : ℕ) (increasing : Increasing xs) where
  after :
      (mid i : ℕ) (p p' : ℕ × ℕ)
      → mid ≤ i
      → get_elem? xs mid ≡ some p
      → get_elem? xs i ≡ some p'
      → target < p.0
      → target < p'.0
  unfolding Increasing
  after mid i p p' b e e' l = elim (ℕ_discrete mid i) [
    | yes q ↦
        let same : p ≡ p' = some-injective p p' (sym e ∙ ap (get_elem? xs) q ∙ e') in
        subst (λ (x : ℕ × ℕ). target < x.0) same l
    | no q ↦ omega (arith, increasing mid i p p' (omega (arith, b, q)) e e', l)
  ]

  before :
      (mid i : ℕ) (p p' : ℕ × ℕ)
      → i < mid + 1
      → get_elem? xs mid ≡ some p
      → get_elem? xs i ≡ some p'
      → p.0 < target
      → p'.0 < target
  unfolding Increasing
  before mid i p p' b e e' l = elim (ℕ_discrete mid i) [
    | yes q ↦
        let same : p ≡ p' = some-injective p p' (sym e ∙ ap (get_elem? xs) q ∙ e') in
        subst (λ (x : ℕ × ℕ). x.0 < target) same l
    | no q ↦ omega (arith, increasing i mid p' p (omega (arith, b, q)) e' e, l)
  ]

  search_loop-Answers :
      (fuel low top : ℕ)
      → top - low < fuel
      → top ≤ length xs
      → ((i : ℕ) (p : ℕ × ℕ) → i < low → get_elem? xs i ≡ some p → p.0 < target)
      → ((i : ℕ) (p : ℕ × ℕ) → top ≤ i → get_elem? xs i ≡ some p → target < p.0)
      → (r : Option ℕ) × (search_loop fuel xs target low top ≡ some r) × Answers xs target r
  unfolding search_loop Increasing
  search_loop-Answers zero low top l h below above = elim l [ ]
  search_loop-Answers (suc fuel) low top l h below above = elim (dec_lt low top) [
    | no e ↦ (
      none,
      search_loop-end fuel xs target low top (omega (arith, e)),
      missing (λ i p here. elim (dec_lt i low) [
        | yes b ↦ λ q. absurd (omega (arith, below i p b here, q))
        | no b ↦ λ q. absurd (omega (arith, above i p (omega (arith, b, e)) here, q))
      ]),
    )
    | yes e ↦
        let mid = middle low top in
        let (p, here) = get_elem?-lt xs mid (omega (arith, h, e)) in
        elim (ℕ_discrete (p.0) target) [
          | yes q ↦ (
            some mid,
            search_loop-hit fuel xs target low top p e here q,
            found mid (p.1) (here ∙ ap (λ k. some (k, p.1)) q),
          )
          | no q ↦ elim (dec_lt target (p.0)) [
            | yes less ↦
                let (r, run, a) =
                  search_loop-Answers fuel low mid (omega (arith, l, e)) (omega (arith, h, e)) below
                    (λ i p' b here'. after mid i p p' b here here' less) in
                (r, search_loop-left fuel xs target low top p e here less ∙ run, a)
            | no less ↦
                let more : p.0 < target = omega (arith, q, less) in
                let (r, run, a) =
                  search_loop-Answers fuel (mid + 1) top (omega (arith, l, e)) h
                    (λ i p' b here'. before mid i p p' b here here' more) above in
                (r, search_loop-right fuel xs target low top p e here more ∙ run, a)
          ]
        ]
  ]

  -- On a table whose keys grow, fuel for one more round than the table has keys is enough, and the search
  -- returns a place where the key is, or -1 if it is nowhere.
  pub search-Answers :
      (fuel : ℕ)
      → length xs < fuel
      → (r : Option ℕ) × (search fuel xs target ≡ some r) × Answers xs target r
  unfolding search
  search-Answers fuel h =
      search_loop-Answers fuel 0 (length xs) (omega arith) (omega arith) (λ i p l e. elim l [ ])
        (λ i p l e. absurd (omega (arith, l, lt-get_elem? xs i p e)))
