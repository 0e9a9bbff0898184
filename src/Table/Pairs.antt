-- ===== src/Table/Pairs.antt =====
-- The sorted vector of pairs from which a table is made (src/LSM-Tree/Table.cpp): its lookup, its first and
-- last keys, and the index that the constructor fills.
use mathlib.Core.Option.{some-injective}
use lsm_based_on_zns_ssd.Base.{
  ℕ, zero, suc, ◌+◌, ◌≤◌, ◌<◌, ◌≡◌, ◌≢◌, refl, ap, arith, if◌then◌else◌, ◌==◌, eq→==, ne→==_false,
  List, [], ◌∷◌, some, length, get_elem?, to_u32,
}
use lsm_based_on_zns_ssd.Table.Search.{Increasing}
use lsm_based_on_zns_ssd.Table.Build.{fill_offset, last_key}

abbrev pub lookup : ℕ → List (ℕ × List ℕ) → List ℕ
lookup key [] = []
lookup key ((k, v) ∷ ps) = if k == key then v else lookup key ps

pub fill_offset-found :
    (area from : ℕ) (ps : List (ℕ × List ℕ)) (i : ℕ) (p : ℕ × ℕ)
    → get_elem? (fill_offset area from ps) i ≡ some p
    → (v : List ℕ) × (get_elem? ps i ≡ some (p.0, v))
unfolding fill_offset
fill_offset-found area from [] i p e = absurd (ground arith)
fill_offset-found area from ((k, v) ∷ ps) zero p e =
    (v, ap (λ x. some (x, v)) (ap (λ (q : ℕ × ℕ). q.0) (some-injective _ p e)))
fill_offset-found area from ((k, v) ∷ ps) (suc i) p e =
    fill_offset-found area (to_u32 (from + length v + 1)) ps i p e

pub fill_offset-there :
    (area from : ℕ) (ps : List (ℕ × List ℕ)) (i : ℕ) (q : ℕ × List ℕ)
    → get_elem? ps i ≡ some q
    → (o : ℕ) × (get_elem? (fill_offset area from ps) i ≡ some (q.0, o))
unfolding fill_offset
fill_offset-there area from [] i q e = absurd (ground arith)
fill_offset-there area from ((k, v) ∷ ps) zero q e = (
  to_u32 (area + from),
  ap (λ x. some (x, to_u32 (area + from))) (ap (λ (r : ℕ × List ℕ). r.0) (some-injective _ q e)),
)
fill_offset-there area from ((k, v) ∷ ps) (suc i) q e =
    fill_offset-there area (to_u32 (from + length v + 1)) ps i q e

pub length-fill_offset :
    (area from : ℕ) (ps : List (ℕ × List ℕ)) → length (fill_offset area from ps) ≡ length ps
unfolding fill_offset
length-fill_offset area from [] = refl
length-fill_offset area from ((k, v) ∷ ps) =
    ap suc (length-fill_offset area (to_u32 (from + length v + 1)) ps)

pub fill_offset-Increasing :
    (area from : ℕ) (ps : List (ℕ × List ℕ)) → Increasing ps → Increasing (fill_offset area from ps)
unfolding Increasing
fill_offset-Increasing area from ps up i j a b l e e' =
    let (v, there) = fill_offset-found area from ps i a e in
    let (w, there') = fill_offset-found area from ps j b e' in
    up i j (a.0, v) (b.0, w) l there there'

Increasing-tail : (p : ℕ × List ℕ) (ps : List (ℕ × List ℕ)) → Increasing (p ∷ ps) → Increasing ps
unfolding Increasing
Increasing-tail p ps up i j a b l e e' = up (suc i) (suc j) a b (omega (arith, l)) e e'

pub lookup-found :
    (ps : List (ℕ × List ℕ)) (i key : ℕ) (v : List ℕ)
    → Increasing ps
    → get_elem? ps i ≡ some (key, v)
    → lookup key ps ≡ v
unfolding Increasing
lookup-found [] i key v up e = absurd (ground arith)
lookup-found ((k, w) ∷ ps) zero key v up e =
    let same = some-injective (k, w) (key, v) e in
    rw (eq→== k key (ap (λ (q : ℕ × List ℕ). q.0) same)) (ap (λ (q : ℕ × List ℕ). q.1) same)
lookup-found ((k, w) ∷ ps) (suc i) key v up e =
    let less : k < key = up zero (suc i) (k, w) (key, v) (omega arith) refl e in
    rw (ne→==_false k key (λ q. absurd (omega (arith, less, q))))
      (lookup-found ps i key v (Increasing-tail (k, w) ps up) e)

pub lookup-missing :
    (ps : List (ℕ × List ℕ)) (key : ℕ)
    → ((i : ℕ) (q : ℕ × List ℕ) → get_elem? ps i ≡ some q → q.0 ≢ key)
    → lookup key ps ≡ []
lookup-missing [] key none_here = refl
lookup-missing ((k, w) ∷ ps) key none_here =
    rw (ne→==_false k key (none_here zero (k, w) refl))
      (lookup-missing ps key (λ i q e. none_here (suc i) q e))

-- The last key is the greatest.
pub last_key-le :
    (k : ℕ) (w : List ℕ) (ps : List (ℕ × List ℕ)) (i : ℕ) (q : ℕ × List ℕ)
    → Increasing ((k, w) ∷ ps)
    → get_elem? ((k, w) ∷ ps) i ≡ some q
    → q.0 ≤ last_key k ps
unfolding last_key Increasing
last_key-le k w [] zero q up e =
    let same : k ≡ q.0 = ap (λ (r : ℕ × List ℕ). r.0) (some-injective (k, w) q e) in
    omega (arith, same)
last_key-le k w [] (suc i) q up e = absurd (ground arith)
last_key-le k w ((k', w') ∷ ps) zero q up e =
    let same : k ≡ q.0 = ap (λ (r : ℕ × List ℕ). r.0) (some-injective (k, w) q e) in
    let less : k < k' = up zero (suc zero) (k, w) (k', w') (omega arith) refl refl in
    omega (
      arith,
      same,
      less,
      last_key-le k' w' ps zero (k', w') (Increasing-tail (k, w) ((k', w') ∷ ps) up) refl,
    )
last_key-le k w ((k', w') ∷ ps) (suc i) q up e =
    last_key-le k' w' ps i q (Increasing-tail (k, w) ((k', w') ∷ ps) up) e

pub first_key-le :
    (k : ℕ) (w : List ℕ) (ps : List (ℕ × List ℕ)) (i : ℕ) (q : ℕ × List ℕ)
    → Increasing ((k, w) ∷ ps)
    → get_elem? ((k, w) ∷ ps) i ≡ some q
    → k ≤ q.0
unfolding Increasing
first_key-le k w ps zero q up e =
    let same : k ≡ q.0 = ap (λ (r : ℕ × List ℕ). r.0) (some-injective (k, w) q e) in
    omega (arith, same)
first_key-le k w ps (suc i) q up e =
    let less : k < q.0 = up zero (suc i) (k, w) q (omega arith) refl e in omega (arith, less)
