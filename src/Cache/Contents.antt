-- ===== src/Cache/Contents.antt =====
-- What the queues of a `queue_cache` (src/include/cache.h) hold, in any order: the sum of a weight over
-- all elements. Weight 1 counts the elements, weight 1 on one value counts its occurrences.
use mathlib.Core.Option.{some-injective}
use lsm_based_on_zns_ssd.Base.{
  ℕ, zero, suc, ◌+◌, ◌<◌, ◌≡◌, refl, ap, arith, List, [], ◌∷◌, ◌++◌, some, get_elem?, set,
  replicate, ◌⊎◌, inl, inr,
}

module _ (f : ℕ → ℕ) where
  abbrev pub weight : List ℕ → ℕ
  weight [] = 0
  weight (v ∷ vs) = f v + weight vs

  abbrev pub weigh : List (List ℕ) → ℕ
  weigh [] = 0
  weigh (q ∷ qs) = weight q + weigh qs

  pub weight-append : (vs ws : List ℕ) → weight (vs ++ ws) ≡ weight vs + weight ws
  weight-append [] ws = omega arith
  weight-append (v ∷ vs) ws = omega (arith, weight-append vs ws)

  -- One queue changes.
  pub weigh-set :
      (qs : List (List ℕ)) (j : ℕ) (q q' : List ℕ)
      → get_elem? qs j ≡ some q
      → weigh (set qs j q') + weight q ≡ weigh qs + weight q'
  weigh-set [] j q q' e = absurd (ground arith)
  weigh-set (p ∷ qs) zero q q' e =
      let w : weight p ≡ weight q = ap weight (some-injective p q e) in omega (arith, w)
  weigh-set (p ∷ qs) (suc j) q q' e = omega (arith, weigh-set qs j q q' e)

  pub weigh-replicate : (n : ℕ) → weigh (replicate n []) ≡ 0
  weigh-replicate zero = refl
  weigh-replicate (suc n) = omega (arith, weigh-replicate n)

abbrev pub one_each : ℕ → ℕ
one_each v = 1

-- If there is an element, some queue has a front.
pub nonempty_queue :
    (qs : List (List ℕ))
    → 0 < weigh one_each qs
    → (j : ℕ) × (v : ℕ) × (q : List ℕ) × (get_elem? qs j ≡ some (v ∷ q))
nonempty_queue [] h = elim h [ ]
nonempty_queue ((v ∷ q) ∷ qs) h = (0, v, q, refl)
nonempty_queue ([] ∷ qs) h = let (j, v, q, e) = nonempty_queue qs (omega arith) in (suc j, v, q, e)

pub queue-cases : (p : List ℕ) → (p ≡ []) ⊎ ((v : ℕ) × (q : List ℕ) × (p ≡ v ∷ q))
queue-cases [] = inl refl
queue-cases (v ∷ q) = inr (v, q, refl)
