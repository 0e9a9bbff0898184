-- ===== src/Zones/Opening.antt =====
-- The loops in the constructor of `MemoryManager` in src/include/utils.h.
use lsm_based_on_zns_ssd.Base.{
  ℕ, zero, suc, ◌+◌, ◌-◌, ◌*◌, ◌≤◌, ◌<◌, ◌≡◌, refl, ap, ◌∙◌, arith, List, [], ◌∷◌, some, length,
  get_elem?, ℕ_discrete, eq→==, ne→==_false,
}
use lsm_based_on_zns_ssd.Cache.Queues.{QueueCache}
use lsm_based_on_zns_ssd.Cache.Contents.{weight, weigh, one_each}
use lsm_based_on_zns_ssd.Cache.Rounds.{IsQueueCache, turn}
use lsm_based_on_zns_ssd.Cache.Turns.{Gets, get-Gets, taken, numbers}
use lsm_based_on_zns_ssd.Zones.State.{ZoneMeta, fresh_metas, open_zones}
use lsm_based_on_zns_ssd.Zones.Free.{one_of}

abbrev pub fresh_meta : ℕ → ℕ → ZoneMeta
fresh_meta zone_cap i = record {
  start = i * zone_cap;
  write_ptr = i * zone_cap;
  end = (i + 1) * zone_cap - 1;
  valid_table_num = 0;
  deleted_table = [];
}

pub length-fresh_metas : (zone_cap k i : ℕ) → length (fresh_metas zone_cap k i) ≡ k
unfolding fresh_metas
length-fresh_metas zone_cap zero i = refl
length-fresh_metas zone_cap (suc k) i = ap suc (length-fresh_metas zone_cap k (i + 1))

pub get_elem?-fresh_metas :
    (zone_cap k i j : ℕ)
    → j < k
    → get_elem? (fresh_metas zone_cap k i) j ≡ some (fresh_meta zone_cap (i + j))
unfolding fresh_metas
get_elem?-fresh_metas zone_cap zero i j h = elim h [ ]
get_elem?-fresh_metas zone_cap (suc k) i zero h =
    ap (λ n. some (fresh_meta zone_cap n)) (omega arith)
get_elem?-fresh_metas zone_cap (suc k) i (suc j) h =
    get_elem?-fresh_metas zone_cap k (i + 1) j (omega arith)
    ∙ ap (λ n. some (fresh_meta zone_cap n)) (omega arith)

pub weight-length : (vs : List ℕ) → weight one_each vs ≡ length vs
weight-length [] = refl
weight-length (v ∷ vs) = omega (arith, weight-length vs)

numbers-above : (i a n : ℕ) → i < a → weight (one_of i) (numbers a n) ≡ 0
numbers-above i a zero h = refl
numbers-above i a (suc n) h =
    let rest : weight (one_of i) (numbers (a + 1) n) ≡ 0 =
      numbers-above i (a + 1) n (omega arith) in
    ground arith

pub numbers-once : (i a n : ℕ) → weight (one_of i) (numbers a n) ≤ 1
numbers-once i a zero = omega arith
numbers-once i a (suc n) = elim (ℕ_discrete a i) [
  | yes p ↦ rw (eq→== a i p) (omega (arith, numbers-above i (a + 1) n (omega (arith, p))))
  | no p ↦ rw (ne→==_false a i p) (omega (arith, numbers-once i (a + 1) n))
]

pub numbers-inside : (i a n : ℕ) → 0 < weight (one_of i) (numbers a n) → i < a + n
numbers-inside i a zero h = elim h [ ]
numbers-inside i a (suc n) h =
    let rest : 0 < weight (one_of i) (numbers (a + 1) n) → i < a + 1 + n =
      numbers-inside i (a + 1) n in
    ground arith

-- What the loop that opens zones does: they are taken out of the queues.
pub record Opens (k : ℕ) (q : QueueCache) : Type 0 where
  pub zs : List ℕ
  pub rest : QueueCache
  pub returns : open_zones k q ≡ some (zs, rest)
  pub keeps : IsQueueCache rest
  pub count : length zs ≡ k
  pub contents : (f : ℕ → ℕ) → weigh f q.queues ≡ weight f zs + weigh f rest.queues

pub open_zones-Opens : (k : ℕ) (q : QueueCache) → IsQueueCache q → k ≤ q.size → Opens k q
unfolding open_zones
open_zones-Opens zero q w h = record {
  zs = [];
  rest = q;
  returns = refl;
  keeps = w;
  count = refl;
  contents = λ f. omega arith;
}
open_zones-Opens (suc k) q w h =
    let g : Gets q w (length q.queues) =
      get-Gets q w (length q.queues) (omega arith) (omega arith) in
    let q₁ : QueueCache = taken q (turn q g.m) g.rest in
    let r : Opens k q₁ =
      open_zones-Opens k q₁ g.keeps
        (omega (arith, h, w.counted, g.keeps.counted, g.contents one_each)) in
    record {
      zs = g.v ∷ r.zs;
      rest = r.rest;
      returns = rw (g.returns, r.returns) refl;
      keeps = r.keeps;
      count = ap suc r.count;
      contents = λ f. omega (arith, g.contents f, r.contents f);
    }
