-- ===== src/Zones/Free.antt =====
-- The zones that `MemoryManager` (src/include/utils.h) can write to: the open ones, and those that wait in
-- the queues.
use mathlib.Core.Option.{some-injective}
use lsm_based_on_zns_ssd.Base.{
  ℕ, zero, suc, ◌+◌, ◌≤◌, ◌<◌, ◌≡◌, sym, ap, ◌∙◌, arith, if◌then◌else◌, ◌==◌, List, [], ◌∷◌, some,
  length, get_elem?, set, get_elem?-set_self, get_elem?-set_ne, ℕ_discrete,
}
use lsm_based_on_zns_ssd.Cache.Queues.{QueueCache}
use lsm_based_on_zns_ssd.Cache.Contents.{weight, weigh}
use lsm_based_on_zns_ssd.Cache.Rounds.{IsQueueCache, turn}
use lsm_based_on_zns_ssd.Cache.Turns.{Gets, taken}
use lsm_based_on_zns_ssd.Zones.State.{ZoneMeta}

abbrev pub one_of : ℕ → ℕ → ℕ
one_of i v = if v == i then 1 else 0

-- How often zone `i` is open or in a queue.
abbrev pub free_count : ℕ → List ℕ → QueueCache → ℕ
free_count i open_zone q = weight (one_of i) open_zone + weigh (one_of i) q.queues

pub record HasRoom (metas : List ZoneMeta) (i : ℕ) : Type 0 where
  pub meta : ZoneMeta
  pub here : get_elem? metas i ≡ some meta
  pub room : meta.write_ptr < meta.end

-- Each of them is there once, and has a free slot.
pub record AreFree (metas : List ZoneMeta) (open_zone : List ℕ) (q : QueueCache) : Type 0 where
  pub queue : IsQueueCache q
  pub once : (i : ℕ) → free_count i open_zone q ≤ 1
  pub roomy : (i : ℕ) → 0 < free_count i open_zone q → HasRoom metas i

weight-set :
    (f : ℕ → ℕ) (vs : List ℕ) (j a b : ℕ)
    → get_elem? vs j ≡ some a
    → weight f (set vs j b) + f a ≡ weight f vs + f b
weight-set f [] j a b e = absurd (ground arith)
weight-set f (v ∷ vs) zero a b e =
    let p : f v ≡ f a = ap f (some-injective v a e) in omega (arith, p)
weight-set f (v ∷ vs) (suc j) a b e = omega (arith, weight-set f vs j a b e)

weight-get_elem? :
    (i : ℕ) (vs : List ℕ) (j : ℕ) → get_elem? vs j ≡ some i → 0 < weight (one_of i) vs
weight-get_elem? i [] j e = absurd (ground arith)
weight-get_elem? i (v ∷ vs) zero e = let p : v ≡ i = some-injective v i e in ground arith
weight-get_elem? i (v ∷ vs) (suc j) e = omega (arith, weight-get_elem? i vs j e)

module _ (metas : List ZoneMeta) (open_zone : List ℕ) (q : QueueCache)
    (w : AreFree metas open_zone q) where
  pub open-HasRoom : (i j : ℕ) → get_elem? open_zone j ≡ some i → HasRoom metas i
  open-HasRoom i j e = w.roomy i (omega (arith, weight-get_elem? i open_zone j e))

  -- A zone that still has room stays free.
  pub keep-AreFree :
      (z : ℕ) (meta' : ZoneMeta)
      → z < length metas
      → meta'.write_ptr < meta'.end
      → AreFree (set metas z meta') open_zone q
  keep-AreFree z meta' known room = record {
    queue = w.queue;
    once = w.once;
    roomy = λ i h. elim (ℕ_discrete z i) [
      | yes p ↦ record {
        meta = meta';
        here = ap (get_elem? (set metas z meta')) (sym p) ∙ get_elem?-set_self metas z meta' known;
        room = room;
      }
      | no p ↦
          let r = w.roomy i h in
          record {
            meta = r.meta;
            here = get_elem?-set_ne metas z i meta' p ∙ r.here;
            room = r.room;
          }
    ];
  }

  -- A zone that is full gives its place to the next one of the queues.
  pub rotate-AreFree :
      (z j : ℕ) (meta' : ZoneMeta) (g : Gets q w.queue (length q.queues))
      → get_elem? open_zone j ≡ some z
      → AreFree (set metas z meta') (set open_zone j g.v) (taken q (turn q g.m) g.rest)
  rotate-AreFree z j meta' g here =
      let q' = taken q (turn q g.m) g.rest in
      let count : (i : ℕ)
          → free_count i (set open_zone j g.v) q' + one_of i z ≡ free_count i open_zone q =
        λ i. omega (arith, weight-set (one_of i) open_zone j z g.v here, g.contents (one_of i)) in
      let self : one_of z z ≡ 1 = ground arith in
      record {
        queue = g.keeps;
        once = λ i. omega (arith, count i, w.once i);
        roomy = λ i h. elim (ℕ_discrete z i) [
          | yes p ↦
              let gone : one_of i z ≡ 1 = ground arith in
              absurd (omega (arith, count i, w.once i, gone, h))
          | no p ↦
              let r = w.roomy i (omega (arith, count i, h)) in
              record {
                meta = r.meta;
                here = get_elem?-set_ne metas z i meta' p ∙ r.here;
                room = r.room;
              }
        ];
      }
