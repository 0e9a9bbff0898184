-- ===== src/Cache/Turns.antt =====
-- `get`, `put` and the constructor of `queue_cache` (src/include/cache.h).
use native.Mathlib.Nat.{mod-lt, div-lt_iff_lt-mul}
use lsm_based_on_zns_ssd.Base.{
  ℕ, zero, suc, ◌+◌, ◌-◌, ◌*◌, ◌/◌, ◌%◌, ◌≤◌, ◌<◌, ◌≡◌, refl, sym, ap, ◌∙◌, arith, List, [], ◌∷◌,
  ◌++◌, some, get_elem?, get_elem?-lt, lt-get_elem?, set, length, length-set, replicate,
  length-replicate, to_u32, to_u32-eq, u32_mod, int_mod, lt→ltb,
}
use lsm_based_on_zns_ssd.Cache.Queues.{
  QueueCache, queue_index, int_next, fill, queue_cache, next_ptr, skip_empty, get, put,
}
use lsm_based_on_zns_ssd.Cache.Contents.{
  weight, weigh, weigh-set, weight-append, weigh-replicate, one_each, nonempty_queue,
}
use lsm_based_on_zns_ssd.Cache.Rounds.{IsQueueCache, turn, moved_to, skip_empty-Skips, reaches}

-- The state after the front of the queue `p` is taken.
abbrev pub taken : QueueCache → ℕ → List ℕ → QueueCache
taken c p rest = record c {
  queues = set c.queues p rest;
  ptr = (p + 1) % length c.queues;
  size = c.size - 1;
}

-- `size--` on a size that is not 0.
last_of : (s : ℕ) → 0 < s → s < u32_mod → to_u32 (s + u32_mod - 1) ≡ s - 1
unfolding to_u32
last_of s h k = omega arith

get-taken :
    (fuel p v : ℕ) (rest : List ℕ) (c : QueueCache)
    → p < length c.queues
    → length c.queues < u32_mod
    → 0 < c.size
    → c.size < u32_mod
    → skip_empty fuel c ≡ some (moved_to c p)
    → get_elem? c.queues p ≡ some (v ∷ rest)
    → get fuel c ≡ some (v, taken c p rest)
unfolding get next_ptr
get-taken fuel p v rest c inside few pos small e front =
    rw
      (
        e,
        front,
        length-set c.queues p rest,
        to_u32-eq (p + 1) (omega arith),
        last_of c.size pos small,
      )
      refl

module _ (c : QueueCache) (w : IsQueueCache c) where
  taken-IsQueueCache :
      (p v : ℕ) (rest : List ℕ)
      → get_elem? c.queues p ≡ some (v ∷ rest)
      → IsQueueCache (taken c p rest)
  taken-IsQueueCache p v rest front =
      let same : length (set c.queues p rest) ≡ length c.queues = length-set c.queues p rest in
      record {
        ptr_inside = rw same (mod-lt (p + 1) (omega (arith, w.ptr_inside)));
        few_queues = rw same w.few_queues;
        counted = omega (arith, w.counted, weigh-set one_each c.queues p (v ∷ rest) rest front);
        small = omega (arith, w.small);
      }

  pub record Gets (fuel : ℕ) : Type 0 where
    pub m : ℕ
    pub v : ℕ
    pub rest : List ℕ
    pub front : get_elem? c.queues (turn c m) ≡ some (v ∷ rest)
    pub skipped : (t : ℕ) → t < m → get_elem? c.queues (turn c t) ≡ some []
    pub near : m < length c.queues
    pub returns : get fuel c ≡ some (v, taken c (turn c m) rest)
    pub keeps : IsQueueCache (taken c (turn c m) rest)
    pub contents : (f : ℕ → ℕ) → weigh f c.queues ≡ f v + weigh f (taken c (turn c m) rest).queues

  -- From a cache that is not empty, with fuel for one round, `get` returns the front of the first queue in
  -- the order of the turns that is not empty, takes just this element, and gives the turn to the queue
  -- after that one.
  pub get-Gets : (fuel : ℕ) → 0 < c.size → length c.queues ≤ fuel → Gets fuel
  get-Gets fuel pos enough =
      let (j, v₀, q₀, found) = nonempty_queue c.queues (omega (arith, w.counted)) in
      let (d, d_lt, at_j) = reaches c j w (lt-get_elem? c.queues j (v₀ ∷ q₀) found) in
      let s =
        skip_empty-Skips fuel d c v₀ q₀ w pos (omega arith)
          (ap (get_elem? c.queues) at_j ∙ found) in
      record {
        m = s.m;
        v = s.v;
        rest = s.rest;
        front = s.front;
        skipped = s.skipped;
        near = omega (arith, s.near);
        returns =
            get-taken fuel (turn c s.m) s.v s.rest c (lt-get_elem? c.queues (turn c s.m) _ s.front)
              w.few_queues pos w.small s.ends s.front;
        keeps = taken-IsQueueCache (turn c s.m) s.v s.rest s.front;
        contents =
            λ f. omega (arith, weigh-set f c.queues (turn c s.m) (s.v ∷ s.rest) s.rest s.front);
      }

  pub record Puts (order : ℕ) : Type 0 where
    pub queue : List ℕ
    pub c' : QueueCache
    pub here : get_elem? c.queues (queue_index c.div order) ≡ some queue
    pub returns : put order c ≡ some c'
    pub keeps : IsQueueCache c'
    pub same_turn : c'.ptr ≡ c.ptr
    pub same_div : c'.div ≡ c.div
    pub grown : c'.size ≡ c.size + 1
    pub queues : c'.queues ≡ set c.queues (queue_index c.div order) (queue ++ (order ∷ []))
    pub contents : (f : ℕ → ℕ) → weigh f c'.queues ≡ f order + weigh f c.queues

  -- In a queue cache in order, an element whose queue is there is put at the back of that queue, the size grows by
  -- one, and nothing else changes, as long as the size does not wrap.
  pub put-Puts :
      (order : ℕ) → queue_index c.div order < length c.queues → c.size + 1 < u32_mod → Puts order
  unfolding put
  put-Puts order inside fits =
      let (queue, here) = get_elem?-lt c.queues (queue_index c.div order) inside in
      let qs = set c.queues (queue_index c.div order) (queue ++ (order ∷ [])) in
      let same : length qs ≡ length c.queues = length-set c.queues _ _ in
      let more : (f : ℕ → ℕ) → weigh f qs ≡ f order + weigh f c.queues = λ f. omega (
        arith,
        weigh-set f c.queues (queue_index c.div order) queue (queue ++ (order ∷ [])) here,
        weight-append f queue (order ∷ []),
      ) in
      record {
        queue = queue;
        c' = record c { queues = qs; size = c.size + 1 };
        here = here;
        returns = rw (here, to_u32-eq (c.size + 1) fits) refl;
        keeps = record {
          ptr_inside = rw same w.ptr_inside;
          few_queues = rw same w.few_queues;
          counted = omega (arith, w.counted, more one_each);
          small = fits;
        };
        same_turn = refl;
        same_div = refl;
        grown = refl;
        queues = refl;
        contents = more;
      }

-- The numbers from `i` on, `k` of them.
abbrev pub numbers : ℕ → ℕ → List ℕ
numbers i zero = []
numbers i (suc k) = i ∷ numbers (i + 1) k

pub weight-numbers : (i k : ℕ) → weight one_each (numbers i k) ≡ k
weight-numbers i zero = refl
weight-numbers i (suc k) = omega (arith, weight-numbers (i + 1) k)

queue_index-lt :
    (half div order : ℕ) → 0 < div → order < half * 2 * div → queue_index div order < half * 2
unfolding queue_index
queue_index-lt half div order pos h =
    let bound : order / 2 < half * div = omega arith in
    let row : order / 2 / div < half = (div-lt_iff_lt-mul pos).1 bound in omega arith

-- What the loop of the constructor comes to.
record Fills (k i div : ℕ) (qs : List (List ℕ)) : Type 0 where
  pub qs' : List (List ℕ)
  pub returns : fill k i div qs ≡ some qs'
  pub count : length qs' ≡ length qs
  pub contents : (f : ℕ → ℕ) → weigh f qs' ≡ weigh f qs + weight f (numbers i k)

int_next-eq : (i : ℕ) → i + 1 < int_mod → int_next i ≡ some (i + 1)
unfolding int_next
int_next-eq i h = rw (lt→ltb (i + 1) int_mod h) refl

fill-Fills :
    (half div k i : ℕ) (qs : List (List ℕ))
    → 0 < div
    → i + k ≤ half * 2 * div
    → i + k < int_mod
    → length qs ≡ half * 2
    → Fills k i div qs
unfolding fill
fill-Fills half div zero i qs pos h small e = record {
  qs' = qs;
  returns = refl;
  count = refl;
  contents = λ f. omega arith;
}
fill-Fills half div (suc k) i qs pos h small e =
    let (queue, here) =
      get_elem?-lt qs (queue_index div i)
        (omega (arith, e, queue_index-lt half div i pos (omega arith))) in
    let qs₁ = set qs (queue_index div i) (queue ++ (i ∷ [])) in
    let same : length qs₁ ≡ length qs = length-set qs _ _ in
    let r = fill-Fills half div k (i + 1) qs₁ pos (omega arith) (omega arith) (same ∙ e) in
    record {
      qs' = r.qs';
      returns = rw (here, int_next-eq i (omega arith)) r.returns;
      count = r.count ∙ same;
      contents = λ f. omega (
        arith,
        r.contents f,
        weigh-set f qs (queue_index div i) queue (queue ++ (i ∷ [])) here,
        weight-append f queue (i ∷ []),
      );
    }

pub record Starts (half div total : ℕ) : Type 0 where
  pub c : QueueCache
  pub returns : queue_cache (half * 2) div total ≡ some c
  pub keeps : IsQueueCache c
  pub divisor : c.div ≡ div
  pub count : length c.queues ≡ half * 2
  pub contents : (f : ℕ → ℕ) → weigh f c.queues ≡ weight f (numbers 0 total)

-- For an even number of queues, at least two, whose number is below 2 ^ 32, a `total` below 2 ^ 31, which the loop's
-- `int` counts to, and a `div` such that `total` elements have a queue, the constructor places each of the numbers below `total` once.
pub queue_cache-Starts :
    (half div total : ℕ)
    → 0 < half
    → 0 < div
    → half * 2 < u32_mod
    → total < int_mod
    → total ≤ half * 2 * div
    → Starts half div total
unfolding queue_cache
queue_cache-Starts half div total some_queue pos few small h =
    let e : length (replicate {A = List ℕ} (half * 2) []) ≡ half * 2 =
      length-replicate (half * 2) [] in
    let r =
      fill-Fills half div total 0 (replicate (half * 2) []) pos (omega arith) (omega arith) e in
    let all : (f : ℕ → ℕ) → weigh f r.qs' ≡ weight f (numbers 0 total) =
      λ f. omega (arith, r.contents f, weigh-replicate f (half * 2)) in
    record {
      c = record { queues = r.qs'; ptr = 0; div = div; size = total };
      returns = rw r.returns refl;
      keeps = record {
        ptr_inside = omega (arith, r.count, e);
        few_queues = omega (arith, r.count, e);
        counted = sym (all one_each ∙ weight-numbers 0 total);
        small = omega arith;
      };
      divisor = refl;
      count = r.count ∙ e;
      contents = all;
    }
