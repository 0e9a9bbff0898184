-- ===== src/Cache/Rounds.antt =====
-- The turns of `queue_cache::get` (src/include/cache.h): the loop over empty queues.
use native.Mathlib.Nat.{mod-add-mod, mod-eq_of_lt, add-mod_right, mod-lt}
use lsm_based_on_zns_ssd.Base.{
  ℕ, zero, suc, ◌+◌, ◌-◌, ◌%◌, ◌≤◌, ◌<◌, ◌≡◌, sym, ap, subst, ◌∙◌, arith, List, [], ◌∷◌, some,
  get_elem?, get_elem?-lt, length, to_u32-eq, u32_mod, dec_lt, inl, inr,
}
use lsm_based_on_zns_ssd.Cache.Queues.{QueueCache, empty, next_ptr, skip_empty}
use lsm_based_on_zns_ssd.Cache.Contents.{weigh, one_each, queue-cases}

pub record IsQueueCache (c : QueueCache) : Type 0 where
  pub ptr_inside : c.ptr < length c.queues
  pub few_queues : length c.queues < u32_mod
  pub counted : c.size ≡ weigh one_each c.queues
  pub small : c.size < u32_mod

-- The `m`-th queue in the order of the turns, from the next one on.
abbrev pub turn : QueueCache → ℕ → ℕ
turn c m = (c.ptr + m) % length c.queues

next_ptr-eq : (c : QueueCache) → IsQueueCache c → next_ptr c ≡ turn c 1
unfolding next_ptr
next_ptr-eq c w =
    ap (λ p. p % length c.queues)
      (to_u32-eq (c.ptr + 1) (omega (arith, w.ptr_inside, w.few_queues)))

abbrev pub moved_to : QueueCache → ℕ → QueueCache
moved_to c p = record c { ptr = p }

moved_to-IsQueueCache :
    (c : QueueCache) (m : ℕ) → IsQueueCache c → IsQueueCache (moved_to c (turn c m))
moved_to-IsQueueCache c m w = record {
  ptr_inside = mod-lt (c.ptr + m) (omega (arith, w.ptr_inside));
  few_queues = w.few_queues;
  counted = w.counted;
  small = w.small;
}

turn-suc : (c : QueueCache) (m : ℕ) → turn (moved_to c (turn c 1)) m ≡ turn c (m + 1)
turn-suc c m =
    mod-add-mod (c.ptr + 1) (length c.queues) m ∙ ap (λ x. x % length c.queues) (omega arith)

turn-zero : (c : QueueCache) → IsQueueCache c → turn c 0 ≡ c.ptr
turn-zero c w = ap (λ x. x % length c.queues) (omega arith) ∙ mod-eq_of_lt w.ptr_inside

-- The loop ends at the first queue in the order of the turns that is not empty.
pub record Skips (fuel d : ℕ) (c : QueueCache) : Type 0 where
  pub m : ℕ
  pub v : ℕ
  pub rest : List ℕ
  pub ends : skip_empty fuel c ≡ some (moved_to c (turn c m))
  pub front : get_elem? c.queues (turn c m) ≡ some (v ∷ rest)
  pub near : m ≤ d
  pub skipped : (t : ℕ) → t < m → get_elem? c.queues (turn c t) ≡ some []

skip_empty-stop :
    (fuel : ℕ) (c : QueueCache) (v : ℕ) (q : List ℕ)
    → get_elem? c.queues c.ptr ≡ some (v ∷ q)
    → skip_empty (suc fuel) c ≡ some c
unfolding skip_empty
skip_empty-stop fuel c v q e = rw e (ground arith)

skip_empty-step :
    (fuel : ℕ) (c : QueueCache)
    → IsQueueCache c
    → 0 < c.size
    → get_elem? c.queues c.ptr ≡ some []
    → skip_empty (suc fuel) c ≡ skip_empty fuel (moved_to c (turn c 1))
unfolding skip_empty empty
skip_empty-step fuel c w h e = rw (e, next_ptr-eq c w) (ground arith)

stop_here :
    (fuel d : ℕ) (c : QueueCache) (v : ℕ) (q : List ℕ)
    → IsQueueCache c
    → get_elem? c.queues c.ptr ≡ some (v ∷ q)
    → Skips (suc fuel) d c
stop_here fuel d c v q w e = record {
  m = 0;
  v = v;
  rest = q;
  ends = skip_empty-stop fuel c v q e ∙ ap (λ p. some (moved_to c p)) (sym (turn-zero c w));
  front = ap (get_elem? c.queues) (turn-zero c w) ∙ e;
  near = omega arith;
  skipped = λ t h. elim h [ ];
}

step_on :
    (fuel d : ℕ) (c : QueueCache)
    → IsQueueCache c
    → 0 < c.size
    → get_elem? c.queues c.ptr ≡ some []
    → Skips fuel d (moved_to c (turn c 1))
    → Skips (suc fuel) (d + 1) c
step_on fuel d c w h e s = record {
  m = s.m + 1;
  v = s.v;
  rest = s.rest;
  ends = skip_empty-step fuel c w h e ∙ s.ends ∙ ap (λ p. some (moved_to c p)) (turn-suc c s.m);
  front = ap (get_elem? c.queues) (sym (turn-suc c s.m)) ∙ s.front;
  near = omega (arith, s.near);
  skipped = skipped;
}
  where
    skipped : (t : ℕ) → t < s.m + 1 → get_elem? c.queues (turn c t) ≡ some []
    skipped zero l = ap (get_elem? c.queues) (turn-zero c w) ∙ e
    skipped (suc t) l =
        ap (get_elem? c.queues) (ap (turn c) (omega arith) ∙ sym (turn-suc c t))
        ∙ s.skipped t (omega arith)

pub skip_empty-Skips :
    (fuel d : ℕ) (c : QueueCache) (v : ℕ) (q : List ℕ)
    → IsQueueCache c
    → 0 < c.size
    → d < fuel
    → get_elem? c.queues (turn c d) ≡ some (v ∷ q)
    → Skips fuel d c
skip_empty-Skips zero d c v q w h l e = elim l [ ]
skip_empty-Skips (suc fuel) zero c v q w h l e =
    stop_here fuel zero c v q w (ap (get_elem? c.queues) (sym (turn-zero c w)) ∙ e)
skip_empty-Skips (suc fuel) (suc d) c v q w h l e =
    let (p, here) = get_elem?-lt c.queues c.ptr w.ptr_inside in
    elim (queue-cases p) [
      | inl e' ↦
          let there : get_elem? c.queues (turn (moved_to c (turn c 1)) d) ≡ some (v ∷ q) =
            ap (get_elem? c.queues) (turn-suc c d ∙ ap (turn c) (omega arith)) ∙ e in
          subst (λ k. Skips (suc fuel) k c) (omega arith)
            (step_on fuel d c w h (here ∙ ap some e') (
              skip_empty-Skips fuel d (moved_to c (turn c 1)) v q (moved_to-IsQueueCache c 1 w) h
                (omega arith) there))
      | inr (v', q', e') ↦ stop_here fuel (suc d) c v' q' w (here ∙ ap some e')
    ]

-- Every queue has its turn within one round.
pub reaches :
    (c : QueueCache) (j : ℕ)
    → IsQueueCache c
    → j < length c.queues
    → (d : ℕ) × (d < length c.queues) × (turn c d ≡ j)
reaches c j w h = elim (dec_lt j c.ptr) [
  | yes p ↦ (
    length c.queues - c.ptr + j,
    omega (arith, w.ptr_inside),
    ap (λ x. x % length c.queues) {y = j + length c.queues} (omega (arith, w.ptr_inside))
        ∙ add-mod_right j (length c.queues)
        ∙ mod-eq_of_lt h,
  )
  | no p ↦ (
    j - c.ptr,
    omega (arith, p),
    ap (λ x. x % length c.queues) {y = j} (omega (arith, p)) ∙ mod-eq_of_lt h,
  )
]
