-- ===== src/Zones/Values.antt =====
-- `getValue` of src/include/utils.cpp, on a manager that keeps its invariant.

use lsm_based_on_zns_ssd.Base.{
  ℕ, ◌+◌, ◌-◌, ◌/◌, ◌≤◌, ◌≡◌, refl, sym, eq→==, get_elem?-set_self, inl, inr, Bool-cases, ap, ◌∙◌,
  arith, Bool, true, false, if◌then◌else◌, List, [], ◌∷◌, Option, some, ◌>>=◌, length, get_elem?,
  set, get_elem?-lt, lt-get_elem?, length-set, add64, add64-eq, to_u32, u64_mod, subst,
}
use lsm_based_on_zns_ssd.Cache.Lru.{LruCache}
use lsm_based_on_zns_ssd.Cache.Keys.{Holds}
use lsm_based_on_zns_ssd.Zones.State.{
  MemoryManager, Event, wait_table, assign, log, default_page_size, default_sstable_size,
}
use lsm_based_on_zns_ssd.Zones.Reads.{
  manager_get_value, wait_for, mapped_at, skip_cached, read_batches, read_intervals, no_batch,
}
use lsm_based_on_zns_ssd.Zones.Slots.{IsWritten, slot-fits}
use lsm_based_on_zns_ssd.Zones.Placement.{place_of}
use lsm_based_on_zns_ssd.Zones.Place.{IsManager}
use lsm_based_on_zns_ssd.Zones.Missed.{touched, missed, all_pages, Apart, no_interval}
use lsm_based_on_zns_ssd.Zones.Looks.{Skips, skip_cached-Skips}
use lsm_based_on_zns_ssd.Zones.Batches.{Batched, read_batches-Batched, closed}
use lsm_based_on_zns_ssd.Zones.Fetched.{fetched, read_intervals-fetched}

abbrev first_page : ℕ → ℕ → ℕ
first_page s offset = (s + offset) / default_page_size

-- The last page is the one of the byte after the value.
abbrev page_count : ℕ → ℕ → ℕ → ℕ
page_count s offset length_ = (s + offset + length_) / default_page_size + 1 - first_page s offset

-- The pages, up to that of the byte after the value, that are not in the cache are read, each once, in as few reads
-- as there are runs of them; then the cache has used all of them.
pub record Fetches (slots level num offset length_ s : ℕ) (pending : ℕ → Bool) (m : MemoryManager)
    (keys : List ℕ) : Type 0 where
  pub after : MemoryManager
  pub interval : List (ℕ × ℕ)
  pub top : ℕ
  pub returns : manager_get_value level num offset length_ m ≡ some after
  pub keeps : IsManager slots after
  pub apart : Apart top interval
  pub covers :
      all_pages interval
      ≡ missed m.page_cache.cap (page_count s offset length_) (first_page s offset) keys
  pub same : after.mapping_table ≡ m.mapping_table
  pub settled :
      (table : ℕ → Bool) × (get_elem? after.complete_table level ≡ some table) × (table num ≡ false)
  pub asked :
      after.events
      ≡ fetched interval (if pending num then wait_table level num ∷ m.events else m.events)
  pub counted : after.read_num ≡ to_u32 (m.read_num + length interval)
  pub holds :
      Holds after.page_cache
        (touched m.page_cache.cap (page_count s offset length_) (first_page s offset) keys)

abbrev waited : ℕ → ℕ → (ℕ → Bool) → MemoryManager → MemoryManager
waited level num pending m = record m {
  complete_table =
      if pending num
      then set m.complete_table level (assign pending num false)
      else m.complete_table;
  events = if pending num then wait_table level num ∷ m.events else m.events;
}

wait_if :
    (b : Bool) (complete : List (ℕ → Bool)) (e : Event) (m : MemoryManager)
    → (if b then log e (record m { complete_table = complete }) else m) ≡ record m {
      complete_table = if b then complete else m.complete_table;
      events = if b then e ∷ m.events else m.events;
    }
wait_if true complete e m = refl
wait_if false complete e m = refl

wait_for-eq :
    (level num : ℕ) (pending : ℕ → Bool) (m : MemoryManager)
    → get_elem? m.complete_table level ≡ some pending
    → wait_for level num m ≡ some (waited level num pending m)
unfolding wait_for
wait_for-eq level num pending m e = rw e (
    ap some (
      wait_if (pending num) (set m.complete_table level (assign pending num false))
        (wait_table level num) m))

length-if :
    (b : Bool) (xs ys : List (ℕ → Bool))
    → length xs ≡ length ys
    → length (if b then xs else ys) ≡ length ys
length-if true xs ys e = e
length-if false xs ys e = refl

settled_if :
    (level num : ℕ) (pending : ℕ → Bool) (complete : List (ℕ → Bool))
    → get_elem? complete level ≡ some pending
    → (table : ℕ → Bool) × (get_elem?
          (if pending num then set complete level (assign pending num false) else complete)
          level
        ≡ some table)
      × (table num ≡ false)
settled_if level num pending complete e = elim (Bool-cases (pending num)) [
  | inl p ↦ (
    assign pending num false,
    rw p (
        get_elem?-set_self complete level (assign pending num false)
          (lt-get_elem? complete level pending e)),
    rw (eq→== num num refl) refl,
  )
  | inr p ↦ (pending, rw p e, p)
]

-- The steps of `getValue`, put together.
get_value_steps :
    (level num offset length_ s from to k page : ℕ) (m m₁ m₃ : MemoryManager)
    (cache cache' : LruCache) (interval : List (ℕ × ℕ))
    → wait_for level num m ≡ some m₁
    → mapped_at level num m₁ ≡ some (s, m₁)
    → add64 s offset ≡ from
    → add64 from length_ ≡ to
    → skip_cached
        (to / default_page_size + 1 - from / default_page_size)
        (from / default_page_size)
        m₁.page_cache
      ≡ some (k, page, cache)
    → read_batches k page cache no_batch no_batch [] ≡ some (interval, cache')
    → read_intervals interval (record m₁ { page_cache = cache' }) ≡ m₃
    → manager_get_value level num offset length_ m
      ≡ some (record m₃ { read_num = to_u32 (m₃.read_num + length interval) })
unfolding manager_get_value
get_value_steps level num offset length_ s from to k page m m₁ m₃ cache cache' interval e₁ e₂ e₃ e₄
      e₅ e₆ e₇ =
    rw (e₁, e₂, e₃, e₄) (rw (e₅, e₆, e₇) refl)

module _ (slots level num offset length_ s : ℕ) (m : MemoryManager) (keys : List ℕ)
    (w : IsManager slots m) (h : Holds m.page_cache keys) where
  -- On a manager in order, for a value inside a table that is there, `getValue` reads, of the pages from that of the
  -- value's first byte to that of the byte after the value, just those that are not in the cache at their turn,
  -- each once, in one read for each run of them, after a wait if the table is being written. Then the cache has used
  -- all these pages, and the manager is in order.
  pub manager_get_value-Fetches :
      place_of m.mapping_table level num ≡ some s
      → offset + length_ ≤ default_sstable_size
      → (pending : ℕ → Bool) → get_elem? m.complete_table level ≡ some pending
      → Fetches slots level num offset length_ s pending m keys
  unfolding mapped_at
  manager_get_value-Fetches here inside pending e =
      let t : (table : ℕ → Option ℕ) × (get_elem? m.mapping_table level ≡ some table) =
        get_elem?-lt m.mapping_table level
          (omega (arith, w.levels, lt-get_elem? m.complete_table level pending e)) in
      let there : t.0 num ≡ some s =
        ap (λ (o : Option (ℕ → Option ℕ)). o >>= λ f. f num) (sym (t.1)) ∙ here in
      let r : IsWritten slots m.zone_metas s =
        w.written s (level, num) (w.placement.forward level num s here) in
      let below : s + default_sstable_size + default_sstable_size ≤ u64_mod =
        slot-fits slots m.zone_metas s w.zones r in
      let from : add64 s offset ≡ s + offset = add64-eq s offset (omega (arith, below, inside)) in
      let to : add64 (s + offset) length_ ≡ s + offset + length_ =
        add64-eq (s + offset) length_ (omega (arith, below, inside)) in
      let n = page_count s offset length_ in
      let page = first_page s offset in
      let end : page + n ≡ (s + offset + length_) / default_page_size + 1 = omega arith in
      let cap = m.page_cache.cap in
      let k : Skips cap n page m.page_cache keys =
        skip_cached-Skips cap n page m.page_cache keys h refl (omega (arith, end, below, inside)) in
      let b : Batched cap k.k' k.page' k.c' k.keys' no_batch no_batch [] =
        read_batches-Batched cap k.k' k.page' k.c' k.keys' no_batch no_batch [] k.holds k.same_cap
          w.pages_cap (omega (arith, k.end, end, below, inside))
          (closed no_batch 0 [] (no_interval 0) (omega arith)) in
      let m₁ : MemoryManager = record (waited level num pending m) { page_cache = b.c' } in
      let f : read_intervals b.result m₁ ≡ record m₁ { events = fetched b.result m₁.events } =
        read_intervals-fetched b.top b.result m₁ b.apart
          (omega (arith, b.under, k.end, end, below, inside)) in
      let used : Holds b.c' (touched cap n page keys) =
        subst (Holds b.c') (sym k.touches) b.holds in
      record {
        after = record m₁ {
          events = fetched b.result m₁.events;
          read_num = to_u32 (m.read_num + length b.result);
        };
        interval = b.result;
        top = b.top;
        returns =
            get_value_steps level num offset length_ s (s + offset) (s + offset + length_) k.k'
              k.page' m (waited level num pending m) _ k.c' b.c' b.result
              (wait_for-eq level num pending m e) (rw (t.1, ◌>>=◌, there) refl) from to k.returns
              b.returns f;
        keeps = record {
          cap = w.cap;
          zones = w.zones;
          count = w.count;
          few = w.few;
          free = w.free;
          in_turn = w.in_turn;
          opens = w.opens;
          levels =
              length-if (pending num) (set m.complete_table level (assign pending num false))
                m.complete_table (length-set m.complete_table level (assign pending num false))
              ∙ w.levels;
          placement = w.placement;
          written = w.written;
          pages = (touched cap n page keys, used);
          pages_cap = rw b.same_cap w.pages_cap;
        };
        apart = b.apart;
        covers = b.covers ∙ sym k.misses;
        same = refl;
        settled = settled_if level num pending m.complete_table e;
        asked = refl;
        counted = refl;
        holds = used;
      }
