-- ===== src/Cache/Queues.antt =====
-- The class `queue_cache` of src/include/cache.h. `none` is an access that the class does not check:
-- a queue that is not there, the front of an empty queue, or a loop that does not end.
use lsm_based_on_zns_ssd.Base.{
  ℕ, zero, suc, ◌+◌, ◌-◌, ◌*◌, ◌/◌, ◌%◌, Bool, true, false, if◌then◌else◌, ◌==◌, List, [], ◌∷◌,
  ◌++◌, Option, none, some, ◌>>=◌, get_elem?, set, length, replicate, to_u32, u32_mod, int_mod, ltb,
}

pub record QueueCache : Type 0 where
  pub queues : List (List ℕ)
  pub ptr : ℕ
  pub div : ℕ
  pub size : ℕ

-- Not above `order`, so that it does not wrap.
unfoldable pub queue_index : ℕ → ℕ → ℕ
queue_index div order = (order / 2 / div) * 2 + order % 2

unfoldable pub emplace : List (List ℕ) → ℕ → ℕ → Option (List (List ℕ))
emplace queues index order = do
  queue ← get_elem? queues index
  some (set queues index (queue ++ (order ∷ [])))

-- `++i` on an `int`, which must not overflow.
unfoldable pub int_next : ℕ → Option ℕ
int_next i = if ltb (i + 1) int_mod then some (i + 1) else none

-- The loop of the constructor, with `k` rounds left.
unfoldable pub fill : ℕ → ℕ → ℕ → List (List ℕ) → Option (List (List ℕ))
unfolding queue_index emplace int_next
fill zero i div queues = some queues
fill (suc k) i div queues = do
  queues' ← emplace queues (queue_index div i) i
  j ← int_next i
  fill k j div queues'

-- The constructor.
unfoldable pub queue_cache : ℕ → ℕ → ℕ → Option QueueCache
unfolding fill
queue_cache num div total = do
  queues ← fill total 0 div (replicate num [])
  some (record { queues = queues; ptr = 0; div = div; size = total })

unfoldable pub empty : QueueCache → Bool
empty c = c.size == 0

abbrev pub is_nil : List ℕ → Bool
is_nil [] = true
is_nil (v ∷ vs) = false

unfoldable pub next_ptr : QueueCache → ℕ
next_ptr c = to_u32 (c.ptr + 1) % length c.queues

-- The loop of `get`.
unfoldable pub skip_empty : ℕ → QueueCache → Option QueueCache
unfolding empty next_ptr
skip_empty zero c = none
skip_empty (suc fuel) c =
    let rest = skip_empty fuel (record c { ptr = next_ptr c }) in
    if empty c
    then some c
    else (get_elem? c.queues c.ptr >>= λ queue. if is_nil queue then rest else some c)

unfoldable pub pop_front : List ℕ → Option (ℕ × List ℕ)
pop_front [] = none
pop_front (v ∷ vs) = some (v, vs)

unfoldable pub get : ℕ → QueueCache → Option (ℕ × QueueCache)
unfolding skip_empty pop_front next_ptr
get fuel c = do
  c₁ ← skip_empty fuel c
  queue ← get_elem? c₁.queues c₁.ptr
  (val, queue') ← pop_front queue
  let c₂ = record c₁ { queues = set c₁.queues c₁.ptr queue' }
  some (val, record c₂ { ptr = next_ptr c₂; size = to_u32 (c₂.size + u32_mod - 1) })

unfoldable pub put : ℕ → QueueCache → Option QueueCache
unfolding queue_index emplace
put order c = do
  queues' ← emplace c.queues (queue_index c.div order) order
  some (record c { queues = queues'; size = to_u32 (c.size + 1) })

unfoldable pub getsize : QueueCache → ℕ
getsize c = c.size
