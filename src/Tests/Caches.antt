-- ===== src/Tests/Caches.antt =====
-- Runs of the classes of src/include/cache.h, and the theorems applied to them.
use lsm_based_on_zns_ssd.Base.{◌∷◌, ◌≡◌, refl, arith, [], some, to_u32}
use lsm_based_on_zns_ssd.Cache.Queues.{QueueCache, get, queue_index}
use lsm_based_on_zns_ssd.Cache.Rounds.{IsQueueCache}
use lsm_based_on_zns_ssd.Cache.Turns.{Gets, Puts, Starts, get-Gets, put-Puts, queue_cache-Starts}
use lsm_based_on_zns_ssd.Cache.Lru.{LruCache, lru_cache, lru_get, lru_put, lru_del}
use lsm_based_on_zns_ssd.Cache.Nodes.{remove}
use lsm_based_on_zns_ssd.Cache.Keys.{Holds, recent_get, recent_put, lru_cache-Holds}
use lsm_based_on_zns_ssd.Cache.Recency.{lru_get-Holds, lru_put-Holds, lru_del-Holds}

-- Four queues for eight elements: 0, 2 and 1, 3 are in the first two.
queue_cache-Starts_example : Starts 2 2 8
queue_cache-Starts_example =
    queue_cache-Starts 2 2 8 (omega arith) (omega arith) (omega arith) (omega arith) (omega arith)

-- The first queue is empty, so the turn goes on to the second.
abbrev uneven : QueueCache
uneven = record { queues = [] ∷ ((1 ∷ (3 ∷ [])) ∷ []); ptr = 0; div = 2; size = 2 }

abbrev uneven-IsQueueCache : IsQueueCache uneven
uneven-IsQueueCache = record {
  ptr_inside = omega arith;
  few_queues = omega arith;
  counted = refl;
  small = omega arith;
}

get-Gets_example : Gets uneven uneven-IsQueueCache 2
get-Gets_example = get-Gets uneven uneven-IsQueueCache 2 (omega arith) (omega arith)

put-Puts_example : Puts uneven uneven-IsQueueCache 2
unfolding queue_index
put-Puts_example = put-Puts uneven uneven-IsQueueCache 2 (omega arith) (omega arith)

-- What `get` returns there, and the turn after it.
get-uneven :
    get 2 uneven ≡ some (1, record uneven { queues = [] ∷ ((3 ∷ []) ∷ []); ptr = 0; size = 1 })
unfolding get to_u32
get-uneven = refl

abbrev one_key :
    (c : LruCache) × (lru_put 7 (lru_cache 1) ≡ some c) × (c.cap ≡ 1) × Holds c (recent_put 1 7 [])
unfolding lru_cache
one_key = lru_put-Holds (lru_cache 1) [] 7 (lru_cache-Holds 1) (omega arith)

lru_put-Holds_example :
    (c : LruCache) × (lru_put 8 one_key.0 ≡ some c)
    × (c.cap ≡ (one_key.0).cap)
    × Holds c (recent_put (one_key.0).cap 8 (7 ∷ []))
lru_put-Holds_example = lru_put-Holds one_key.0 (7 ∷ []) 8 one_key.3 (omega (arith, one_key.2))

lru_get-Holds_example :
    (c : LruCache) × (lru_get 7 one_key.0 ≡ some ((recent_get 7 (7 ∷ [])).0, c))
    × (c.cap ≡ (one_key.0).cap)
    × Holds c (recent_get 7 (7 ∷ [])).1
lru_get-Holds_example = lru_get-Holds one_key.0 (7 ∷ []) 7 one_key.3

lru_del-Holds_example :
    (c : LruCache) × (lru_del 7 one_key.0 ≡ some c)
    × (c.cap ≡ (one_key.0).cap)
    × Holds c (remove 7 (7 ∷ []))
lru_del-Holds_example = lru_del-Holds one_key.0 (7 ∷ []) 7 one_key.3
