-- ===== src/Cache/Lru.antt =====
-- The class `LRUCache` of src/include/cache.h. A node of the list has a number, which is what an iterator
-- holds; `unordered_map` is a function. `none` is the use of an iterator whose node is gone, or the back
-- of an empty list. The lock is not modelled: an operation is one step.
use lsm_based_on_zns_ssd.Base.{
  ℕ, ◌+◌, if◌then◌else◌, ◌==◌, List, [], ◌∷◌, Option, none, some, ◌>>=◌, length,
}

pub record Node : Type 0 where
  pub id : ℕ
  pub value : ℕ

-- `fresh` is the number of the next node.
pub record LruCache : Type 0 where
  pub cap : ℕ
  pub cache : List Node
  pub map : ℕ → Option ℕ
  pub fresh : ℕ

unfoldable pub lru_cache : ℕ → LruCache
lru_cache capacity = record { cap = capacity; cache = []; map = λ k. none; fresh = 0 }

-- `*it`, `list::erase`, `list::back` and `list::pop_back`.
unfoldable pub deref : ℕ → List Node → Option ℕ
deref it [] = none
deref it (n ∷ ns) = if n.id == it then some n.value else deref it ns

unfoldable pub list_erase : ℕ → List Node → List Node
list_erase it [] = []
list_erase it (n ∷ ns) = if n.id == it then ns else n ∷ list_erase it ns

unfoldable pub back : List Node → Option ℕ
back [] = none
back (n ∷ []) = some n.value
back (n ∷ (m ∷ ns)) = back (m ∷ ns)

unfoldable pub pop_back : List Node → List Node
pop_back [] = []
pop_back (n ∷ []) = []
pop_back (n ∷ (m ∷ ns)) = n ∷ pop_back (m ∷ ns)

unfoldable pub map_set : (ℕ → Option ℕ) → ℕ → ℕ → ℕ → Option ℕ
map_set map key it k = if key == k then some it else map k

unfoldable pub map_erase : (ℕ → Option ℕ) → ℕ → ℕ → Option ℕ
map_erase map key k = if key == k then none else map k

-- `push_front` and the new entry of the map.
unfoldable pub push_front : LruCache → ℕ → LruCache
unfolding map_set
push_front c key = record c {
  cache = record { id = c.fresh; value = key } ∷ c.cache;
  map = map_set c.map key c.fresh;
  fresh = c.fresh + 1;
}

-- `-1` as a `uint64_t`.
abbrev pub not_found : ℕ
not_found = 18_446_744_073_709_551_615

unfoldable pub lru_get : ℕ → LruCache → Option (ℕ × LruCache)
unfolding deref list_erase map_set
lru_get key c = elim (c.map key) [
  | none ↦ some (not_found, c)
  | some it ↦ do
    key_value ← deref it c.cache
    some (
      key_value,
      record c {
        cache = record { id = c.fresh; value = key_value } ∷ list_erase it c.cache;
        map = map_set c.map key c.fresh;
        fresh = c.fresh + 1;
      },
    )
]

unfoldable pub lru_put : ℕ → LruCache → Option LruCache
unfolding deref list_erase back pop_back map_erase push_front
lru_put key c = elim (c.map key) [
  | none ↦
      if length c.cache == c.cap
      then (back c.cache >>= λ last.
          some (push_front (record c { cache = pop_back c.cache; map = map_erase c.map last }) key))
      else some (push_front c key)
  | some it ↦ do
    _ ← deref it c.cache
    some (push_front (record c { cache = list_erase it c.cache }) key)
]

unfoldable pub lru_del : ℕ → LruCache → Option LruCache
unfolding deref list_erase map_erase
lru_del key c = elim (c.map key) [
  | none ↦ some c
  | some it ↦ do
    _ ← deref it c.cache
    some (record c { cache = list_erase it c.cache; map = map_erase c.map key })
]
