-- ===== src/Cache/Keys.antt =====
-- The list of keys, the most recently used one first, that an `LRUCache` (src/include/cache.h) stands for.
use lsm_based_on_zns_ssd.Base.{
  ℕ, suc, ◌≤◌, ◌<◌, ◌≡◌, ◌≢◌, refl, ap, arith, Bool, true, false, if◌then◌else◌, ◌==◌, ℕ_discrete,
  List, [], ◌∷◌, none, some, length, ne→==_false,
}
use lsm_based_on_zns_ssd.Cache.Lru.{Node, LruCache, lru_cache, push_front, not_found}
use lsm_based_on_zns_ssd.Cache.Nodes.{
  id_of, has_id, values, Distinct, no_node, one_more, remove, drop_last,
}

abbrev pub contains : ℕ → List ℕ → Bool
contains key [] = false
contains key (v ∷ vs) = if v == key then true else contains key vs

-- What the operations do to the list of keys.
abbrev pub recent_get : ℕ → List ℕ → ℕ × List ℕ
recent_get key keys = if contains key keys then (key, key ∷ remove key keys) else (not_found, keys)

abbrev pub recent_put : ℕ → ℕ → List ℕ → List ℕ
recent_put cap key keys =
    key
    ∷ (if contains key keys
        then remove key keys
        else if length keys == cap
        then drop_last keys
        else keys)

pub record Holds (c : LruCache) (keys : List ℕ) : Type 0 where
  pub distinct : Distinct c.cache
  pub lookups : (k : ℕ) → c.map k ≡ id_of k c.cache
  pub new : (j : ℕ) → c.fresh ≤ j → has_id j c.cache ≡ false
  pub listed : values c.cache ≡ keys
  pub room : length keys ≤ c.cap

pub id_of-contains :
    (k i : ℕ) (ns : List Node) → id_of k ns ≡ some i → contains k (values ns) ≡ true
id_of-contains k i [] e = absurd (ground arith)
id_of-contains k i (n ∷ ns) e =
    let rest : id_of k ns ≡ some i → contains k (values ns) ≡ true = id_of-contains k i ns in
    ground arith

pub id_of-not_contains :
    (k : ℕ) (ns : List Node) → id_of k ns ≡ none → contains k (values ns) ≡ false
id_of-not_contains k [] e = refl
id_of-not_contains k (n ∷ ns) e =
    let rest : id_of k ns ≡ none → contains k (values ns) ≡ false = id_of-not_contains k ns in
    ground arith

pub length-remove :
    (k : ℕ) (vs : List ℕ) → contains k vs ≡ true → suc (length (remove k vs)) ≡ length vs
length-remove k [] e = absurd (ground arith)
length-remove k (v ∷ vs) e =
    let rest : contains k vs ≡ true → suc (length (remove k vs)) ≡ length vs = length-remove k vs in
    ground arith

pub not_contains-remove : (k : ℕ) (vs : List ℕ) → contains k vs ≡ false → remove k vs ≡ vs
not_contains-remove k [] e = refl
not_contains-remove k (v ∷ vs) e =
    let rest : contains k vs ≡ false → remove k vs ≡ vs = not_contains-remove k vs in ground arith

pub length-drop_last : (vs : List ℕ) → 0 < length vs → suc (length (drop_last vs)) ≡ length vs
length-drop_last [] h = elim h [ ]
length-drop_last (v ∷ []) h = refl
length-drop_last (v ∷ (w ∷ vs)) h = ap suc (length-drop_last (w ∷ vs) (omega arith))

pub length-values : (ns : List Node) → length (values ns) ≡ length ns
length-values [] = refl
length-values (n ∷ ns) = ap suc (length-values ns)

-- A new node in front of nodes that do not hold its value.
pub push_front-Holds :
    (c : LruCache) (key : ℕ)
    → Distinct c.cache
    → id_of key c.cache ≡ none
    → ((k : ℕ) → key ≢ k → c.map k ≡ id_of k c.cache)
    → ((j : ℕ) → c.fresh ≤ j → has_id j c.cache ≡ false)
    → suc (length (values c.cache)) ≤ c.cap
    → Holds (push_front c key) (key ∷ values c.cache)
unfolding push_front
push_front-Holds c key d gone lookups new room = record {
  distinct = one_more _ c.cache (new c.fresh (omega arith)) gone d;
  lookups = λ k. elim (ℕ_discrete key k) [
    | yes p ↦ ground arith
    | no p ↦ rw (ne→==_false key k p) (lookups k p)
  ];
  new = λ j h. rw (ne→==_false c.fresh j (λ p. absurd (omega (arith, p)))) (new j (omega arith));
  listed = refl;
  room = room;
}

-- A new cache holds no key.
pub lru_cache-Holds : (capacity : ℕ) → Holds (lru_cache capacity) []
unfolding lru_cache
lru_cache-Holds capacity = record {
  distinct = no_node;
  lookups = λ k. refl;
  new = λ j h. refl;
  listed = refl;
  room = omega arith;
}
