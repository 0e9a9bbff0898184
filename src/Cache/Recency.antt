-- ===== src/Cache/Recency.antt =====
-- The operations of `LRUCache` (src/include/cache.h) against the list of keys.
use lsm_based_on_zns_ssd.Base.{
  ℕ, suc, ◌≤◌, ◌<◌, ◌≡◌, ◌≢◌, refl, sym, ap, subst, ◌∙◌, arith, true, false, if◌then◌else◌, ◌==◌,
  ℕ_discrete, List, ◌∷◌, none, some, length, Option-cases, inl, inr, eq→==, ne→==_false,
}
use lsm_based_on_zns_ssd.Cache.Lru.{
  LruCache, push_front, lru_get, lru_put, lru_del, map_erase, back, pop_back, list_erase,
}
use lsm_based_on_zns_ssd.Cache.Nodes.{
  id_of, values, id_of-deref, remove, drop_last, list_erase-values, list_erase-has_id,
  list_erase-id_of, list_erase-Distinct, pop_back-values, pop_back-has_id, back-total,
  pop_back-id_of, pop_back-Distinct,
}
use lsm_based_on_zns_ssd.Cache.Keys.{
  contains, recent_get, recent_put, Holds, id_of-contains, id_of-not_contains, length-remove,
  not_contains-remove, length-drop_last, length-values, push_front-Holds,
}

module _ (c : LruCache) (keys : List ℕ) (key : ℕ) (h : Holds c keys) where
  known : (it : ℕ) → c.map key ≡ some it → id_of key c.cache ≡ some it
  known it e = sym (h.lookups key) ∙ e

  known-contains : (it : ℕ) → c.map key ≡ some it → contains key keys ≡ true
  known-contains it e = rw (← h.listed) (id_of-contains key it c.cache (known it e))

  unknown-contains : c.map key ≡ none → contains key keys ≡ false
  unknown-contains e = rw (← h.listed) (id_of-not_contains key c.cache (sym (h.lookups key) ∙ e))

  others : (it k : ℕ) → c.map key ≡ some it → key ≢ k → c.map k ≡ id_of k (list_erase it c.cache)
  others it k e ne =
      h.lookups k
      ∙ sym (
          list_erase-id_of key it k c.cache h.distinct (known it e)
          ∙ rw (ne→==_false key k ne) refl)

  -- A key that is there comes to the front.
  touch-Holds :
      (it : ℕ)
      → c.map key ≡ some it
      → Holds (push_front (record c { cache = list_erase it c.cache }) key) (key ∷ remove key keys)
  touch-Holds it e =
      let rest : values (list_erase it c.cache) ≡ remove key keys =
        list_erase-values key it c.cache h.distinct (known it e) ∙ ap (remove key) h.listed in
      subst (λ vs. Holds (push_front (record c { cache = list_erase it c.cache }) key) (key ∷ vs))
        rest
        (push_front-Holds (record c { cache = list_erase it c.cache }) key
          (list_erase-Distinct key it c.cache h.distinct (known it e))
          (list_erase-id_of key it key c.cache h.distinct (known it e) ∙ ground arith)
          (λ k ne. others it k e ne) (λ j l. list_erase-has_id it j c.cache (h.new j l))
          (rw rest (omega (arith, h.room, length-remove key keys (known-contains it e)))))

  -- On a cache that holds `keys`, `get` returns the key and moves it to the front if it is there, and else returns
  -- -1 and changes nothing; no key beyond the capacity is held, and the capacity stays.
  pub lru_get-Holds :
      (c' : LruCache) × (lru_get key c ≡ some ((recent_get key keys).0, c'))
      × (c'.cap ≡ c.cap)
      × Holds c' (recent_get key keys).1
  unfolding lru_get push_front
  lru_get-Holds = elim (Option-cases (c.map key)) [
    | inl e ↦ (c, rw (lru_get, e, unknown-contains e) refl, refl, rw (unknown-contains e) h)
    | inr (it, e) ↦ (
      push_front (record c { cache = list_erase it c.cache }) key,
      rw (lru_get, e, id_of-deref key it c.cache h.distinct (known it e), known-contains it e) refl,
      refl,
      rw (known-contains it e) (touch-Holds it e),
    )
  ]

  -- On a cache that holds `keys`, `del` removes the key if it is there, and nothing else.
  pub lru_del-Holds :
      (c' : LruCache) × (lru_del key c ≡ some c') × (c'.cap ≡ c.cap) × Holds c' (remove key keys)
  unfolding lru_del map_erase
  lru_del-Holds = elim (Option-cases (c.map key)) [
    | inl e ↦
        (c, rw (lru_del, e) refl, refl, rw (not_contains-remove key keys (unknown-contains e)) h)
    | inr (it, e) ↦ (
      record c { cache = list_erase it c.cache; map = map_erase c.map key },
      rw (lru_del, e, id_of-deref key it c.cache h.distinct (known it e)) refl,
      refl,
      record {
        distinct = list_erase-Distinct key it c.cache h.distinct (known it e);
        lookups = λ k.
            ap (λ o. if key == k then none else o) (h.lookups k)
            ∙ sym (list_erase-id_of key it k c.cache h.distinct (known it e));
        new = λ j l. list_erase-has_id it j c.cache (h.new j l);
        listed =
            list_erase-values key it c.cache h.distinct (known it e) ∙ ap (remove key) h.listed;
        room = omega (arith, h.room, length-remove key keys (known-contains it e));
      },
    )
  ]

  -- The last key makes room for a new one.
  evict-Holds :
      (v : ℕ)
      → back c.cache ≡ some v
      → c.map key ≡ none
      → 0 < length keys
      → Holds
          (push_front (record c { cache = pop_back c.cache; map = map_erase c.map v }) key)
          (key ∷ drop_last keys)
  unfolding map_erase
  evict-Holds v last e pos =
      let rest : values (pop_back c.cache) ≡ drop_last keys =
        pop_back-values c.cache ∙ ap drop_last h.listed in
      let gone : id_of key c.cache ≡ none = sym (h.lookups key) ∙ e in
      subst
        (λ vs.
          Holds (push_front (record c { cache = pop_back c.cache; map = map_erase c.map v }) key)
            (key ∷ vs))
        rest
        (push_front-Holds (record c { cache = pop_back c.cache; map = map_erase c.map v }) key
          (pop_back-Distinct v c.cache h.distinct last)
          (pop_back-id_of v key c.cache h.distinct last ∙ rw gone (ground arith))
          (λ k ne.
            ap (λ o. if v == k then none else o) (h.lookups k)
            ∙ sym (pop_back-id_of v k c.cache h.distinct last))
          (λ j l. pop_back-has_id j c.cache (h.new j l))
          (rw rest (omega (arith, h.room, length-drop_last keys pos))))

  fresh-Holds : c.map key ≡ none → suc (length keys) ≤ c.cap → Holds (push_front c key) (key ∷ keys)
  fresh-Holds e room =
      subst (λ vs. Holds (push_front c key) (key ∷ vs)) h.listed
        (push_front-Holds c key h.distinct (sym (h.lookups key) ∙ e) (λ k ne. h.lookups k) h.new
          (rw h.listed room))

  -- On a cache that holds `keys` and has room for one at least, `put` brings the key to the front, and drops the
  -- least recently used one if the key is new and the cache is full; the capacity stays and is not exceeded.
  pub lru_put-Holds :
      0 < c.cap
      → (c' : LruCache) × (lru_put key c ≡ some c')
        × (c'.cap ≡ c.cap)
        × Holds c' (recent_put c.cap key keys)
  unfolding lru_put push_front
  lru_put-Holds pos =
      let size : length c.cache ≡ length keys = sym (length-values c.cache) ∙ ap length h.listed in
      elim (Option-cases (c.map key)) [
        | inr (it, e) ↦ (
          push_front (record c { cache = list_erase it c.cache }) key,
          rw (lru_put, e, id_of-deref key it c.cache h.distinct (known it e)) refl,
          refl,
          rw (known-contains it e) (touch-Holds it e),
        )
        | inl e ↦ elim (ℕ_discrete (length keys) c.cap) [
          | yes p ↦
              let (v, last) = back-total c.cache (omega arith) in
              (
                push_front (record c { cache = pop_back c.cache; map = map_erase c.map v }) key,
                rw (lru_put, e, size, eq→== (length keys) c.cap p, last) refl,
                refl,
                rw (unknown-contains e, eq→== (length keys) c.cap p)
                    (evict-Holds v last e (omega arith)),
              )
          | no p ↦ (
            push_front c key,
            rw (lru_put, e, size, ne→==_false (length keys) c.cap p) refl,
            refl,
            rw (unknown-contains e, ne→==_false (length keys) c.cap p)
                (fresh-Holds e (omega (arith, h.room, p))),
          )
        ]
      ]
