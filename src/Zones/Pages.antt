-- ===== src/Zones/Pages.antt =====
-- The pages of a deleted table leave the cache: the loop of `deleteTable` in src/include/utils.cpp.
use mathlib.Core.Option.{some-injective}
use lsm_based_on_zns_ssd.Base.{
  ℕ, zero, suc, ◌+◌, ◌≡◌, refl, sym, ap, ◌∙◌, arith, Bool, ◌&&◌, if◌then◌else◌, ◌==◌, ltb, leb,
  List, none, some, inl, inr, Option-cases,
}
use lsm_based_on_zns_ssd.Cache.Lru.{LruCache, lru_del, deref, list_erase, map_erase}
use lsm_based_on_zns_ssd.Cache.Keys.{Holds}
use lsm_based_on_zns_ssd.Cache.Recency.{lru_del-Holds}
use lsm_based_on_zns_ssd.Zones.Tables.{forget_pages}

-- The range of pages from `page` on, `k` of them.
abbrev pub in_range : ℕ → ℕ → ℕ → Bool
in_range page k j = leb page j && ltb j (page + k)

lru_del-map :
    (c c' : LruCache) (key j : ℕ)
    → lru_del key c ≡ some c'
    → c'.map j ≡ (if key == j then none else c.map j)
unfolding lru_del map_erase
lru_del-map c c' key j e = elim (Option-cases (c.map key)) [
  | inl p ↦
      let same : some c ≡ some c' = sym (rw (lru_del, p) refl) ∙ e in
      ap (λ (x : LruCache). x.map j) (sym (some-injective c c' same)) ∙ ground arith
  | inr (it, p) ↦ elim (Option-cases (deref it c.cache)) [
    | inl q ↦ let same : none ≡ some c' = sym (rw (lru_del, p, q) refl) ∙ e in absurd (ground arith)
    | inr (v, q) ↦
        let after = record c { cache = list_erase it c.cache; map = map_erase c.map key } in
        let same : some after ≡ some c' = sym (rw (lru_del, p, q) refl) ∙ e in
        ap (λ (x : LruCache). x.map j) (sym (some-injective after c' same)) ∙ refl
  ]
]

-- What the loop over the pages leaves in the cache.
pub record Forgets (k page : ℕ) (c : LruCache) : Type 0 where
  pub after : LruCache
  pub returns : forget_pages k page c ≡ some after
  pub keys : List ℕ
  pub holds : Holds after keys
  pub cap : after.cap ≡ c.cap
  pub lookups : (j : ℕ) → after.map j ≡ (if in_range page k j then none else c.map j)

pub forget_pages-Forgets :
    (k page : ℕ) (c : LruCache) (keys : List ℕ) → Holds c keys → Forgets k page c
unfolding forget_pages
forget_pages-Forgets zero page c keys h = record {
  after = c;
  returns = refl;
  keys = keys;
  holds = h;
  cap = refl;
  lookups = λ j. ground arith;
}
forget_pages-Forgets (suc k) page c keys h =
    let d = lru_del-Holds c keys page h in
    let r : Forgets k (page + 1) (d.0) = forget_pages-Forgets k (page + 1) (d.0) _ (d.3) in
    record {
      after = r.after;
      returns = rw (d.1) r.returns;
      keys = r.keys;
      holds = r.holds;
      cap = r.cap ∙ d.2;
      lookups = λ j. r.lookups j ∙ rw (lru_del-map c (d.0) page j (d.1)) (ground arith);
    }
