-- ===== src/Zones/Looks.antt =====
-- The first loop of `getValue` in src/include/utils.cpp, which skips pages of the cache.

use lsm_based_on_zns_ssd.Base.{
  ℕ, zero, suc, ◌+◌, ◌≤◌, ◌<◌, ◌≡◌, refl, subst, ◌∙◌, arith, true, false, ◌==◌, List, some, ◌⊎◌,
  inl, inr, Bool-cases, ne→==_false, eq→==,
}
use lsm_based_on_zns_ssd.Cache.Lru.{LruCache, lru_get, not_found}
use lsm_based_on_zns_ssd.Cache.Keys.{contains, recent_get, recent_put, Holds}
use lsm_based_on_zns_ssd.Cache.Recency.{lru_get-Holds}
use lsm_based_on_zns_ssd.Zones.Reads.{skip_cached}
use lsm_based_on_zns_ssd.Zones.Missed.{touched, missed, missed-hit}

-- One look at a page: it is found, or it is not there and the cache stays.
pub record Looks (page : ℕ) (c : LruCache) (keys : List ℕ) : Type 0 where
  pub found : ℕ
  pub after : LruCache
  pub returns : lru_get page c ≡ some (found, after)
  pub cap : after.cap ≡ c.cap
  pub outcome :
      ((found == not_found) ≡ false)
        × (contains page keys ≡ true)
        × Holds after (recent_put c.cap page keys)
      ⊎ ((found == not_found) ≡ true) × (contains page keys ≡ false) × Holds after keys

pub lru_get-Looks :
    (page : ℕ) (c : LruCache) (keys : List ℕ) → Holds c keys → page < not_found → Looks page c keys
lru_get-Looks page c keys h small =
    let g = lru_get-Holds c keys page h in
    elim (Bool-cases (contains page keys)) [
      | inl p ↦
          let ks : (recent_get page keys).1 ≡ recent_put c.cap page keys = rw p refl in
          record {
            found = page;
            after = g.0;
            returns = g.1 ∙ rw p refl;
            cap = g.2;
            outcome = inl (
              ne→==_false page not_found (λ q. absurd (omega (arith, q, small))),
              p,
              subst (Holds (g.0)) ks (g.3),
            );
          }
      | inr p ↦
          let ks : (recent_get page keys).1 ≡ keys = rw p refl in
          record {
            found = not_found;
            after = g.0;
            returns = g.1 ∙ rw p refl;
            cap = g.2;
            outcome = inr (eq→== not_found not_found refl, p, subst (Holds (g.0)) ks (g.3));
          }
    ]

-- What the first loop does: `k` pages are left, from `page` on.
pub record Skips (cap k page : ℕ) (c : LruCache) (keys : List ℕ) : Type 0 where
  pub k' : ℕ
  pub page' : ℕ
  pub c' : LruCache
  pub keys' : List ℕ
  pub returns : skip_cached k page c ≡ some (k', page', c')
  pub holds : Holds c' keys'
  pub same_cap : c'.cap ≡ cap
  pub end : page' + k' ≡ page + k
  pub misses : missed cap k page keys ≡ missed cap k' page' keys'
  pub touches : touched cap k page keys ≡ touched cap k' page' keys'

pub skip_cached-Skips :
    (cap k page : ℕ) (c : LruCache) (keys : List ℕ)
    → Holds c keys
    → c.cap ≡ cap
    → page + k ≤ not_found
    → Skips cap k page c keys
unfolding skip_cached
skip_cached-Skips cap zero page c keys h e small = record {
  k' = 0;
  page' = page;
  c' = c;
  keys' = keys;
  returns = refl;
  holds = h;
  same_cap = e;
  end = refl;
  misses = refl;
  touches = refl;
}
skip_cached-Skips cap (suc k) page c keys h e small =
    let l : Looks page c keys = lru_get-Looks page c keys h (omega arith) in
    elim l.outcome [
      | inl (p, q, held) ↦
          let r : Skips cap k (page + 1) l.after (recent_put cap page keys) =
            skip_cached-Skips cap k (page + 1) l.after (recent_put cap page keys)
              (subst (λ n. Holds l.after (recent_put n page keys)) e held) (l.cap ∙ e)
              (omega arith) in
          record {
            k' = r.k';
            page' = r.page';
            c' = r.c';
            keys' = r.keys';
            returns = rw (l.returns, p) r.returns;
            holds = r.holds;
            same_cap = r.same_cap;
            end = omega (arith, r.end);
            misses = missed-hit cap k page keys q ∙ r.misses;
            touches = r.touches;
          }
      | inr (p, q, held) ↦ record {
        k' = suc k;
        page' = page;
        c' = l.after;
        keys' = keys;
        returns = rw (l.returns, p) refl;
        holds = held;
        same_cap = l.cap ∙ e;
        end = refl;
        misses = refl;
        touches = refl;
      }
    ]
