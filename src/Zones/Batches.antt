-- ===== src/Zones/Batches.antt =====
-- The second loop of `getValue` in src/include/utils.cpp, which collects intervals of pages.
use mathlib.Core.List.{append-nil}
use lsm_based_on_zns_ssd.Base.{
  ℕ, zero, suc, ◌+◌, ◌≤◌, ◌<◌, ◌≡◌, refl, sym, ap, subst, ◌∙◌, arith, false, ◌==◌, List, [], ◌∷◌,
  ◌++◌, some, inl, inr, ne→==_false,
}
use lsm_based_on_zns_ssd.Cache.Lru.{LruCache}
use lsm_based_on_zns_ssd.Cache.Keys.{recent_put, Holds}
use lsm_based_on_zns_ssd.Cache.Recency.{lru_put-Holds}
use lsm_based_on_zns_ssd.Zones.Reads.{read_batches, no_batch}
use lsm_based_on_zns_ssd.Zones.Missed.{
  touched, missed, pages, all_pages, Apart, next_interval, all_pages-snoc, missed-hit,
}
use lsm_based_on_zns_ssd.Zones.Cover.{open_pages, batch_begins, batch_ends, batch_grows}
use lsm_based_on_zns_ssd.Zones.Looks.{Looks, lru_get-Looks}

-- Where the next page is `page`, and the intervals that are closed are `interval`.
pub data IsBatch (page : ℕ) : ℕ → ℕ → List (ℕ × ℕ) → Type 0 where
  closed :
      (batch_right top : ℕ) (interval : List (ℕ × ℕ))
      → Apart top interval
      → top ≤ page
      → IsBatch page no_batch batch_right interval
  opened :
      (batch_left batch_right top : ℕ) (interval : List (ℕ × ℕ))
      → Apart top interval
      → top ≤ batch_left
      → batch_left ≤ batch_right
      → batch_right + 1 ≡ page
      → IsBatch page batch_left batch_right interval

-- What the second loop does.
pub record Batched (cap k page : ℕ) (c : LruCache) (keys : List ℕ) (left right : ℕ)
    (interval : List (ℕ × ℕ)) : Type 0 where
  pub result : List (ℕ × ℕ)
  pub c' : LruCache
  pub returns : read_batches k page c left right interval ≡ some (result, c')
  pub holds : Holds c' (touched cap k page keys)
  pub same_cap : c'.cap ≡ cap
  pub top : ℕ
  pub under : top ≤ page + k + 1
  pub apart : Apart top result
  pub covers :
      all_pages result ≡ all_pages interval ++ open_pages left right ++ missed cap k page keys

pub read_batches-Batched :
    (cap k page : ℕ) (c : LruCache) (keys : List ℕ) (left right : ℕ) (interval : List (ℕ × ℕ))
    → Holds c keys
    → c.cap ≡ cap
    → 0 < cap
    → page + k ≤ no_batch
    → IsBatch page left right interval
    → Batched cap k page c keys left right interval
unfolding read_batches
read_batches-Batched cap zero page c keys left right interval h e pos small
      (closed _ top _ apart under) =
    record {
      result = interval;
      c' = c;
      returns = refl;
      holds = h;
      same_cap = e;
      top = top;
      under = omega (arith, under);
      apart = apart;
      covers = sym (append-nil (all_pages interval ++ []) ∙ append-nil (all_pages interval));
    }
read_batches-Batched cap zero page c keys left right interval h e pos small
      (opened _ _ top _ apart under up next) =
    let some_batch : (left == no_batch) ≡ false =
      ne→==_false left no_batch (λ q. absurd (omega (arith, q, next, up, small))) in
    record {
      result = interval ++ ((left, right) ∷ []);
      c' = c;
      returns = rw some_batch refl;
      holds = h;
      same_cap = e;
      top = right + 2;
      under = omega (arith, next);
      apart = next_interval top left right interval apart under up;
      covers =
          all_pages-snoc interval left right
          ∙ sym (append-nil (all_pages interval ++ pages left right))
          ∙ rw some_batch refl;
    }
read_batches-Batched cap (suc k) page c keys left right interval h e pos small
      (closed _ top _ apart under) =
    let l : Looks page c keys = lru_get-Looks page c keys h (omega arith) in
    elim l.outcome [
      | inl (p, q, held) ↦
          let r : Batched cap k (page + 1) l.after (recent_put cap page keys) left right interval =
            read_batches-Batched cap k (page + 1) l.after (recent_put cap page keys) left right
              interval (subst (λ n. Holds l.after (recent_put n page keys)) e held) (l.cap ∙ e) pos
              (omega arith) (closed right top interval apart (omega arith)) in
          record {
            result = r.result;
            c' = r.c';
            returns = rw (l.returns, p) r.returns;
            holds = r.holds;
            same_cap = r.same_cap;
            top = r.top;
            under = omega (arith, r.under);
            apart = r.apart;
            covers =
                r.covers
                ∙ ap (λ ms. all_pages interval ++ [] ++ ms) (sym (missed-hit cap k page keys q));
          }
      | inr (p, q, held) ↦
          let u = lru_put-Holds l.after keys page held (rw (l.cap ∙ e) pos) in
          let r : Batched cap k (page + 1) (u.0) (recent_put cap page keys) page page interval =
            read_batches-Batched cap k (page + 1) (u.0) (recent_put cap page keys) page page
              interval (subst (λ n. Holds (u.0) (recent_put n page keys)) (l.cap ∙ e) (u.3))
              (u.2 ∙ l.cap ∙ e) pos (omega arith)
              (opened page page top interval apart under (omega arith) refl) in
          let new : (page == no_batch) ≡ false =
            ne→==_false page no_batch (λ n. absurd (omega (arith, n, small))) in
          record {
            result = r.result;
            c' = r.c';
            returns = rw (l.returns, p, u.1) r.returns;
            holds = r.holds;
            same_cap = r.same_cap;
            top = r.top;
            under = omega (arith, r.under);
            apart = r.apart;
            covers = r.covers ∙ batch_begins cap k page left right keys (all_pages interval) new q;
          }
    ]
read_batches-Batched cap (suc k) page c keys left right interval h e pos small
      (opened _ _ top _ apart under up next) =
    let l : Looks page c keys = lru_get-Looks page c keys h (omega arith) in
    let some_batch : (left == no_batch) ≡ false =
      ne→==_false left no_batch (λ q. absurd (omega (arith, q, next, up, small))) in
    elim l.outcome [
      | inl (p, q, held) ↦
          let closed_now = interval ++ ((left, right) ∷ []) in
          let r : Batched cap k (page + 1) l.after (recent_put cap page keys) no_batch right
              closed_now =
            read_batches-Batched cap k (page + 1) l.after (recent_put cap page keys) no_batch right
              closed_now (subst (λ n. Holds l.after (recent_put n page keys)) e held) (l.cap ∙ e)
              pos (omega arith)
              (closed right (right + 2) closed_now
                (next_interval top left right interval apart under up) (omega (arith, next))) in
          record {
            result = r.result;
            c' = r.c';
            returns = rw (l.returns, p, some_batch) r.returns;
            holds = r.holds;
            same_cap = r.same_cap;
            top = r.top;
            under = omega (arith, r.under);
            apart = r.apart;
            covers =
                r.covers
                ∙ ap (λ x. x ++ [] ++ missed cap k (page + 1) (recent_put cap page keys))
                    (all_pages-snoc interval left right)
                ∙ batch_ends cap k page left right keys (all_pages interval) some_batch q;
          }
      | inr (p, q, held) ↦
          let u = lru_put-Holds l.after keys page held (rw (l.cap ∙ e) pos) in
          let r : Batched cap k (page + 1) (u.0) (recent_put cap page keys) left page interval =
            read_batches-Batched cap k (page + 1) (u.0) (recent_put cap page keys) left page
              interval (subst (λ n. Holds (u.0) (recent_put n page keys)) (l.cap ∙ e) (u.3))
              (u.2 ∙ l.cap ∙ e) pos (omega arith)
              (opened left page top interval apart under (omega (arith, up, next)) refl) in
          record {
            result = r.result;
            c' = r.c';
            returns = rw (l.returns, p, u.1, some_batch) r.returns;
            holds = r.holds;
            same_cap = r.same_cap;
            top = r.top;
            under = omega (arith, r.under);
            apart = r.apart;
            covers =
                r.covers
                ∙ batch_grows cap k page left right keys (all_pages interval) some_batch q up next;
          }
    ]
