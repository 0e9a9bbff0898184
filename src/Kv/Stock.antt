-- ===== src/Kv/Stock.antt =====
-- The store of src/LSM-Tree/kvstore.cc in order: its memory table, its tables, and what a flush needs of them.
use mathlib.Core.Option.{some-injective}
use lsm_based_on_zns_ssd.Base.{
  ℕ, zero, suc, ◌≤◌, ◌<◌, ◌≡◌, ◌≢◌, refl, sym, ap, arith, Bool, true, false, if◌then◌else◌, ltb,
  lt→ltb, ◌==◌, ne→==_false, List, [], ◌∷◌, ◌++◌, some, ◌⊎◌, inl, inr, get_elem?,
}
use lsm_based_on_zns_ssd.Table.Build.{Table}
use lsm_based_on_zns_ssd.SkipList.Memory.{SkipList}
use lsm_based_on_zns_ssd.SkipList.Columns.{Pairs}
use lsm_based_on_zns_ssd.SkipList.Towers.{IsTowers, put_pair}
use lsm_based_on_zns_ssd.SkipList.First.{bounded}
use lsm_based_on_zns_ssd.Kv.State.{KvStore, set_emplace}
use lsm_based_on_zns_ssd.Kv.Compact.{Setting}
use lsm_based_on_zns_ssd.Kv.Answers.{Levels}

-- The least and the greatest key, as the memory table keeps them.
pub record InBounds (least greatest : ℕ) (pairs : Pairs) : Type 0 where
  pub above : (i : ℕ) (q : ℕ × List ℕ) → get_elem? pairs i ≡ some q → least ≤ q.0
  pub below : (i : ℕ) (q : ℕ × List ℕ) → get_elem? pairs i ≡ some q → q.0 ≤ greatest

-- The tables of a level have time stamps below `stamp`.
pub data Older (stamp : ℕ) : List Table → Type 0 where
  no_older : Older stamp []
  older_and :
      (t : Table) (ts : List Table)
      → t.meta_info.time_stamp < stamp
      → Older stamp ts
      → Older stamp (t ∷ ts)

-- The store holds these pairs in its memory table, and these in its tables.
pub record Holds (g : Setting) (level : ℕ) (memory : Pairs) (tables : List (List Pairs))
    (kv : KvStore) : Type 0 where
  pub towers : IsTowers kv.mem_table level memory
  pub tables_hold : Levels g.hash g.fuel kv.ss_table tables
  pub bounds : InBounds kv.mem_table.min_key kv.mem_table.max_key memory
  pub newer :
      (ts : List Table) → get_elem? kv.ss_table 0 ≡ some ts → Older kv.mem_table.time_stamp ts

-- A pair after `put` is the new one or was there.
put_pair-from :
    (key : ℕ) (value : List ℕ) (ps : Pairs) (i : ℕ) (q : ℕ × List ℕ)
    → get_elem? (put_pair key value ps) i ≡ some q
    → (q.0 ≡ key) ⊎ ((j : ℕ) × (get_elem? ps j ≡ some q))
put_pair-from key value [] zero q e = inl (sym (ap (λ p. p.0) (some-injective (key, value) q e)))
put_pair-from key value [] (suc i) q e = absurd (ground arith)
put_pair-from key value ((k, v) ∷ rest) i q e =
    by_cases (λ j there. put_pair-from key value rest j q there) (k == key) (ltb key k) i e
  where
    by_cases :
        ((j : ℕ)
          → get_elem? (put_pair key value rest) j ≡ some q
          → (q.0 ≡ key) ⊎ ((n : ℕ) × (get_elem? rest n ≡ some q)))
        → (b c : Bool) (i : ℕ)
        → get_elem?
            (if b
              then (key, value) ∷ rest
              else if c
              then (key, value) ∷ ((k, v) ∷ rest)
              else (k, v) ∷ put_pair key value rest)
            i
          ≡ some q
        → (q.0 ≡ key) ⊎ ((j : ℕ) × (get_elem? ((k, v) ∷ rest) j ≡ some q))
    by_cases later true c zero e = inl (sym (ap (λ p. p.0) (some-injective (key, value) q e)))
    by_cases later true c (suc i) e = inr (suc i, e)
    by_cases later false true zero e = inl (sym (ap (λ p. p.0) (some-injective (key, value) q e)))
    by_cases later false true (suc i) e = inr (i, e)
    by_cases later false false zero e = inr (0, e)
    by_cases later false false (suc i) e = elim (later i e) [
      | inl p ↦ inl p
      | inr (j, there) ↦ inr (suc j, there)
    ]

pub put-InBounds :
    (key : ℕ) (value : List ℕ) (s : SkipList) (least greatest : ℕ) (ps : Pairs)
    → InBounds s.min_key s.max_key ps
    → least ≡ (bounded key value s).min_key
    → greatest ≡ (bounded key value s).max_key
    → InBounds least greatest (put_pair key value ps)
put-InBounds key value s least greatest ps w p p' = record {
  above = λ i q e. elim (put_pair-from key value ps i q e) [
    | inl same ↦ ground (arith, p, same)
    | inr (j, there) ↦ let h : s.min_key ≤ q.0 = w.above j q there in ground (arith, p, h)
  ];
  below = λ i q e. elim (put_pair-from key value ps i q e) [
    | inl same ↦ ground (arith, p', same)
    | inr (j, there) ↦ let h : q.0 ≤ s.max_key = w.below j q there in ground (arith, p', h)
  ];
}

-- A table that is newer than all goes to the end.
pub set_emplace-newest :
    (t : Table) (ts : List Table)
    → Older t.meta_info.time_stamp ts
    → set_emplace t ts ≡ ts ++ (t ∷ [])
unfolding set_emplace
set_emplace-newest t _ no_older = refl
set_emplace-newest t _ (older_and u ts less more) =
    let differ : t.meta_info.time_stamp ≢ u.meta_info.time_stamp =
      λ q. absurd (omega (arith, q, less)) in
    let not_less : ltb t.meta_info.time_stamp u.meta_info.time_stamp ≡ false = ground arith in
    rw
      (
        ne→==_false t.meta_info.time_stamp u.meta_info.time_stamp differ,
        not_less,
        ne→==_false u.meta_info.time_stamp t.meta_info.time_stamp (λ q. differ (sym q)),
        lt→ltb u.meta_info.time_stamp t.meta_info.time_stamp less,
      )
      (ap (λ x. u ∷ x) (set_emplace-newest t ts more))

pub Older-append :
    (n m : ℕ) (ts : List Table) (t : Table)
    → Older n ts
    → n ≤ m
    → t.meta_info.time_stamp < m
    → Older m (ts ++ (t ∷ []))
Older-append n m _ t no_older h less = older_and t [] less no_older
Older-append n m _ t (older_and u ts l more) h less =
    older_and u (ts ++ (t ∷ [])) (omega (arith, l, h)) (Older-append n m ts t more h less)
