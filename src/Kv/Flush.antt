-- ===== src/Kv/Flush.antt =====
-- The flush of the memory table in `put` of src/LSM-Tree/kvstore.cc.
use mathlib.Core.Option.{some-injective}
use lsm_based_on_zns_ssd.Base.{
  ℕ, zero, suc, ◌+◌, ◌≤◌, ◌<◌, ◌≡◌, refl, sym, ap, ◌∙◌, subst, arith, false, if◌then◌else◌, ◌==◌,
  List, [], ◌∷◌, ◌++◌, some, get_elem?, set, length, add64, add64-eq, to_u32-eq, u32_mod,
}
use lsm_based_on_zns_ssd.Table.Search.{Increasing}
use lsm_based_on_zns_ssd.Table.Build.{Table, write_table, test_bits}
use lsm_based_on_zns_ssd.Table.Filter.{fill_filter-test_bits}
use lsm_based_on_zns_ssd.Table.Pairs.{lookup}
use lsm_based_on_zns_ssd.Table.Stores.{Stores}
use lsm_based_on_zns_ssd.Table.Flush.{flush_table}
use lsm_based_on_zns_ssd.Table.Filled.{Fills, fill_table-Fills}
use lsm_based_on_zns_ssd.SkipList.Memory.{SkipList, skip_clear}
use lsm_based_on_zns_ssd.SkipList.Columns.{Pairs, Ascends, one_more, value_of}
use lsm_based_on_zns_ssd.SkipList.Towers.{IsTowers}
use lsm_based_on_zns_ssd.SkipList.Rooted.{towers-IsSkipList}
use lsm_based_on_zns_ssd.SkipList.Clear.{skip_clear-IsTowers}
use lsm_based_on_zns_ssd.Kv.State.{KvStore, set_emplace}
use lsm_based_on_zns_ssd.Kv.Compact.{Setting, flush}
use lsm_based_on_zns_ssd.Kv.Answers.{
  IsTable, no_table, next_table, Levels, no_level, next_level, Tables-append, first_of,
  first_of-empty, newest_value, levels_value,
}
use lsm_based_on_zns_ssd.Kv.Stock.{Holds, InBounds, Older, Older-append, set_emplace-newest}

-- The tables of level 0 with the pairs of the memory table at their end.
abbrev pub flushed : Pairs → List (List Pairs) → List (List Pairs)
flushed memory [] = (memory ∷ []) ∷ []
flushed memory (tables ∷ lower) = (tables ++ (memory ∷ [])) ∷ lower

lookup-value_of : (k : ℕ) (ps : Pairs) → lookup k ps ≡ value_of k ps
lookup-value_of k [] = refl
lookup-value_of k ((k', v) ∷ ps) = ap (λ x. if k' == k then v else x) (lookup-value_of k ps)

newest_value-append :
    (k : ℕ) (pss : List Pairs) (ps : Pairs)
    → newest_value k (pss ++ (ps ∷ [])) ≡ first_of (lookup k ps) (newest_value k pss)
newest_value-append k [] ps = first_of_nil (lookup k ps)
  where
    first_of_nil : (a : List ℕ) → a ≡ first_of a []
    first_of_nil [] = refl
    first_of_nil (x ∷ xs) = refl
newest_value-append k (qs ∷ pss) ps =
    ap (λ a. first_of a (lookup k qs)) (newest_value-append k pss ps)
    ∙ first_of-empty (lookup k ps) (newest_value k pss) (lookup k qs)

-- A flush changes no value.
pub levels_value-flushed :
    (k : ℕ) (memory : Pairs) (tables : List (List Pairs))
    → levels_value k (flushed memory tables) ≡ first_of (value_of k memory) (levels_value k tables)
levels_value-flushed k memory [] = ap (λ a. first_of a []) (lookup-value_of k memory)
levels_value-flushed k memory (pss ∷ lower) =
    ap (λ a. first_of a (levels_value k lower)) (newest_value-append k pss memory)
    ∙ first_of-empty (lookup k memory) (newest_value k pss) (levels_value k lower)
    ∙ ap (λ a. first_of a (first_of (newest_value k pss) (levels_value k lower)))
        (lookup-value_of k memory)

Ascends-from :
    (low : ℕ) (ps : Pairs) (i : ℕ) (q : ℕ × List ℕ)
    → Ascends low ps
    → get_elem? ps i ≡ some q
    → low ≤ q.0
Ascends-from low [] i q up e = absurd (ground arith)
Ascends-from low ((k, v) ∷ ps) zero q (one_more _ _ _ _ h more) e =
    let same : k ≡ q.0 = ap (λ p. p.0) (some-injective (k, v) q e) in omega (arith, h, same)
Ascends-from low ((k, v) ∷ ps) (suc i) q (one_more _ _ _ _ h more) e =
    omega (arith, h, Ascends-from (suc k) ps i q more e)

Ascends-Increasing : (low : ℕ) (ps : Pairs) → Ascends low ps → Increasing ps
unfolding Increasing
Ascends-Increasing low [] up i j a b less e e' = absurd (ground arith)
Ascends-Increasing low ((k, v) ∷ ps) (one_more _ _ _ _ h more) zero zero a b less e e' =
    absurd (omega (arith, less))
Ascends-Increasing low ((k, v) ∷ ps) (one_more _ _ _ _ h more) zero (suc j) a b less e e' =
    let same : k ≡ a.0 = ap (λ p. p.0) (some-injective (k, v) a e) in
    omega (arith, same, Ascends-from (suc k) ps j b more e')
Ascends-Increasing low ((k, v) ∷ ps) (one_more _ _ _ _ h more) (suc i) zero a b less e e' =
    absurd (omega (arith, less))
Ascends-Increasing low ((k, v) ∷ ps) (one_more _ _ _ _ h more) (suc i) (suc j) a b less e e' =
    Ascends-Increasing (suc k) ps more i j a b (omega (arith, less)) e e'

-- The table that the memory table becomes.
fills-Stores :
    (hash : ℕ → List ℕ) (left_size : List ℕ → ℕ) (fuel wide order : ℕ) (s : SkipList)
    (memory : Pairs) (f : Fills hash left_size fuel wide order s memory)
    → Ascends 0 memory
    → InBounds s.min_key s.max_key memory
    → Stores hash f.t memory
fills-Stores hash left_size fuel wide order s memory f up b = record {
  key_value = f.key_value;
  keys = f.keys;
  filtered = λ i key v e.
      ap (test_bits (hash key)) f.bloom ∙ fill_filter-test_bits hash memory (λ j. false) i key v e;
  least = λ i q e. let h : s.min_key ≤ q.0 = b.above i q e in omega (arith, h, f.least);
  greatest = λ i q e. let h : q.0 ≤ s.max_key = b.below i q e in omega (arith, h, f.greatest);
  increasing = Ascends-Increasing 0 memory up;
}

flushed-Levels :
    (hash : ℕ → List ℕ) (fuel : ℕ) (tss : List (List Table)) (tables : List (List Pairs))
    (ts : List Table) (t : Table) (memory : Pairs)
    → Levels hash fuel tss tables
    → get_elem? tss 0 ≡ some ts
    → IsTable hash fuel t memory
    → Levels hash fuel (set tss 0 (ts ++ (t ∷ []))) (flushed memory tables)
flushed-Levels hash fuel _ _ ts t memory no_level e w = absurd (ground arith)
flushed-Levels hash fuel _ _ ts t memory (next_level us pss tss psss v more) e w =
    let same : us ≡ ts = some-injective us ts e in
    subst (λ x. Levels hash fuel ((x ++ (t ∷ [])) ∷ tss) ((pss ++ (memory ∷ [])) ∷ psss)) same
      (next_level (us ++ (t ∷ [])) (pss ++ (memory ∷ [])) tss psss
        (Tables-append hash fuel us (t ∷ []) pss (memory ∷ []) v
          (next_table t memory [] [] w no_table))
        more)

get_elem?-set_front :
    (tss : List (List Table)) (ts us : List Table)
    → get_elem? tss 0 ≡ some ts
    → get_elem? (set tss 0 us) 0 ≡ some us
get_elem?-set_front [] ts us e = absurd (ground arith)
get_elem?-set_front (x ∷ tss) ts us e = refl

module _ (g : Setting) (level : ℕ) (memory : Pairs) (tables : List (List Pairs)) (kv : KvStore)
    (w : Holds g level memory tables kv) (pos : 0 < length memory) (wide : length memory < g.wide)
    (searched : length memory < g.fuel) (deep : level + 2 ≤ g.levels)
    (early : kv.mem_table.time_stamp + 1 < u32_mod) (count : ℕ)
    (counted : get_elem? kv.level 0 ≡ some count) (ts : List Table)
    (level_0 : get_elem? kv.ss_table 0 ≡ some ts) where
  filled : Fills g.hash g.left_size g.levels g.wide (count + 1) kv.mem_table memory
  filled =
      let (top, less, list) = towers-IsSkipList kv.mem_table level memory w.towers in
      fill_table-Fills g.hash g.left_size kv.mem_table top memory list g.levels g.wide (count + 1)
        pos wide (omega (arith, less, deep))

  cleared :
      (m : SkipList) × (skip_clear g.levels g.wide filled.after ≡ some m)
      × IsTowers m 0 []
      × (m.time_stamp ≡ kv.mem_table.time_stamp + 1)
  cleared =
      let s₁ : SkipList = record kv.mem_table { time_stamp = add64 kv.mem_table.time_stamp 1 } in
      let v : IsTowers s₁ level memory = record {
        rows = w.towers.rows;
        towers = w.towers.towers;
        counted = w.towers.counted;
        same = w.towers.same;
        ascends = w.towers.ascends;
        free = w.towers.free;
        sized = w.towers.sized;
      } in
      let (m, run, done, stamp) =
        skip_clear-IsTowers g.levels g.wide level s₁ memory v wide (omega (arith, deep)) in
      (
        m,
        ap (skip_clear g.levels g.wide) filled.advanced ∙ run,
        done,
        stamp ∙ add64-eq kv.mem_table.time_stamp 1 (omega (arith, early)),
      )

  table_stamp : filled.t.meta_info.time_stamp ≡ kv.mem_table.time_stamp
  table_stamp = filled.stamped ∙ to_u32-eq kv.mem_table.time_stamp (omega (arith, early))

  -- The store after a flush is in order, its memory table is empty, and level 0 has the pairs at its end.
  pub flush-Holds :
      (kv' : KvStore) × (flush g.hash g.left_size g.levels g.wide kv ≡ some kv')
      × Holds g 0 [] (flushed memory tables) kv'
      × (get_elem? kv'.level 0 ≡ some (count + 1))
  unfolding flush flush_table
  flush-Holds =
      let (m, run, done, stamp) = cleared in
      let t : Table = filled.t in
      let old : Older t.meta_info.time_stamp ts =
        subst (λ n. Older n ts) (sym table_stamp) (w.newer ts level_0) in
      let placed : set_emplace t ts ≡ ts ++ (t ∷ []) = set_emplace-newest t ts old in
      let stores : IsTable g.hash g.fuel t memory = record {
        stores =
            fills-Stores g.hash g.left_size g.levels g.wide (count + 1) kv.mem_table memory filled
              w.towers.ascends w.bounds;
        short = searched;
      } in
      (
        record kv {
          mem_table = m;
          level = set kv.level 0 (count + 1);
          ss_table = set kv.ss_table 0 (set_emplace t ts);
          calls = kv.calls ++ (write_table 0 (count + 1) ∷ []);
        },
        rw (counted, level_0, filled.returns, run) refl,
        record {
          towers = done;
          tables_hold =
              subst (λ x. Levels g.hash g.fuel (set kv.ss_table 0 x) (flushed memory tables))
                (sym placed)
                (flushed-Levels g.hash g.fuel kv.ss_table tables ts t memory w.tables_hold level_0
                  stores);
          bounds = record {
            above = λ i q e. absurd (ground arith);
            below = λ i q e. absurd (ground arith);
          };
          newer = λ us e.
              let same : set_emplace t ts ≡ us =
                some-injective (set_emplace t ts) us
                  (sym (get_elem?-set_front kv.ss_table ts (set_emplace t ts) level_0) ∙ e) in
              subst (Older m.time_stamp) (sym placed ∙ same) (
                Older-append t.meta_info.time_stamp m.time_stamp ts t old
                  (omega (arith, stamp, table_stamp)) (omega (arith, stamp, table_stamp)));
        },
        front kv.level (count + 1) counted,
      )
    where
      front :
          (cs : List ℕ) (n : ℕ) → get_elem? cs 0 ≡ some count → get_elem? (set cs 0 n) 0 ≡ some n
      front [] n e = absurd (ground arith)
      front (c ∷ cs) n e = refl
