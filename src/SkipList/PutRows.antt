-- ===== src/SkipList/PutRows.antt =====
-- `SkipList::put` of src/LSM-Tree/SkipList.cpp on a list that has a level: a key that is there, and a new one.
use lsm_based_on_zns_ssd.Base.{
  ℕ, suc, ◌+◌, ◌≤◌, ◌<◌, ◌≡◌, ◌≢◌, refl, sym, ap, ◌∙◌, subst, arith, Bool, true, false, ◌==◌, eq→==,
  ne→==_false, ℕ_discrete, List, [], ◌∷◌, ◌++◌, Option, none, some, ◌>>=◌, Bool-cases, inl, inr,
  length, length-append, add64, add64-eq, u64_mod,
}
use lsm_based_on_zns_ssd.SkipList.Memory.{
  SkipList, head_key, path_list, ends_at, insert_up, add_level, skip_put,
}
use lsm_based_on_zns_ssd.SkipList.Columns.{Pairs, Ascends}
use lsm_based_on_zns_ssd.SkipList.Cells.{
  Cell, node_of, Row, Each, Linked, Linked-last_before, Each-insert_cell, pairs_of, last_before,
  insert_cell, replace_cells, Above, Upper, path_of,
}
use lsm_based_on_zns_ssd.SkipList.Depth.{lowest}
use lsm_based_on_zns_ssd.SkipList.Upward.{IsRow, IsRow-Same, Upper-Same}
use lsm_based_on_zns_ssd.SkipList.Lift.{new_cell, Lifts, insert_up-Lifts}
use lsm_based_on_zns_ssd.SkipList.Level.{
  Upper-append, top_cell, tower_cell, add_level-Keeps, add_level-Same, add_level-Free,
  add_level-Linked,
}
use lsm_based_on_zns_ssd.SkipList.Path.{path_list-path_of}
use lsm_based_on_zns_ssd.SkipList.Replace.{Each-replace_cells, key_absent}
use lsm_based_on_zns_ssd.SkipList.Renew.{replace_values-Renews}
use lsm_based_on_zns_ssd.SkipList.Towers.{
  Towers, some_rows, IsTowers, put_pair, put_pair-Ascends, insert_cell-put_pair, length-insert_cell,
  replace_cells-put_pair, length-replace_cells,
}
use lsm_based_on_zns_ssd.SkipList.First.{lowest-IsRow, bounded, Puts}

module _ (coin : ℕ → Bool) (key : ℕ) (value : List ℕ) (inside : key < head_key) where
  -- A list with levels: the path, and how the program goes on.
  module _ (fuel wide level : ℕ) (s : SkipList) (pairs : Pairs) (w : IsTowers s level pairs)
      (h : Cell) (cs : List Cell) (rows : List Row) (t : Cell) (ts : List Cell)
      (linked : Linked s.nodes h cs) (head : h.key ≡ head_key) (down : h.down ≡ none)
      (downs : Each (λ c. c.down ≡ none) cs) (low : Each (λ c. c.key < head_key) cs)
      (upper : Upper s.nodes h cs rows t ts) (at : s.head ≡ some t.at)
      (counted : suc (length rows) ≡ level) (same : pairs_of cs ≡ pairs)
      (short : length pairs < wide) (enough : level + 1 ≤ fuel) where
    abbrev p : Cell
    p = last_before key h cs

    row : IsRow s.nodes 0 h cs
    row = lowest-IsRow s.nodes h cs linked head down downs

    up : Ascends 0 (pairs_of cs)
    up = subst (Ascends 0) (sym same) w.ascends

    length-pairs_of : (ds : List Cell) → length (pairs_of ds) ≡ length ds
    length-pairs_of [] = refl
    length-pairs_of (d ∷ ds) = ap suc (length-pairs_of ds)

    put_path : path_list fuel wide key s.nodes s.head [] ≡ some (path_of key ((h, cs) ∷ rows))
    put_path =
        let size : length cs ≡ length pairs = sym (length-pairs_of cs) ∙ ap length same in
        ap (λ x. path_list fuel wide key s.nodes x []) at
        ∙ path_list-path_of s.nodes key wide fuel h cs rows t ts upper linked down downs up
            (omega (arith, size, short)) (omega (arith, counted, enough))

    put_ends :
        (r : Option ℕ)
        → s.nodes p.at ≡ some (node_of p r)
        → ends_at key (path_of key ((h, cs) ∷ rows)) s.nodes ≡ some (p.key == key)
    unfolding ends_at
    put_ends r there = rw (there, ◌>>=◌) refl

    -- The key is there.
    put_found :
        p.key ≡ key
        → (s' : SkipList) × (skip_put coin fuel wide key value s ≡ some s')
          × Puts key value s level pairs s'
    unfolding skip_put
    put_found is =
        let (r, there) = Linked-last_before s.nodes key h cs linked in
        let (nodes', run, n) =
          replace_values-Renews key value inside s.nodes 0 h cs rows t ts row upper up low in
        let pairs' : pairs_of (replace_cells key value cs) ≡ put_pair key value pairs =
          replace_cells-put_pair 0 key value h cs up (λ q. absurd (omega (arith, q, head, inside)))
            is
          ∙ ap (put_pair key value) same in
        (
          record (bounded key value s) { nodes = nodes' },
          rw (put_path, put_ends r there, eq→== p.key key is, run) refl,
          record {
            new_level = level;
            grows = omega arith;
            least = refl;
            greatest = refl;
            stamp = refl;
            towers = record {
              rows = (h, replace_cells key value cs) ∷ n.rows;
              towers =
                  subst (λ x. Towers nodes' x ((h, replace_cells key value cs) ∷ n.rows)) (sym at)
                    (some_rows h (replace_cells key value cs) n.rows t n.ts n.row.linked head down
                      (Each-replace_cells key value (λ a x d. d ≡ none) cs downs)
                      (Each-replace_cells key value (λ a x d. x < head_key) cs low) n.upper);
              counted = ap suc n.counted ∙ counted;
              same = pairs';
              ascends = put_pair-Ascends 0 key value pairs (omega arith) w.ascends;
              free = λ a h. n.free a (w.free a h);
              sized =
                  w.sized
                  ∙ ap length (sym same)
                  ∙ sym (length-replace_cells key value cs)
                  ∙ ap length pairs';
            };
          },
        )

    -- The key is new.
    module _ (ne : p.key ≢ key) (fits : length pairs + 1 < u64_mod) where
      abbrev s₂ : SkipList
      s₂ = record (bounded key value s) { size = add64 s.size 1 }

      abbrev cs' : List Cell
      cs' = insert_cell (new_cell key value s.fresh none) cs

      pairs' : pairs_of cs' ≡ put_pair key value pairs
      pairs' =
          insert_cell-put_pair (new_cell key value s.fresh none) cs
            (key_absent key value 0 h cs up ne)
          ∙ ap (put_pair key value) same

      new_size : add64 s.size 1 ≡ length (put_pair key value pairs)
      new_size =
          let size : length (put_pair key value pairs) ≡ suc (length pairs) =
            ap length (sym pairs')
            ∙ length-insert_cell (new_cell key value s.fresh none) cs
            ∙ ap (λ x. suc (length x)) same in
          ap (λ n. add64 n 1) w.sized ∙ add64-eq (length pairs) 1 fits ∙ omega (arith, size)

      new_downs : Each (λ c. c.down ≡ none) cs'
      new_downs =
          Each-insert_cell {P = λ c. c.down ≡ none} (new_cell key value s.fresh none) cs refl downs

      new_low : Each (λ c. c.key < head_key) cs'
      new_low =
          Each-insert_cell {P = λ c. c.key < head_key} (new_cell key value s.fresh none) cs inside
            low

      module _ (r : SkipList × Option ℕ × Bool)
          (run : insert_up coin key value (path_of key ((h, cs) ∷ rows)) none s₂ ≡ some r)
          (l : Lifts coin key value 0 s₂ h cs' t (length rows) r) where
        -- The tower ends below the top.
        inserted :
            r.2 ≡ false
            → (s' : SkipList) × (skip_put coin fuel wide key value s ≡ some s')
              × Puts key value s level pairs s'
        unfolding skip_put
        inserted off =
            let (q, there) = Linked-last_before s.nodes key h cs linked in
            (
              r.0,
              rw (put_path, put_ends q there, ne→==_false p.key key ne, run, off) refl,
              record {
                new_level = level;
                grows = omega arith;
                least = l.same_least;
                greatest = l.same_greatest;
                stamp = l.same_stamp;
                towers = record {
                  rows = (h, cs') ∷ l.rows;
                  towers =
                      subst (λ x. Towers (r.0).nodes x ((h, cs') ∷ l.rows)) (sym (l.same_head ∙ at))
                        (some_rows h cs' l.rows t l.ts l.row.linked head down new_downs new_low
                          l.upper);
                  counted = ap suc l.counted ∙ counted;
                  same = pairs';
                  ascends = put_pair-Ascends 0 key value pairs (omega arith) w.ascends;
                  free = l.free;
                  sized = l.same_size ∙ new_size;
                };
              },
            )

        -- The tower gets a level of its own.
        raised :
            r.2 ≡ true
            → (s' : SkipList) × (skip_put coin fuel wide key value s ≡ some s')
              × Puts key value s level pairs s'
        unfolding skip_put add_level
        raised on =
            let (q, there) = Linked-last_before s.nodes key h cs linked in
            let (d, below, above) = l.top on in
            let s' : SkipList = add_level key value (r.1) (r.0) in
            let h' : Cell = top_cell key value (r.1) (r.0) l.free in
            let c' : Cell = tower_cell key value (r.1) (r.0) l.free in
            let keeps = add_level-Keeps key value (r.1) (r.0) l.free in
            let row' : IsRow s'.nodes 0 h cs' =
              IsRow-Same (r.0).nodes s'.nodes 0 h cs' l.row keeps
                (add_level-Same key value (r.1) (r.0) l.free (λ j. j ≡ 0)) in
            let upper' : Upper s'.nodes h cs' (l.rows ++ ((h', c' ∷ []) ∷ [])) h' (c' ∷ []) =
              Upper-append s'.nodes h cs' l.rows t l.ts h' (c' ∷ [])
                (Upper-Same (r.0).nodes s'.nodes 0 h cs' l.rows t l.ts l.row
                  (add_level-Same key value (r.1) (r.0) l.free (λ j. 0 < j)) l.upper)
                (add_level-Linked key value (r.1) (r.0) l.free) refl (l.same_head ∙ at)
                (subst (λ x. Above (new_cell key value ((r.0).fresh + 1) x ∷ []) l.ts) (sym below)
                  (above ((r.0).fresh + 1))) in
            (
              s',
              rw (put_path, put_ends q there, ne→==_false p.key key ne, run, on) refl,
              record {
                new_level = level + 1;
                grows = omega arith;
                least = l.same_least;
                greatest = l.same_greatest;
                stamp = l.same_stamp;
                towers = record {
                  rows = (h, cs') ∷ (l.rows ++ ((h', c' ∷ []) ∷ []));
                  towers =
                      some_rows h cs' (l.rows ++ ((h', c' ∷ []) ∷ [])) h' (c' ∷ []) row'.linked head
                        down new_downs new_low upper';
                  counted =
                      omega (arith, length-append l.rows ((h', c' ∷ []) ∷ []), l.counted, counted);
                  same = pairs';
                  ascends = put_pair-Ascends 0 key value pairs (omega arith) w.ascends;
                  free = add_level-Free key value (r.1) (r.0) l.free;
                  sized = l.same_size ∙ new_size;
                };
              },
            )

    pub put_rows :
        length pairs + 1 < u64_mod
        → (s' : SkipList) × (skip_put coin fuel wide key value s ≡ some s')
          × Puts key value s level pairs s'
    put_rows fits = elim (ℕ_discrete p.key key) [
      | yes is ↦ put_found is
      | no ne ↦
          let (r, run, l) =
            insert_up-Lifts coin key value 0 (s₂ ne fits) none h cs rows t ts row upper up low
              w.free (λ nodes' keeps n e q. lowest s.fresh n e q) in
          elim (Bool-cases (r.2)) [
            | inl on ↦ raised ne fits r run l on
            | inr off ↦ inserted ne fits r run l off
          ]
    ]
