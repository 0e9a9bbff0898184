-- ===== src/SkipList/Clear.antt =====
-- `SkipList::clear` of src/LSM-Tree/SkipList.cpp: every level is deleted, and the list is empty.
use lsm_based_on_zns_ssd.Base.{
  ℕ, zero, suc, ◌+◌, ◌-◌, ◌≤◌, ◌<◌, ◌≡◌, ◌≢◌, refl, sym, ap, ◌∙◌, subst, subst₂, arith,
  if◌then◌else◌, ◌==◌, eq→==, ne→==_false, ℕ_discrete, List, [], ◌∷◌, Option, none, some, ◌>>=◌,
  length,
}
use lsm_based_on_zns_ssd.SkipList.Memory.{
  Node, SkipList, head_key, delete_level, delete_levels, skip_clear, int64_max, int64_min,
}
use lsm_based_on_zns_ssd.SkipList.Columns.{Pairs, Ascends, no_pair, one_more}
use lsm_based_on_zns_ssd.SkipList.Cells.{
  Cell, node_of, Row, Each, cell_and, Each-map, Each-both, Each-first, Each-rest, Linked, last_cell,
  next_cell, Linked-frame, Linked-head, Linked-cells, pairs_of, Upper, top_row, upper_row,
}
use lsm_based_on_zns_ssd.SkipList.Insert.{Ascends-Each, keys_apart}
use lsm_based_on_zns_ssd.SkipList.Depth.{Depth, Depth-unique}
use lsm_based_on_zns_ssd.SkipList.Standing.{Above-Each, Above-Ascends}
use lsm_based_on_zns_ssd.SkipList.Upward.{Same, IsRow, upper-IsRow}
use lsm_based_on_zns_ssd.SkipList.Path.{Above-length}
use lsm_based_on_zns_ssd.SkipList.First.{lowest-IsRow}
use lsm_based_on_zns_ssd.SkipList.Towers.{Towers, no_row, some_rows, lowest_pairs, IsTowers}

abbrev without : ℕ → (ℕ → Option Node) → ℕ → Option Node
without a nodes b = if a == b then none else nodes b

-- After a level is deleted: other nodes stay, and no node comes.
record Deleted (nodes : ℕ → Option Node) (h : Cell) (cs : List Cell) (left : ℕ → Option Node)
    : Type 0 where
  others : (a : ℕ) → h.at ≢ a → Each (λ c. c.at ≢ a) cs → left a ≡ nodes a
  free : (a : ℕ) → nodes a ≡ none → left a ≡ none

delete_level-Deleted :
    (nodes : ℕ → Option Node) (wide low : ℕ) (h : Cell) (cs : List Cell)
    → Linked nodes h cs
    → Each (λ c. h.key ≢ c.key) cs
    → Ascends low (pairs_of cs)
    → length cs < wide
    → (left : ℕ → Option Node) × (delete_level wide nodes h.at ≡ some left)
      × Deleted nodes h cs left
unfolding delete_level
delete_level-Deleted nodes zero low h cs k apart up short = absurd (omega (arith, short))
delete_level-Deleted nodes (suc wide) low h [] (last_cell _ e) apart up short = (
  without h.at nodes,
  rw (e, ◌>>=◌) refl,
  record {
    others = λ a ne _. rw (ne→==_false h.at a ne) refl;
    free = λ a gone. elim (ℕ_discrete h.at a) [
      | yes p ↦ rw (eq→== h.at a p) refl
      | no p ↦ rw (ne→==_false h.at a p) gone
    ];
  },
)
delete_level-Deleted nodes (suc wide) low h (d ∷ ds) (next_cell _ _ _ e k) (cell_and _ _ ne apart)
      (one_more _ _ _ _ _ up) short =
    let nodes₁ : ℕ → Option Node = without h.at nodes in
    let (r, e') = Linked-head nodes d ds k in
    let other : (c : Cell) (s : Option ℕ)
        → nodes c.at ≡ some (node_of c s)
        → h.key ≢ c.key
        → nodes₁ c.at ≡ nodes c.at =
      λ c s at differ.
        rw (ne→==_false h.at c.at (keys_apart nodes h c (some d.at) s e at differ)) refl in
    let k₁ : Linked nodes₁ d ds =
      Linked-frame nodes nodes₁ d ds k (other d r e' ne) (
        Each-both ds (λ c (s, at) differ. other c s at differ) (Linked-cells nodes d ds k) apart) in
    let (left, run, w) =
      delete_level-Deleted nodes₁ wide (suc d.key) d ds k₁
        (Each-map ds (λ c l q. absurd (omega (arith, l, q))) (Ascends-Each (suc d.key) ds up)) up
        (omega (arith, short)) in
    (
      left,
      rw (e, ◌>>=◌) run,
      record {
        others = λ a apart_h there.
            w.others a (Each-first {P = λ c. c.at ≢ a} d ds there)
              (Each-rest {P = λ c. c.at ≢ a} d ds there)
            ∙ rw (ne→==_false h.at a apart_h) refl;
        free = λ a gone. w.free a (elim (ℕ_discrete h.at a) [
          | yes p ↦ rw (eq→== h.at a p) refl
          | no p ↦ rw (ne→==_false h.at a p) gone
        ]);
      },
    )

module _ (nodes : ℕ → Option Node) (wide : ℕ) where
  -- A row of the heap when the rows above it are gone.
  delete_row :
      (left : ℕ → Option Node) (k : ℕ) (h : Cell) (cs : List Cell)
      → IsRow nodes k h cs
      → Ascends 0 (pairs_of cs)
      → Each (λ c. c.key < head_key) cs
      → length cs < wide
      → Same nodes left (λ j. j ≤ k)
      → ((a : ℕ) → nodes a ≡ none → left a ≡ none)
      → (left' : ℕ → Option Node) × (delete_level wide left h.at ≡ some left')
        × Same nodes left' (λ j. j < k)
        × ((a : ℕ) → nodes a ≡ none → left' a ≡ none)
  delete_row left k h cs w up low short same free =
      let linked : Linked left h cs =
        Linked-frame nodes left h cs w.linked (same h.at k w.deep (omega arith))
          (Each-map cs (λ c d. same c.at k d (omega arith)) w.all_deep) in
      let (left', run, d) =
        delete_level-Deleted left wide 0 h cs linked
          (Each-map cs (λ c l q. absurd (omega (arith, l, q, w.head))) low) up short in
      let apart : (a j b : ℕ) → Depth nodes a j → j < k → Depth nodes b k → b ≢ a =
        λ a j b deep less deep' q. absurd (
          omega
            (arith, less, Depth-unique nodes a j k deep (subst (λ x. Depth nodes x k) q deep'))) in
      (
        left',
        run,
        (λ a j deep less.
            d.others a (apart a j h.at deep less w.deep)
              (Each-map cs (λ c deep'. apart a j c.at deep less deep') w.all_deep)
            ∙ same a j deep (omega (arith, less))),
        (λ a gone. d.free a (free a gone)),
      )

  -- From the top row down to a row.
  delete_levels-Upper :
      (fuel k : ℕ) (l : Cell) (ls : List Cell) (rows : List Row) (t : Cell) (ts : List Cell)
      → Upper nodes l ls rows t ts
      → IsRow nodes k l ls
      → Ascends 0 (pairs_of ls)
      → Each (λ c. c.key < head_key) ls
      → length ls < wide
      → (left : ℕ → Option Node) × (delete_levels (length rows + fuel) wide nodes t.at
          ≡ delete_levels fuel wide left l.at)
        × Same nodes left (λ j. j ≤ k)
        × ((a : ℕ) → nodes a ≡ none → left a ≡ none)
  unfolding delete_levels
  delete_levels-Upper fuel k l ls [] _ _ (top_row _ _) w up low short = (
    nodes,
    ap (λ n. delete_levels n wide nodes l.at) (omega arith),
    (λ a j d less. refl),
    (λ a gone. gone),
  )
  delete_levels-Upper fuel k l ls ((h, cs) ∷ rows) t ts
        (upper_row _ _ _ _ _ _ _ linked head down above more) w up low short =
      let next : IsRow nodes (suc k) h cs =
        upper-IsRow nodes k l ls h cs w linked head down above in
      let up' : Ascends 0 (pairs_of cs) = Above-Ascends 0 cs ls above up in
      let low' : Each (λ c. c.key < head_key) cs = Above-Each (λ x. x < head_key) cs ls above low in
      let short' : length cs < wide = omega (arith, short, Above-length cs ls above) in
      let (left, run, same, free) =
        delete_levels-Upper (suc fuel) (suc k) h cs rows t ts more next up' low' short' in
      let (left', go, same', free') = delete_row left (suc k) h cs next up' low' short' same free in
      let (r, e) = Linked-head nodes h cs linked in
      let there : left h.at ≡ some (node_of h r) = same h.at (suc k) next.deep (omega arith) ∙ e in
      (
        left',
        ap (λ n. delete_levels n wide nodes t.at) (omega arith)
            ∙ run
            ∙ rw (there, ◌>>=◌) (rw (go, ◌>>=◌, down) refl),
        (λ a j d less. same' a j d (omega (arith, less))),
        free',
      )

-- A list in order is empty after `clear`, with fuel for its levels and its pairs; its time stamp stays.
pub skip_clear-IsTowers :
    (fuel wide level : ℕ) (s : SkipList) (pairs : Pairs)
    → IsTowers s level pairs
    → length pairs < wide
    → level ≤ fuel
    → (s' : SkipList) × (skip_clear fuel wide s ≡ some s')
      × IsTowers s' 0 []
      × (s'.time_stamp ≡ s.time_stamp)
unfolding skip_clear delete_levels
skip_clear-IsTowers fuel wide level s pairs w short enough =
    by_rows s.head w.rows w.towers refl w.counted w.same
  where
    length-pairs_of : (ds : List Cell) → length (pairs_of ds) ≡ length ds
    length-pairs_of [] = refl
    length-pairs_of (d ∷ ds) = ap suc (length-pairs_of ds)

    by_rows :
        (head : Option ℕ) (rows : List Row)
        → Towers s.nodes head rows
        → s.head ≡ head
        → length rows ≡ level
        → lowest_pairs rows ≡ pairs
        → (s' : SkipList) × (skip_clear fuel wide s ≡ some s')
          × IsTowers s' 0 []
          × (s'.time_stamp ≡ s.time_stamp)
    by_rows _ _ no_row at counted same =
        (s, rw at refl, subst₂ (IsTowers s) (sym counted) (sym same) w, refl)
    by_rows _ _ (some_rows h cs rows t ts linked head down downs low upper) at counted same =
        let row : IsRow s.nodes 0 h cs = lowest-IsRow s.nodes h cs linked head down downs in
        let up : Ascends 0 (pairs_of cs) = subst (Ascends 0) (sym same) w.ascends in
        let size : length cs ≡ length pairs = sym (length-pairs_of cs) ∙ ap length same in
        let short' : length cs < wide = omega (arith, short, size) in
        let g : ℕ = fuel - (length rows + 1) in
        let (left, run, stays, free) =
          delete_levels-Upper s.nodes wide (suc g) 0 h cs rows t ts upper row up low short' in
        let (left', go, stays', free') =
          delete_row s.nodes wide left 0 h cs row up low short' stays free in
        let (r, e) = Linked-head s.nodes h cs linked in
        let there : left h.at ≡ some (node_of h r) = stays h.at 0 row.deep (omega arith) ∙ e in
        let all : delete_levels fuel wide s.nodes t.at ≡ some left' =
          ap (λ n. delete_levels n wide s.nodes t.at) (omega (arith, counted, enough))
          ∙ run
          ∙ rw (there, ◌>>=◌) (rw (go, ◌>>=◌, down) refl) in
        (
          record s {
            nodes = left';
            head = none;
            size = 0;
            memory = 10_272;
            min_key = int64_max;
            max_key = int64_min;
          },
          rw (at, all) refl,
          record {
            rows = [];
            towers = no_row;
            counted = refl;
            same = refl;
            ascends = no_pair 0;
            free = λ a l. free' a (w.free a l);
            sized = refl;
          },
          refl,
        )
