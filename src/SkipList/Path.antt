-- ===== src/SkipList/Path.antt =====
-- `pathList` of `SkipList::put` (src/LSM-Tree/SkipList.cpp): in each level the last node whose key is not above the
-- new one.
use mathlib.Core.List.{append-nil}
use lsm_based_on_zns_ssd.Base.{
  ℕ, zero, suc, ◌+◌, ◌-◌, ◌≤◌, ◌<◌, ◌≡◌, refl, sym, ap, ◌∙◌, arith, false, leb, List, [], ◌∷◌, ◌++◌,
  Option, none, some, ◌>>=◌, Bool-cases, inl, inr, length,
}
use lsm_based_on_zns_ssd.SkipList.Memory.{Node, go_right, path_list}
use lsm_based_on_zns_ssd.SkipList.Columns.{Ascends, one_more, Ascends-weaken}
use lsm_based_on_zns_ssd.SkipList.Cells.{
  Cell, node_of, Row, Each, no_cell, cell_and, Each-map, Linked, last_cell, next_cell, Linked-head,
  Linked-last_before, Each-last_before, pairs_of, last_before, Above, above_end, above_skip,
  above_take, Upper, top_row, upper_row, path_of,
}
use lsm_based_on_zns_ssd.SkipList.Insert.{Ascends-Each}
use lsm_based_on_zns_ssd.SkipList.Standing.{Above-Each, Above-Ascends}

pub Above-length : (us ls : List Cell) → Above us ls → length us ≤ length ls
Above-length _ _ (above_end ls) = omega arith
Above-length _ _ (above_skip us l ls w) = omega (arith, Above-length us ls w)
Above-length _ _ (above_take a us l ls w) = omega (arith, Above-length us ls w)

-- No cell of the row is passed.
pub last_before_front :
    (key : ℕ) (h : Cell) (cs : List Cell) → Each (λ c. key < c.key) cs → last_before key h cs ≡ h
last_before_front key h _ no_cell = refl
last_before_front key h _ (cell_and c cs p more) =
    let stop : leb c.key key ≡ false = ground arith in rw stop refl

module _ (nodes : ℕ → Option Node) (key wide : ℕ) where
  -- The loop to the right.
  go_right-last_before :
      (w : ℕ) (h : Cell) (cs : List Cell)
      → Linked nodes h cs
      → length cs < w
      → go_right w (λ k. leb k key) nodes h.at ≡ some (last_before key h cs).at
  unfolding go_right
  go_right-last_before zero h cs l less = absurd (omega (arith, less))
  go_right-last_before (suc w) _ _ (last_cell h e) less = rw (e, ◌>>=◌) refl
  go_right-last_before (suc w) _ _ (next_cell h d ds e more) less =
      let (r, e') = Linked-head nodes d ds more in
      elim (Bool-cases (leb d.key key)) [
        | inl go ↦
            rw (e, ◌>>=◌)
              (rw (e', ◌>>=◌, go) (go_right-last_before w d ds more (omega (arith, less))))
        | inr stop ↦ rw (e, ◌>>=◌) (rw (e', ◌>>=◌, stop) refl)
      ]

  -- A place in a row from which the loop to the right ends at the cell `p`.
  pub record Reaches (p : Cell) (start : Option ℕ) : Type 0 where
    pub cell : Cell
    pub rest : List Cell
    pub at : start ≡ some cell.at
    pub linked : Linked nodes cell rest
    pub same : last_before key cell rest ≡ p
    pub short : length rest < wide

  -- Below the last cell of a row the next row starts before its own last cell.
  below-Reaches :
      (p h : Cell) (us : List Cell) (l : Cell) (ls : List Cell)
      → Above us ls
      → Linked nodes l ls
      → Ascends 0 (pairs_of ls)
      → length ls < wide
      → last_before key l ls ≡ p
      → Reaches p h.down
      → Reaches p (last_before key h us).down
  below-Reaches p h _ l _ (above_end ls) k up short same w = w
  below-Reaches p h _ l _ (above_skip us l' ls a) (next_cell _ _ _ e k) (one_more _ _ _ _ _ up)
        short same w =
      elim (Bool-cases (leb l'.key key)) [
        | inl go ↦
            below-Reaches p h us l' ls a k
              (Ascends-weaken (suc l'.key) 0 (pairs_of ls) (omega arith) up) (omega (arith, short))
              (sym (rw go refl) ∙ same) w
        | inr stop ↦
            let greater : Each (λ c. key < c.key) us =
              Above-Each (λ x. key < x) us ls a
                (Each-map ls (λ c h. ground arith) (Ascends-Each (suc l'.key) ls up)) in
            rw (last_before_front key h us greater) w
      ]
  below-Reaches p h _ l _ (above_take a us l' ls above) (next_cell _ _ _ e k)
        (one_more _ _ _ _ _ up) short same w =
      elim (Bool-cases (leb l'.key key)) [
        | inl go ↦
            let same' : last_before key l' ls ≡ p = sym (rw go refl) ∙ same in
            rw go (
              below-Reaches p (record { at = a; key = l'.key; val = l'.val; down = some l'.at }) us
                l' ls above k (Ascends-weaken (suc l'.key) 0 (pairs_of ls) (omega arith) up)
                (omega (arith, short)) same'
                (record {
                  cell = l';
                  rest = ls;
                  at = refl;
                  linked = k;
                  same = same';
                  short = omega (arith, short);
                }))
        | inr stop ↦ rw stop w
      ]

  -- One round of the loop over the levels.
  path_list-step :
      (fuel : ℕ) (p : Cell) (r : Option ℕ) (start : Option ℕ) (path : List ℕ)
      → Reaches p start
      → nodes p.at ≡ some (node_of p r)
      → path_list (suc fuel) wide key nodes start path
        ≡ path_list fuel wide key nodes p.down (p.at ∷ path)
  unfolding path_list
  path_list-step fuel p r start path w there =
      let go : go_right wide (λ k. leb k key) nodes w.cell.at ≡ some p.at =
        go_right-last_before wide w.cell w.rest w.linked w.short
        ∙ ap (λ (c : Cell). some c.at) w.same in
      rw (w.at, go, there) refl

  -- From the top row down to a row.
  path_list-Upper :
      (fuel : ℕ) (l : Cell) (ls : List Cell) (rows : List Row) (t : Cell) (ts : List Cell)
      (acc : List ℕ)
      → Upper nodes l ls rows t ts
      → Linked nodes l ls
      → Ascends 0 (pairs_of ls)
      → length ls < wide
      → (start : Option ℕ) × (path_list (length rows + fuel) wide key nodes (some t.at) acc
          ≡ path_list fuel wide key nodes start (path_of key rows ++ acc))
        × Reaches (last_before key l ls) start
  path_list-Upper fuel l ls [] _ _ acc (top_row _ _) k up short = (
    some l.at,
    ap (λ n. path_list n wide key nodes (some l.at) acc) (omega arith),
    record { cell = l; rest = ls; at = refl; linked = k; same = refl; short = short },
  )
  path_list-Upper fuel l ls ((h, cs) ∷ rows) t ts acc
        (upper_row _ _ _ _ _ _ _ linked head down above more) k up short =
      let (start, run, w) =
        path_list-Upper (suc fuel) h cs rows t ts acc more linked (Above-Ascends 0 cs ls above up)
          (omega (arith, short, Above-length cs ls above)) in
      let (r, there) = Linked-last_before nodes key h cs linked in
      let p : Cell = last_before key h cs in
      (
        p.down,
        ap (λ n. path_list n wide key nodes (some t.at) acc) (omega arith)
            ∙ run
            ∙ path_list-step fuel p r start (path_of key rows ++ acc) w there,
        below-Reaches (last_before key l ls) h cs l ls above k up short refl
            (record { cell = l; rest = ls; at = down; linked = k; same = refl; short = short }),
      )

  -- The whole path.
  pub path_list-path_of :
      (fuel : ℕ) (h : Cell) (cs : List Cell) (rows : List Row) (t : Cell) (ts : List Cell)
      → Upper nodes h cs rows t ts
      → Linked nodes h cs
      → h.down ≡ none
      → Each (λ c. c.down ≡ none) cs
      → Ascends 0 (pairs_of cs)
      → length cs < wide
      → length rows + 2 ≤ fuel
      → path_list fuel wide key nodes (some t.at) [] ≡ some (path_of key ((h, cs) ∷ rows))
  unfolding path_list
  path_list-path_of fuel h cs rows t ts upper linked head downs up short enough =
      let g : ℕ = fuel - (length rows + 2) in
      let (start, run, w) = path_list-Upper (suc (suc g)) h cs rows t ts [] upper linked up short in
      let (r, there) = Linked-last_before nodes key h cs linked in
      let p : Cell = last_before key h cs in
      let bottom : p.down ≡ none = Each-last_before {P = λ c. c.down ≡ none} key h cs head downs in
      ap (λ n. path_list n wide key nodes (some t.at) []) (omega (arith, enough))
      ∙ run
      ∙ path_list-step (suc g) p r start (path_of key rows ++ []) w there
      ∙ rw bottom (ap (λ x. some (p.at ∷ x)) (append-nil (path_of key rows)))
