-- ===== src/SkipList/Rooted.antt =====
-- The rows of a `SkipList` (src/LSM-Tree/SkipList.cpp) as the columns that `get` goes down.
use lsm_based_on_zns_ssd.Base.{
  ℕ, suc, ◌+◌, ◌≤◌, ◌≡◌, refl, sym, ap, ◌∙◌, subst, arith, List, [], ◌∷◌, ◌++◌, Option, none, some,
  length,
}
use mathlib.Core.List.{append_assoc}
use lsm_based_on_zns_ssd.SkipList.Memory.{Node, SkipList}
use lsm_based_on_zns_ssd.SkipList.Columns.{
  Pairs, Column, bottom_end, bottom_next, upper_end, upper_next,
}
use lsm_based_on_zns_ssd.SkipList.Cells.{
  Cell, node_of, Row, Each, cell_and, Linked, last_cell, next_cell, Linked-head, pairs_of, Above,
  above_end, above_skip, above_take, Upper, top_row, upper_row,
}
use lsm_based_on_zns_ssd.SkipList.Lookup.{Rooted, no_level, top_level, IsSkipList}
use lsm_based_on_zns_ssd.SkipList.Towers.{Towers, no_row, some_rows, IsTowers, lowest_pairs}

module _ (nodes : ℕ → Option Node) where
  -- The columns of the cells of a row, each with the pairs behind it.
  data Covers (level : ℕ) : Cell → List Cell → Pairs → Type 0 where
    covers_end :
        (c : Cell) (pairs : Pairs) → Column nodes level c.at pairs → Covers level c [] pairs
    covers_next :
        (c d : Cell) (ds : List Cell) (skipped rest : Pairs)
        → Column nodes level c.at (skipped ++ ((d.key, d.val) ∷ rest))
        → Covers level d ds rest
        → Covers level c (d ∷ ds) (skipped ++ ((d.key, d.val) ∷ rest))

  Covers-Column :
      (level : ℕ) (c : Cell) (cs : List Cell) (ps : Pairs)
      → Covers level c cs ps
      → Column nodes level c.at ps
  Covers-Column level _ _ _ (covers_end c ps w) = w
  Covers-Column level _ _ _ (covers_next c d ds skipped rest w more) = w

  lowest-Covers :
      (h : Cell) (cs : List Cell)
      → Linked nodes h cs
      → h.down ≡ none
      → Each (λ c. c.down ≡ none) cs
      → Covers 0 h cs (pairs_of cs)
  lowest-Covers _ _ (last_cell h e) down _ =
      covers_end h [] (bottom_end h.at (node_of h none) e down refl)
  lowest-Covers _ _ (next_cell h d ds e more) down (cell_and _ _ down' downs) =
      let (r, e') = Linked-head nodes d ds more in
      let w : Covers 0 d ds (pairs_of ds) = lowest-Covers d ds more down' downs in
      covers_next h d ds [] (pairs_of ds)
        (bottom_next h.at d.at (node_of h (some d.at)) (node_of d r) (pairs_of ds) e down refl e'
          (Covers-Column 0 d ds (pairs_of ds) w))
        w

  -- A row on a row: `acc` are the pairs between the place below `h` and the cell `l`.
  upper-Covers :
      (level : ℕ) (h : Cell) (us : List Cell) (l : Cell) (ls : List Cell) (d : ℕ) (acc rest : Pairs)
      → Above us ls
      → Linked nodes h us
      → h.down ≡ some d
      → Column nodes level d (acc ++ rest)
      → Covers level l ls rest
      → Covers (suc level) h us (acc ++ rest)
  upper-Covers level h _ l ls d acc rest (above_end _) (last_cell _ e) down below w =
      covers_end h (acc ++ rest)
        (upper_end level h.at d (node_of h none) (acc ++ rest) e down refl below)
  upper-Covers level h us l _ d acc _ (above_skip _ _ _ a) k down below
        (covers_next _ l' ls skipped rest c w) =
      let same : (acc ++ (skipped ++ ((l'.key, l'.val) ∷ []))) ++ rest
          ≡ acc ++ (skipped ++ ((l'.key, l'.val) ∷ rest)) =
        append_assoc acc (skipped ++ ((l'.key, l'.val) ∷ [])) rest
        ∙ ap (λ x. acc ++ x) (append_assoc skipped ((l'.key, l'.val) ∷ []) rest) in
      subst (Covers (suc level) h us) same (
        upper-Covers level h us l' ls d (acc ++ (skipped ++ ((l'.key, l'.val) ∷ []))) rest a k down
          (subst (Column nodes level d) (sym same) below) w)
  upper-Covers level h _ l _ d acc _ (above_take a us _ _ above) (next_cell _ _ _ e k) down below
        (covers_next _ l' ls skipped rest c w) =
      let u : Cell = record { at = a; key = l'.key; val = l'.val; down = some l'.at } in
      let (r, e') = Linked-head nodes u us k in
      let more : Covers (suc level) u us rest =
        upper-Covers level u us l' ls l'.at [] rest above k refl (Covers-Column level l' ls rest w)
          w in
      let same : (acc ++ skipped) ++ ((l'.key, l'.val) ∷ rest)
          ≡ acc ++ (skipped ++ ((l'.key, l'.val) ∷ rest)) =
        append_assoc acc skipped ((l'.key, l'.val) ∷ rest) in
      subst (Covers (suc level) h (u ∷ us)) same (
        covers_next h u us (acc ++ skipped) rest
          (upper_next level h.at a d (node_of h (some a)) (node_of u r) (acc ++ skipped) rest e down
            refl e' (subst (Column nodes level d) (sym same) below)
            (Covers-Column (suc level) u us rest more))
          more)

  rows-Column :
      (level : ℕ) (l : Cell) (ls : List Cell) (rows : List Row) (t : Cell) (ts : List Cell)
      (ps : Pairs)
      → Covers level l ls ps
      → Upper nodes l ls rows t ts
      → Column nodes (level + length rows) t.at ps
  rows-Column level l ls [] _ _ ps w (top_row _ _) =
      subst (λ n. Column nodes n l.at ps) (omega arith) (Covers-Column level l ls ps w)
  rows-Column level l ls ((h, cs) ∷ rows) t ts ps w
        (upper_row _ _ _ _ _ _ _ linked head down above more) =
      subst (λ n. Column nodes n t.at ps) (omega arith)
        (rows-Column (suc level) h cs rows t ts ps
          (upper-Covers level h cs l ls l.at [] ps above linked down (Covers-Column level l ls ps w)
            w)
          more)

pub towers-IsSkipList :
    (s : SkipList) (level : ℕ) (pairs : Pairs)
    → IsTowers s level pairs
    → (top : ℕ) × (top ≤ level) × IsSkipList s top pairs
towers-IsSkipList s level pairs w = by_rows s.head w.rows w.towers refl w.counted w.same
  where
    by_rows :
        (head : Option ℕ) (rows : List Row)
        → Towers s.nodes head rows
        → s.head ≡ head
        → length rows ≡ level
        → lowest_pairs rows ≡ pairs
        → (top : ℕ) × (top ≤ level) × IsSkipList s top pairs
    by_rows _ _ no_row at counted same = (
      0,
      omega arith,
      record {
        sized = w.sized;
        rooted =
            subst (Rooted s.nodes (s.head) 0) same
              (subst (λ x. Rooted s.nodes x 0 []) (sym at) no_level);
        ascends = w.ascends;
      },
    )
    by_rows _ _ (some_rows h cs rows t ts linked key down downs low upper) at counted same = (
      0 + length rows,
      omega (arith, counted),
      record {
        sized = w.sized;
        rooted =
            subst (λ x. Rooted s.nodes x (0 + length rows) pairs) (sym at)
              (top_level t.at (0 + length rows) pairs (
                subst (Column s.nodes (0 + length rows) t.at) same (
                  rows-Column s.nodes 0 h cs rows t ts (pairs_of cs)
                    (lowest-Covers s.nodes h cs linked down downs) upper)));
        ascends = w.ascends;
      },
    )
