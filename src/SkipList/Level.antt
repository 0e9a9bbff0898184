-- ===== src/SkipList/Level.antt =====
-- `SkipList::put` (src/LSM-Tree/SkipList.cpp) where it adds a level.
use lsm_based_on_zns_ssd.Base.{
  ℕ, ◌+◌, ◌≡◌, refl, ◌∙◌, arith, List, [], ◌∷◌, ◌++◌, Option, none, some,
}
use lsm_based_on_zns_ssd.SkipList.Memory.{Node, SkipList, store, head_key, add_level}
use lsm_based_on_zns_ssd.SkipList.Cells.{
  Cell, node_of, Row, Linked, last_cell, next_cell, Above, Upper, top_row, upper_row,
}
use lsm_based_on_zns_ssd.SkipList.Insert.{store_same, store_other, free_apart}
use lsm_based_on_zns_ssd.SkipList.Depth.{Keeps, Depth-there}
use lsm_based_on_zns_ssd.SkipList.Upward.{Free, Same}
use lsm_based_on_zns_ssd.SkipList.Lift.{new_cell}

pub Upper-append :
    (nodes : ℕ → Option Node) (l : Cell) (ls : List Cell) (rows : List Row) (t : Cell)
    (ts : List Cell) (h : Cell) (cs : List Cell)
    → Upper nodes l ls rows t ts
    → Linked nodes h cs
    → h.key ≡ head_key
    → h.down ≡ some t.at
    → Above cs ts
    → Upper nodes l ls (rows ++ ((h, cs) ∷ [])) h cs
Upper-append nodes _ _ _ _ _ h cs (top_row l ls) k head down above =
    upper_row l ls h cs [] h cs k head down above (top_row h cs)
Upper-append nodes _ _ _ _ _ h cs (upper_row l ls h' cs' rows t ts k' head' down' above' more) k
      head down above =
    upper_row l ls h' cs' (rows ++ ((h, cs) ∷ [])) h cs k' head' down' above'
      (Upper-append nodes h' cs' rows t ts h cs more k head down above)

module _ (key : ℕ) (value : List ℕ) (down : Option ℕ) (s : SkipList)
    (free : Free s.nodes s.fresh) where
  abbrev s' : SkipList
  s' = add_level key value down s

  abbrev pub top_cell : Cell
  top_cell = record { at = s.fresh; key = head_key; val = []; down = s.head }

  abbrev pub tower_cell : Cell
  tower_cell = new_cell key value (s.fresh + 1) down

  add_level-other : (a : ℕ) (n : Node) → s.nodes a ≡ some n → s'.nodes a ≡ s.nodes a
  unfolding add_level
  add_level-other a n e =
      store_other (s.fresh + 1) (node_of tower_cell none)
        (store s.fresh (node_of top_cell (some (s.fresh + 1))) s.nodes) a
        (free_apart s.nodes (s.fresh + 1) a n (free (s.fresh + 1) (omega arith)) e)
      ∙ store_other s.fresh (node_of top_cell (some (s.fresh + 1))) s.nodes a
          (free_apart s.nodes s.fresh a n (free s.fresh (omega arith)) e)

  pub add_level-Keeps : Keeps s.nodes s'.nodes
  add_level-Keeps a n e = (n, add_level-other a n e ∙ e, refl)

  pub add_level-Same : (P : ℕ → Type 0) → Same s.nodes s'.nodes P
  add_level-Same P a k d p = let (n, e) = Depth-there s.nodes a k d in add_level-other a n e

  pub add_level-Free : Free s'.nodes s'.fresh
  unfolding add_level
  add_level-Free a h =
      store_other (s.fresh + 1) (node_of tower_cell none)
        (store s.fresh (node_of top_cell (some (s.fresh + 1))) s.nodes) a
        (λ q. absurd (omega (arith, h, q)))
      ∙ store_other s.fresh (node_of top_cell (some (s.fresh + 1))) s.nodes a
          (λ q. absurd (omega (arith, h, q)))
      ∙ free a (omega (arith, h))

  -- The new row.
  pub add_level-Linked : Linked s'.nodes top_cell (tower_cell ∷ [])
  unfolding add_level
  add_level-Linked =
      next_cell top_cell tower_cell []
        (store_other (s.fresh + 1) (node_of tower_cell none)
            (store s.fresh (node_of top_cell (some (s.fresh + 1))) s.nodes) s.fresh
            (λ q. absurd (omega (arith, q)))
          ∙ store_same s.fresh (node_of top_cell (some (s.fresh + 1))) s.nodes)
        (last_cell tower_cell (
          store_same (s.fresh + 1) (node_of tower_cell none)
            (store s.fresh (node_of top_cell (some (s.fresh + 1))) s.nodes)))
