-- ===== src/SkipList/Standing.antt =====
-- A new cell in two rows of which the upper stands on the lower (src/LSM-Tree/SkipList.cpp, `put`).
use lsm_based_on_zns_ssd.Base.{
  ℕ, suc, ◌<◌, ◌≡◌, refl, arith, false, leb, List, [], ◌∷◌, some, Bool-cases, inl, inr,
}
use lsm_based_on_zns_ssd.SkipList.Columns.{Ascends, no_pair, one_more, Ascends-weaken}
use lsm_based_on_zns_ssd.SkipList.Cells.{
  Cell, Each, no_cell, cell_and, Each-map, pairs_of, insert_cell, Above, above_end, above_skip,
  above_take,
}
use lsm_based_on_zns_ssd.SkipList.Insert.{Ascends-Each}

-- What all keys of the lower row are, those of the upper are.
pub Above-Each :
    (P : ℕ → Type 0) (us ls : List Cell)
    → Above us ls
    → Each (λ c. P c.key) ls
    → Each (λ c. P c.key) us
Above-Each P _ _ (above_end ls) e = no_cell
Above-Each P _ _ (above_skip us l ls w) (cell_and _ _ p e) = Above-Each P us ls w e
Above-Each P _ _ (above_take a us l ls w) (cell_and _ _ p e) =
    cell_and (record { at = a; key = l.key; val = l.val; down = some l.at }) us p
      (Above-Each P us ls w e)

pub Above-Ascends :
    (low : ℕ) (us ls : List Cell)
    → Above us ls
    → Ascends low (pairs_of ls)
    → Ascends low (pairs_of us)
Above-Ascends low _ _ (above_end ls) e = no_pair low
Above-Ascends low _ _ (above_skip us l ls w) (one_more _ _ _ _ up more) =
    Above-Ascends low us ls w
      (Ascends-weaken (suc l.key) low (pairs_of ls) (omega (arith, up)) more)
Above-Ascends low _ _ (above_take a us l ls w) (one_more _ _ _ _ up more) =
    one_more low l.key l.val (pairs_of us) up (Above-Ascends (suc l.key) us ls w more)

-- The lower row gets a cell.
pub Above-insert_lower :
    (new : Cell) (us ls : List Cell) → Above us ls → Above us (insert_cell new ls)
Above-insert_lower new _ _ (above_end ls) = above_end (insert_cell new ls)
Above-insert_lower new _ _ (above_skip us l ls w) = elim (Bool-cases (leb l.key new.key)) [
  | inl go ↦ rw go (above_skip us l (insert_cell new ls) (Above-insert_lower new us ls w))
  | inr stop ↦ rw stop (above_skip us new (l ∷ ls) (above_skip us l ls w))
]
Above-insert_lower new _ _ (above_take a us l ls w) = elim (Bool-cases (leb l.key new.key)) [
  | inl go ↦ rw go (above_take a us l (insert_cell new ls) (Above-insert_lower new us ls w))
  | inr stop ↦ rw stop (
      above_skip (record { at = a; key = l.key; val = l.val; down = some l.at } ∷ us) new (l ∷ ls)
        (above_take a us l ls w))
]

-- A cell below all others goes to the front.
insert_front :
    (new : Cell) (cs : List Cell) → Each (λ c. new.key < c.key) cs → insert_cell new cs ≡ new ∷ cs
insert_front new _ no_cell = refl
insert_front new _ (cell_and c cs p more) =
    let stop : leb c.key new.key ≡ false = ground arith in rw stop refl

module _ (f : ℕ) (low_cell : Cell) where
  abbrev up_cell : Cell
  up_cell = record { at = f; key = low_cell.key; val = low_cell.val; down = some low_cell.at }

  pub Above-new : (ls : List Cell) → Above (up_cell ∷ []) (insert_cell low_cell ls)
  Above-new [] = above_take f [] low_cell [] (above_end [])
  Above-new (l ∷ ls) = elim (Bool-cases (leb l.key low_cell.key)) [
    | inl go ↦ rw go (above_skip (up_cell ∷ []) l (insert_cell low_cell ls) (Above-new ls))
    | inr stop ↦ rw stop (above_take f [] low_cell (l ∷ ls) (above_end (l ∷ ls)))
  ]

  -- Both rows get the cell.
  pub Above-insert_cell :
      (low : ℕ) (us ls : List Cell)
      → Above us ls
      → Ascends low (pairs_of ls)
      → Above (insert_cell up_cell us) (insert_cell low_cell ls)
  Above-insert_cell low _ _ (above_end ls) up = Above-new ls
  Above-insert_cell low _ _ (above_skip us l ls w) (one_more _ _ _ _ up more) =
      elim (Bool-cases (leb l.key low_cell.key)) [
        | inl go ↦ rw go (
            above_skip (insert_cell up_cell us) l (insert_cell low_cell ls)
              (Above-insert_cell (suc l.key) us ls w more))
        | inr stop ↦
            let greater : Each (λ c. low_cell.key < c.key) us =
              Above-Each (λ k. low_cell.key < k) us ls w
                (Each-map ls (λ c h. ground arith) (Ascends-Each (suc l.key) ls more)) in
            rw (stop, insert_front up_cell us greater)
              (above_take f us low_cell (l ∷ ls) (above_skip us l ls w))
      ]
  Above-insert_cell low _ _ (above_take a us l ls w) (one_more _ _ _ _ up more) =
      elim (Bool-cases (leb l.key low_cell.key)) [
        | inl go ↦ rw go (
            above_take a (insert_cell up_cell us) l (insert_cell low_cell ls)
              (Above-insert_cell (suc l.key) us ls w more))
        | inr stop ↦ rw stop (
            above_take f (record { at = a; key = l.key; val = l.val; down = some l.at } ∷ us)
              low_cell (l ∷ ls) (above_take a us l ls w))
      ]
