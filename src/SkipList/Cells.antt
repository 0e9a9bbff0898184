-- ===== src/SkipList/Cells.antt =====
-- The rows of a `SkipList` (src/LSM-Tree/SkipList.cpp): a head and the cells that its list links, each with its
-- address in the heap.

use lsm_based_on_zns_ssd.Base.{
  ℕ, ◌≡◌, ◌∙◌, if◌then◌else◌, leb, ◌==◌, List, [], ◌∷◌, Option, none, some, Bool-cases, inl, inr,
}
use lsm_based_on_zns_ssd.SkipList.Memory.{Node, head_key}
use lsm_based_on_zns_ssd.SkipList.Columns.{Pairs}

pub record Cell : Type 0 where
  pub at : ℕ
  pub key : ℕ
  pub val : List ℕ
  pub down : Option ℕ

abbrev pub node_of : Cell → Option ℕ → Node
node_of c right = record { right = right; down = c.down; key = c.key; val = c.val }

abbrev pub Row : Type 0
Row = Cell × List Cell

pub data Each {ℓ} (P : Cell → Type ℓ) : List Cell → Type ℓ where
  no_cell : Each P []
  cell_and : (c : Cell) (cs : List Cell) → P c → Each P cs → Each P (c ∷ cs)

pub Each-map {ℓ ℓ'} :
    {P : Cell → Type ℓ} {Q : Cell → Type ℓ'} (cs : List Cell)
    → ((c : Cell) → P c → Q c)
    → Each P cs
    → Each Q cs
Each-map _ f no_cell = no_cell
Each-map _ f (cell_and c cs p more) = cell_and c cs (f c p) (Each-map cs f more)

pub Each-both {ℓ ℓ' ℓ''} :
    {P : Cell → Type ℓ} {Q : Cell → Type ℓ'} {R : Cell → Type ℓ''} (cs : List Cell)
    → ((c : Cell) → P c → Q c → R c)
    → Each P cs
    → Each Q cs
    → Each R cs
Each-both _ f no_cell _ = no_cell
Each-both _ f (cell_and c cs p more) (cell_and _ _ q more') =
    cell_and c cs (f c p q) (Each-both cs f more more')

pub Each-first {ℓ} : {P : Cell → Type ℓ} (c : Cell) (cs : List Cell) → Each P (c ∷ cs) → P c
Each-first c cs (cell_and _ _ p more) = p

pub Each-rest {ℓ} : {P : Cell → Type ℓ} (c : Cell) (cs : List Cell) → Each P (c ∷ cs) → Each P cs
Each-rest c cs (cell_and _ _ p more) = more

-- The head and the cells after it, as the heap links them.
pub data Linked (nodes : ℕ → Option Node) : Cell → List Cell → Type 0 where
  last_cell : (c : Cell) → nodes c.at ≡ some (node_of c none) → Linked nodes c []
  next_cell :
      (c d : Cell) (ds : List Cell)
      → nodes c.at ≡ some (node_of c (some d.at))
      → Linked nodes d ds
      → Linked nodes c (d ∷ ds)

abbrev pub pairs_of : List Cell → Pairs
pairs_of [] = []
pairs_of (c ∷ cs) = (c.key, c.val) ∷ pairs_of cs

-- The last cell whose key is not above `key`, from the head on.
abbrev pub last_before : ℕ → Cell → List Cell → Cell
last_before key h [] = h
last_before key h (c ∷ cs) = if leb c.key key then last_before key c cs else h

-- A new cell where it belongs.
abbrev pub insert_cell : Cell → List Cell → List Cell
insert_cell new [] = new ∷ []
insert_cell new (c ∷ cs) = if leb c.key new.key then c ∷ insert_cell new cs else new ∷ (c ∷ cs)

-- The cells with a key get a value.
abbrev pub replace_cells : ℕ → List ℕ → List Cell → List Cell
replace_cells key value [] = []
replace_cells key value (c ∷ cs) =
    (if c.key == key then record c { val = value } else c) ∷ replace_cells key value cs

-- The upper row stands on some cells of the lower one.
pub data Above : List Cell → List Cell → Type 0 where
  above_end : (ls : List Cell) → Above [] ls
  above_skip : (us : List Cell) (l : Cell) (ls : List Cell) → Above us ls → Above us (l ∷ ls)
  above_take :
      (a : ℕ) (us : List Cell) (l : Cell) (ls : List Cell)
      → Above us ls
      → Above (record { at = a; key = l.key; val = l.val; down = some l.at } ∷ us) (l ∷ ls)

-- The rows above a row, from the lowest to the one of the head `t` and the cells `ts`.
pub data Upper (nodes : ℕ → Option Node)
    : Cell → List Cell → List Row → Cell → List Cell → Type 0 where
  top_row : (l : Cell) (ls : List Cell) → Upper nodes l ls [] l ls
  upper_row :
      (l : Cell) (ls : List Cell) (h : Cell) (cs : List Cell) (rows : List Row) (t : Cell)
      (ts : List Cell)
      → Linked nodes h cs
      → h.key ≡ head_key
      → h.down ≡ some l.at
      → Above cs ls
      → Upper nodes h cs rows t ts
      → Upper nodes l ls ((h, cs) ∷ rows) t ts

module _ (nodes nodes' : ℕ → Option Node) where
  pub Linked-frame :
      (h : Cell) (cs : List Cell)
      → Linked nodes h cs
      → nodes' h.at ≡ nodes h.at
      → Each (λ c. nodes' c.at ≡ nodes c.at) cs
      → Linked nodes' h cs
  Linked-frame _ _ (last_cell c e) same _ = last_cell c (same ∙ e)
  Linked-frame _ _ (next_cell c d ds e more) same (cell_and _ _ here rest) =
      next_cell c d ds (same ∙ e) (Linked-frame d ds more here rest)

-- The heap at the cells of a row.
module _ (nodes : ℕ → Option Node) where
  pub Linked-head :
      (h : Cell) (cs : List Cell)
      → Linked nodes h cs
      → (r : Option ℕ) × (nodes h.at ≡ some (node_of h r))
  Linked-head _ _ (last_cell c e) = (none, e)
  Linked-head _ _ (next_cell c d ds e more) = (some d.at, e)

  pub Linked-cells :
      (h : Cell) (cs : List Cell)
      → Linked nodes h cs
      → Each (λ c. (r : Option ℕ) × (nodes c.at ≡ some (node_of c r))) cs
  Linked-cells _ _ (last_cell c e) = no_cell
  Linked-cells _ _ (next_cell c d ds e more) =
      cell_and d ds (Linked-head d ds more) (Linked-cells d ds more)

  pub Linked-last_before :
      (key : ℕ) (h : Cell) (cs : List Cell)
      → Linked nodes h cs
      → (r : Option ℕ) × (nodes (last_before key h cs).at ≡ some (node_of (last_before key h cs) r))
  Linked-last_before key _ _ (last_cell c e) = (none, e)
  Linked-last_before key _ _ (next_cell c d ds e more) = elim (Bool-cases (leb d.key key)) [
    | inl go ↦ rw go (Linked-last_before key d ds more)
    | inr stop ↦ rw stop (some d.at, e)
  ]

pub Each-last_before {ℓ} :
    {P : Cell → Type ℓ} (key : ℕ) (h : Cell) (cs : List Cell)
    → P h
    → Each P cs
    → P (last_before key h cs)
Each-last_before key h _ p no_cell = p
Each-last_before key h _ p (cell_and c cs q more) = elim (Bool-cases (leb c.key key)) [
  | inl go ↦ rw go (Each-last_before key c cs q more)
  | inr stop ↦ rw stop p
]

pub Each-insert_cell {ℓ} :
    {P : Cell → Type ℓ} (new : Cell) (cs : List Cell)
    → P new
    → Each P cs
    → Each P (insert_cell new cs)
Each-insert_cell new _ p no_cell = cell_and new [] p no_cell
Each-insert_cell new _ p (cell_and c cs q more) = elim (Bool-cases (leb c.key new.key)) [
  | inl go ↦ rw go (cell_and c (insert_cell new cs) q (Each-insert_cell new cs p more))
  | inr stop ↦ rw stop (cell_and new (c ∷ cs) p (cell_and c cs q more))
]

-- The addresses that `put` records in its path, from the lowest level on.
abbrev pub path_of : ℕ → List Row → List ℕ
path_of key [] = []
path_of key (row ∷ rows) = (last_before key (row.0) (row.1)).at ∷ path_of key rows
