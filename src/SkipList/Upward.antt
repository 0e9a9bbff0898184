-- ===== src/SkipList/Upward.antt =====
-- The loop of `SkipList::put` (src/LSM-Tree/SkipList.cpp) that links a tower into the levels, from below.
use lsm_based_on_zns_ssd.Base.{
  ℕ, suc, ◌+◌, ◌≤◌, ◌<◌, ◌≡◌, ◌≢◌, refl, sym, ◌∙◌, subst, arith, List, Option, none, some,
}
use lsm_based_on_zns_ssd.SkipList.Memory.{Node, store, head_key}
use lsm_based_on_zns_ssd.SkipList.Columns.{Ascends}
use lsm_based_on_zns_ssd.SkipList.Cells.{
  Cell, node_of, Row, Each, Each-map, Linked, Linked-frame, Linked-head, Linked-cells,
  Each-last_before, Each-insert_cell, pairs_of, last_before, insert_cell, Above, Upper, top_row,
  upper_row,
}
use lsm_based_on_zns_ssd.SkipList.Insert.{
  linked_in, linked_in-new, Linked-insert_cell, free_apart, store_other,
}
use lsm_based_on_zns_ssd.SkipList.Depth.{
  Depth, higher, Keeps, Depth-unique, Depth-there, Depth-Keeps, Above-Depth, insert-Keeps,
}
use lsm_based_on_zns_ssd.SkipList.Standing.{Above-insert_lower}

abbrev pub Free : (ℕ → Option Node) → ℕ → Type 0
Free nodes fresh = (a : ℕ) → fresh ≤ a → nodes a ≡ none

abbrev pub Same : (ℕ → Option Node) → (ℕ → Option Node) → (ℕ → Type 0) → Type 0
Same nodes nodes' P = (a k : ℕ) → Depth nodes a k → P k → nodes' a ≡ nodes a

-- A row of the level `k`, with its head.
pub record IsRow (nodes : ℕ → Option Node) (k : ℕ) (h : Cell) (cs : List Cell) : Type 0 where
  pub linked : Linked nodes h cs
  pub head : h.key ≡ head_key
  pub deep : Depth nodes h.at k
  pub all_deep : Each (λ c. Depth nodes c.at k) cs

pub IsRow-Same :
    (nodes nodes' : ℕ → Option Node) (k : ℕ) (h : Cell) (cs : List Cell)
    → IsRow nodes k h cs
    → Keeps nodes nodes'
    → Same nodes nodes' (λ j. j ≡ k)
    → IsRow nodes' k h cs
IsRow-Same nodes nodes' k h cs w keeps same = record {
  linked =
      Linked-frame nodes nodes' h cs w.linked (same h.at k w.deep refl)
        (Each-map cs (λ c d. same c.at k d refl) w.all_deep);
  head = w.head;
  deep = Depth-Keeps nodes nodes' keeps h.at k w.deep;
  all_deep = Each-map cs (λ c d. Depth-Keeps nodes nodes' keeps c.at k d) w.all_deep;
}

-- The next row.
pub upper-IsRow :
    (nodes : ℕ → Option Node) (k : ℕ) (l : Cell) (ls : List Cell) (h : Cell) (cs : List Cell)
    → IsRow nodes k l ls
    → Linked nodes h cs
    → h.key ≡ head_key
    → h.down ≡ some l.at
    → Above cs ls
    → IsRow nodes (suc k) h cs
upper-IsRow nodes k l ls h cs w linked head down above = record {
  linked = linked;
  head = head;
  deep =
      let (r, e) = Linked-head nodes h cs linked in higher h.at l.at k (node_of h r) e down w.deep;
  all_deep = Above-Depth nodes k cs ls above (Linked-cells nodes h cs linked) w.all_deep;
}

pub Upper-Same :
    (nodes nodes' : ℕ → Option Node) (k : ℕ) (l : Cell) (ls : List Cell) (rows : List Row)
    (t : Cell) (ts : List Cell)
    → IsRow nodes k l ls
    → Same nodes nodes' (λ j. k < j)
    → Upper nodes l ls rows t ts
    → Upper nodes' l ls rows t ts
Upper-Same nodes nodes' k _ _ _ _ _ w same (top_row l ls) = top_row l ls
Upper-Same nodes nodes' k _ _ _ _ _ w same
      (upper_row l ls h cs rows t ts linked head down above more) =
    let next : IsRow nodes (suc k) h cs = upper-IsRow nodes k l ls h cs w linked head down above in
    upper_row l ls h cs rows t ts
      (Linked-frame nodes nodes' h cs linked (same h.at (suc k) next.deep (omega arith))
        (Each-map cs (λ c d. same c.at (suc k) d (omega arith)) next.all_deep))
      head down above
      (Upper-Same nodes nodes' (suc k) h cs rows t ts next
        (λ a j d less. same a j d (omega (arith, less))) more)

-- The rows above a row that gets a cell.
pub Upper-insert_cell :
    (nodes : ℕ → Option Node) (new : Cell) (l : Cell) (ls : List Cell) (rows : List Row) (t : Cell)
    (ts : List Cell)
    → Upper nodes l ls rows t ts
    → (ts' : List Cell) × Upper nodes l (insert_cell new ls) rows t ts'
Upper-insert_cell nodes new _ _ _ _ _ (top_row l ls) =
    (insert_cell new ls, top_row l (insert_cell new ls))
Upper-insert_cell nodes new _ _ _ _ _ (upper_row l ls h cs rows t ts linked head down above more) =
    (
      ts,
      upper_row l (insert_cell new ls) h cs rows t ts linked head down
          (Above-insert_lower new cs ls above) more,
    )

-- One store of a new node into a row.
module _ (nodes : ℕ → Option Node) (fresh k : ℕ) (h : Cell) (cs : List Cell) (new : Cell)
    (free : Free nodes fresh) (at : new.at ≡ fresh) (w : IsRow nodes k h cs)
    (up : Ascends 0 (pairs_of cs)) (low : Each (λ c. c.key < head_key) cs)
    (new_deep : (nodes' : ℕ → Option Node)
      → Keeps nodes nodes'
      → (n : Node) → nodes' new.at ≡ some n
      → n.down ≡ new.down
      → Depth nodes' new.at k) where
  abbrev p : Cell
  p = last_before new.key h cs

  no_new : nodes new.at ≡ none
  no_new = free new.at (omega (arith, at))

  module _ (r : Option ℕ) (there : nodes p.at ≡ some (node_of p r)) where
    abbrev nodes₁ : ℕ → Option Node
    nodes₁ = linked_in nodes new p r

    pub step-Keeps : Keeps nodes nodes₁
    step-Keeps =
        insert-Keeps nodes p.at new.at (node_of p r) (node_of p (some new.at)) (node_of new r) there
          refl no_new

    pub step-Same : Same nodes nodes₁ (λ j. j ≢ k)
    step-Same a j d ne =
        let (n, e) = Depth-there nodes a j d in
        let deep_p : Depth nodes p.at k =
          Each-last_before {P = λ c. Depth nodes c.at k} new.key h cs w.deep w.all_deep in
        store_other p.at (node_of p (some new.at)) (store new.at (node_of new r) nodes) a
          (λ q. ne (Depth-unique nodes a j k d (subst (λ x. Depth nodes x k) q deep_p)))
        ∙ store_other new.at (node_of new r) nodes a (free_apart nodes new.at a n no_new e)

    pub step-Free : Free nodes₁ (fresh + 1)
    step-Free a h =
        store_other p.at (node_of p (some new.at)) (store new.at (node_of new r) nodes) a
          (λ q. free_apart nodes a p.at (node_of p r) (free a (omega (arith, h))) there (sym q))
        ∙ store_other new.at (node_of new r) nodes a (λ q. absurd (omega (arith, q, h, at)))
        ∙ free a (omega (arith, h))

    pub step-IsRow : IsRow nodes₁ k h (insert_cell new cs)
    step-IsRow =
        let deep : (a : ℕ) → Depth nodes a k → Depth nodes₁ a k =
          λ a d. Depth-Keeps nodes nodes₁ step-Keeps a k d in
        record {
          linked =
              Linked-insert_cell nodes new no_new 0 h cs p r w.linked
                (Each-map cs (λ c less same. absurd (omega (arith, less, same, w.head))) low) up
                refl there;
          head = w.head;
          deep = deep h.at w.deep;
          all_deep =
              Each-insert_cell {P = λ c. Depth nodes₁ c.at k} new cs
                (new_deep nodes₁ step-Keeps (node_of new r)
                  (linked_in-new nodes new no_new p r r there) refl)
                (Each-map cs (λ c d. deep c.at d) w.all_deep);
        }
