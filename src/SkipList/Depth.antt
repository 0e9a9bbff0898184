-- ===== src/SkipList/Depth.antt =====
-- How far a node of a `SkipList` (src/LSM-Tree/SkipList.cpp) is above the lowest level: nodes of different levels are
-- different, and `put` leaves the levels of the nodes alone.
use mathlib.Core.Option.{some-injective}
use lsm_based_on_zns_ssd.Base.{
  ℕ, suc, ◌≡◌, refl, sym, ap, ◌∙◌, subst, arith, ℕ_discrete, List, Option, none, some,
}
use lsm_based_on_zns_ssd.SkipList.Memory.{Node, store}
use lsm_based_on_zns_ssd.SkipList.Cells.{
  Cell, node_of, Each, no_cell, cell_and, Above, above_end, above_skip, above_take,
}
use lsm_based_on_zns_ssd.SkipList.Insert.{free_apart, store_same, store_other}

pub data Depth (nodes : ℕ → Option Node) : ℕ → ℕ → Type 0 where
  lowest : (a : ℕ) (n : Node) → nodes a ≡ some n → n.down ≡ none → Depth nodes a 0
  higher :
      (a d k : ℕ) (n : Node)
      → nodes a ≡ some n
      → n.down ≡ some d
      → Depth nodes d k
      → Depth nodes a (suc k)

-- Every node stays, with what is below it.
abbrev pub Keeps : (ℕ → Option Node) → (ℕ → Option Node) → Type 0
Keeps nodes nodes' =
    (a : ℕ) (n : Node) → nodes a ≡ some n → (n' : Node) × (nodes' a ≡ some n') × (n'.down ≡ n.down)

module _ (nodes : ℕ → Option Node) where
  same_down : (a : ℕ) (n n' : Node) → nodes a ≡ some n → nodes a ≡ some n' → n.down ≡ n'.down
  same_down a n n' e e' = ap (λ (x : Node). x.down) (some-injective n n' (sym e ∙ e'))

  pub Depth-unique : (a j k : ℕ) → Depth nodes a j → Depth nodes a k → j ≡ k
  Depth-unique _ _ _ (lowest a n e z) (lowest _ n' e' z') = refl
  Depth-unique _ _ _ (lowest a n e z) (higher _ d k n' e' s more) =
      let clash : none ≡ some d = sym z ∙ same_down a n n' e e' ∙ s in absurd (ground arith)
  Depth-unique _ _ _ (higher a d k n e s more) (lowest _ n' e' z') =
      let clash : none ≡ some d = sym z' ∙ same_down a n' n e' e ∙ s in absurd (ground arith)
  Depth-unique _ _ _ (higher a d j n e s more) (higher _ d' k n' e' s' more') =
      let same : d ≡ d' = some-injective d d' (sym s ∙ same_down a n n' e e' ∙ s') in
      ap suc (Depth-unique d j k more (subst (λ x. Depth nodes x k) (sym same) more'))

  pub Depth-there : (a k : ℕ) → Depth nodes a k → (n : Node) × (nodes a ≡ some n)
  Depth-there _ _ (lowest a n e z) = (n, e)
  Depth-there _ _ (higher a d k n e s more) = (n, e)

  -- The cells of the next row.
  pub Above-Depth :
      (k : ℕ) (us ls : List Cell)
      → Above us ls
      → Each (λ c. (r : Option ℕ) × (nodes c.at ≡ some (node_of c r))) us
      → Each (λ c. Depth nodes c.at k) ls
      → Each (λ c. Depth nodes c.at (suc k)) us
  Above-Depth k _ _ (above_end ls) there deep = no_cell
  Above-Depth k _ _ (above_skip us l ls w) there (cell_and _ _ d deep) =
      Above-Depth k us ls w there deep
  Above-Depth k _ _ (above_take a us l ls w) (cell_and c _ (r, e) there) (cell_and _ _ d deep) =
      cell_and c us (higher a l.at k (node_of c r) e refl d) (Above-Depth k us ls w there deep)

pub Depth-Keeps :
    (nodes nodes' : ℕ → Option Node)
    → Keeps nodes nodes'
    → (a k : ℕ) → Depth nodes a k
    → Depth nodes' a k
Depth-Keeps nodes nodes' w _ _ (lowest a n e z) =
    let (n', e', same) = w a n e in lowest a n' e' (same ∙ z)
Depth-Keeps nodes nodes' w _ _ (higher a d k n e s more) =
    let (n', e', same) = w a n e in
    higher a d k n' e' (same ∙ s) (Depth-Keeps nodes nodes' w d k more)

-- The two stores of an insertion.
pub insert-Keeps :
    (nodes : ℕ → Option Node) (a f : ℕ) (n n' m : Node)
    → nodes a ≡ some n
    → n'.down ≡ n.down
    → nodes f ≡ none
    → Keeps nodes (store a n' (store f m nodes))
insert-Keeps nodes a f n n' m e same free b o there = elim (ℕ_discrete a b) [
  | yes p ↦
      let is : n ≡ o = some-injective n o (sym e ∙ ap nodes p ∙ there) in
      (
        n',
        ap (store a n' (store f m nodes)) (sym p) ∙ store_same a n' (store f m nodes),
        same ∙ ap (λ (x : Node). x.down) is,
      )
  | no p ↦ (
    o,
    store_other a n' (store f m nodes) b p
        ∙ store_other f m nodes b (free_apart nodes f b o free there)
        ∙ there,
    refl,
  )
]
