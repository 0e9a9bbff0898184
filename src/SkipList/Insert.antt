-- ===== src/SkipList/Insert.antt =====
-- A new node in one level of a `SkipList`, as `put` of src/LSM-Tree/SkipList.cpp links it.
use mathlib.Core.Option.{some-injective}
use lsm_based_on_zns_ssd.Base.{
  ℕ, suc, ◌≤◌, ◌≡◌, ◌≢◌, refl, sym, ap, ◌∙◌, subst, arith, leb, eq→==, ne→==_false, List, [], ◌∷◌,
  Option, none, some, Bool-cases, inl, inr,
}
use lsm_based_on_zns_ssd.SkipList.Memory.{Node, store}
use lsm_based_on_zns_ssd.SkipList.Columns.{Ascends, one_more}
use lsm_based_on_zns_ssd.SkipList.Cells.{
  Cell, node_of, Each, no_cell, cell_and, Each-map, Each-both, Linked, last_cell, next_cell,
  Linked-frame, Linked-head, Linked-cells, Each-last_before, pairs_of, last_before, insert_cell,
}

pub store_same : (a : ℕ) (n : Node) (nodes : ℕ → Option Node) → store a n nodes a ≡ some n
store_same a n nodes = rw (eq→== a a refl) refl

pub store_other :
    (a : ℕ) (n : Node) (nodes : ℕ → Option Node) (b : ℕ) → a ≢ b → store a n nodes b ≡ nodes b
store_other a n nodes b ne = rw (ne→==_false a b ne) refl

-- The two stores of an insertion behind a cell whose right neighbour is `r`.
abbrev pub linked_in : (ℕ → Option Node) → Cell → Cell → Option ℕ → ℕ → Option Node
linked_in nodes new p r = store p.at (node_of p (some new.at)) (store new.at (node_of new r) nodes)

-- The keys of a row that goes on above `low`.
pub Ascends-Each :
    (low : ℕ) (cs : List Cell) → Ascends low (pairs_of cs) → Each (λ c. low ≤ c.key) cs
Ascends-Each low [] w = no_cell
Ascends-Each low (c ∷ cs) (one_more _ _ _ _ up more) =
    cell_and c cs up (Each-map cs (λ d h. omega (arith, up, h)) (Ascends-Each (suc c.key) cs more))

module _ (nodes : ℕ → Option Node) where
  -- Cells with different keys have different addresses, and a free address is that of no cell.
  pub keys_apart :
      (c d : Cell) (r r' : Option ℕ)
      → nodes c.at ≡ some (node_of c r)
      → nodes d.at ≡ some (node_of d r')
      → c.key ≢ d.key
      → c.at ≢ d.at
  keys_apart c d r r' e e' ne p =
      let same : node_of c r ≡ node_of d r' =
        some-injective (node_of c r) (node_of d r') (sym e ∙ ap nodes p ∙ e') in
      ne (ap (λ (n : Node). n.key) same)

  pub free_apart : (f a : ℕ) (n : Node) → nodes f ≡ none → nodes a ≡ some n → f ≢ a
  free_apart f a n e e' p =
      let clash : none ≡ some n = sym e ∙ ap nodes p ∙ e' in absurd (ground arith)

  pub right_of :
      (c : Cell) (r r' : Option ℕ)
      → nodes c.at ≡ some (node_of c r)
      → nodes c.at ≡ some (node_of c r')
      → r ≡ r'
  right_of c r r' e e' =
      ap (λ (n : Node). n.right) (some-injective (node_of c r) (node_of c r') (sym e ∙ e'))

  module _ (new : Cell) (free : nodes new.at ≡ none) where
    -- The other cells stay.
    pub linked_in-other :
        (p c : Cell) (r s : Option ℕ)
        → nodes c.at ≡ some (node_of c s)
        → p.at ≢ c.at
        → linked_in nodes new p r c.at ≡ nodes c.at
    linked_in-other p c r s e ne =
        store_other p.at (node_of p (some new.at)) (store new.at (node_of new r) nodes) c.at ne
        ∙ store_other new.at (node_of new r) nodes c.at
            (free_apart new.at c.at (node_of c s) free e)

    pub linked_in-new :
        (p : Cell) (r s : Option ℕ)
        → nodes p.at ≡ some (node_of p s)
        → linked_in nodes new p r new.at ≡ some (node_of new r)
    linked_in-new p r s e =
        store_other p.at (node_of p (some new.at)) (store new.at (node_of new r) nodes) new.at
          (λ q. free_apart new.at p.at (node_of p s) free e (sym q))
        ∙ store_same new.at (node_of new r) nodes

    -- Behind the head.
    insert_here :
        (h : Cell) (cs : List Cell) (r : Option ℕ)
        → Linked nodes h cs
        → Each (λ c. h.key ≢ c.key) cs
        → nodes h.at ≡ some (node_of h r)
        → Linked (linked_in nodes new h r) h (new ∷ cs)
    insert_here _ _ r (last_cell h e) _ there =
        next_cell h new []
          (store_same h.at (node_of h (some new.at)) (store new.at (node_of new r) nodes))
          (last_cell new
            (linked_in-new h r none e ∙ ap (λ x. some (node_of new x)) (right_of h r none there e)))
    insert_here _ _ r (next_cell h d ds e more) (cell_and _ _ ne others) there =
        let (s, here) = Linked-head nodes d ds more in
        next_cell h new (d ∷ ds)
          (store_same h.at (node_of h (some new.at)) (store new.at (node_of new r) nodes))
          (next_cell new d ds
            (linked_in-new h r (some d.at) e
              ∙ ap (λ x. some (node_of new x)) (right_of h r (some d.at) there e))
            (Linked-frame nodes (linked_in nodes new h r) d ds more
              (linked_in-other h d r s here (keys_apart h d (some d.at) s e here ne))
              (Each-both ds
                (λ c (t, at) apart.
                  linked_in-other h c r t at (keys_apart h c (some d.at) t e at apart))
                (Linked-cells nodes d ds more) others)))

    -- Behind the last cell whose key is not above the new one.
    pub Linked-insert_cell :
        (low : ℕ) (h : Cell) (cs : List Cell) (p : Cell) (r : Option ℕ)
        → Linked nodes h cs
        → Each (λ c. h.key ≢ c.key) cs
        → Ascends low (pairs_of cs)
        → last_before new.key h cs ≡ p
        → nodes p.at ≡ some (node_of p r)
        → Linked (linked_in nodes new p r) h (insert_cell new cs)
    Linked-insert_cell low _ _ p r (last_cell h e) apart up q there =
        subst (λ x. Linked (linked_in nodes new x r) h (new ∷ [])) q
          (insert_here h [] r (last_cell h e) apart
            (subst (λ x. nodes x.at ≡ some (node_of x r)) (sym q) there))
    Linked-insert_cell low _ _ p r (next_cell h d ds e more) (cell_and _ _ ne others)
          (one_more _ _ _ _ up rest) q there =
        elim (Bool-cases (leb d.key new.key)) [
          | inl go ↦
              let q' : last_before new.key d ds ≡ p = sym (rw go refl) ∙ q in
              let differ : h.key ≢ p.key =
                subst (λ x. h.key ≢ x.key) q' (Each-last_before new.key d ds ne others) in
              let below : Linked (linked_in nodes new p r) d (insert_cell new ds) =
                Linked-insert_cell (suc d.key) d ds p r more
                  (Each-map ds (λ c less same. absurd (omega (arith, less, same)))
                    (Ascends-Each (suc d.key) ds rest))
                  rest q' there in
              rw go (
                next_cell h d (insert_cell new ds)
                  (linked_in-other p h r (some d.at) e
                      (keys_apart p h r (some d.at) there e (λ x. differ (sym x)))
                    ∙ e)
                  below)
          | inr stop ↦
              let q' : h ≡ p = sym (rw stop refl) ∙ q in
              rw stop (
                subst (λ x. Linked (linked_in nodes new x r) h (new ∷ (d ∷ ds))) q'
                  (insert_here h (d ∷ ds) r (next_cell h d ds e more) (cell_and d ds ne others)
                    (subst (λ x. nodes x.at ≡ some (node_of x r)) (sym q') there)))
        ]
