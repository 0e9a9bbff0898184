-- ===== src/SkipList/Replace.antt =====
-- A new value in a tower of a `SkipList`, as `put` of src/LSM-Tree/SkipList.cpp stores it.

use lsm_based_on_zns_ssd.Base.{
  ℕ, suc, ◌≤◌, ◌<◌, ◌≡◌, ◌≢◌, refl, sym, ap, ◌∙◌, subst, arith, if◌then◌else◌, leb, ◌==◌, eq→==,
  ne→==_false, ℕ_discrete, List, [], ◌∷◌, Option, none, some, Bool-cases, inl, inr,
}
use lsm_based_on_zns_ssd.SkipList.Memory.{Node, store}
use lsm_based_on_zns_ssd.SkipList.Columns.{Ascends, one_more}
use lsm_based_on_zns_ssd.SkipList.Cells.{
  Cell, node_of, Each, no_cell, cell_and, Each-map, Each-both, Linked, last_cell, next_cell,
  Linked-frame, Linked-head, Linked-cells, pairs_of, last_before, replace_cells, Above, above_end,
  above_skip, above_take,
}
use lsm_based_on_zns_ssd.SkipList.Insert.{
  Ascends-Each, keys_apart, right_of, store_same, store_other,
}
use lsm_based_on_zns_ssd.SkipList.Path.{last_before_front}

module _ (key : ℕ) (value : List ℕ) where
  -- A row without the key.
  pub replace_cells-none :
      (cs : List Cell) → Each (λ c. c.key ≢ key) cs → replace_cells key value cs ≡ cs
  replace_cells-none _ no_cell = refl
  replace_cells-none _ (cell_and c cs ne more) =
      rw (ne→==_false c.key key ne) (ap (λ x. c ∷ x) (replace_cells-none cs more))

  pub Each-replace_cells :
      (P : ℕ → ℕ → Option ℕ → Type 0) (cs : List Cell)
      → Each (λ c. P c.at c.key c.down) cs
      → Each (λ c. P c.at c.key c.down) (replace_cells key value cs)
  Each-replace_cells P _ no_cell = no_cell
  Each-replace_cells P _ (cell_and c cs p more) = elim (ℕ_discrete c.key key) [
    | yes q ↦ rw (eq→== c.key key q) (
        cell_and (record c { val = value }) (replace_cells key value cs) p
          (Each-replace_cells P cs more))
    | no q ↦
        rw (ne→==_false c.key key q)
          (cell_and c (replace_cells key value cs) p (Each-replace_cells P cs more))
  ]

  -- The rows still stand on each other.
  pub Above-replace_cells :
      (us ls : List Cell)
      → Above us ls
      → Above (replace_cells key value us) (replace_cells key value ls)
  Above-replace_cells _ _ (above_end ls) = above_end (replace_cells key value ls)
  Above-replace_cells _ _ (above_skip us l ls w) =
      above_skip (replace_cells key value us) (if l.key == key then record l { val = value } else l)
        (replace_cells key value ls) (Above-replace_cells us ls w)
  Above-replace_cells _ _ (above_take a us l ls w) = elim (ℕ_discrete l.key key) [
    | yes q ↦ rw (eq→== l.key key q) (
        above_take a (replace_cells key value us) (record l { val = value })
          (replace_cells key value ls) (Above-replace_cells us ls w))
    | no q ↦ rw (ne→==_false l.key key q) (
        above_take a (replace_cells key value us) l (replace_cells key value ls)
          (Above-replace_cells us ls w))
  ]

  -- The last cell that is not above the key does not have it: no cell has it.
  pub key_absent :
      (low : ℕ) (h : Cell) (cs : List Cell)
      → Ascends low (pairs_of cs)
      → (last_before key h cs).key ≢ key
      → Each (λ c. c.key ≢ key) cs
  key_absent low h [] up ne = no_cell
  key_absent low h (c ∷ cs) (one_more _ _ _ _ u more) ne = elim (Bool-cases (leb c.key key)) [
    | inl go ↦
        let moved : last_before key h (c ∷ cs) ≡ last_before key c cs = rw go refl in
        let ne' : (last_before key c cs).key ≢ key = subst (λ (x : Cell). x.key ≢ key) moved ne in
        let rest : Each (λ d. d.key ≢ key) cs = key_absent (suc c.key) c cs more ne' in
        cell_and c cs
          (λ q. ne' (
            ap (λ (x : Cell). x.key)
              (last_before_front key c cs
                (Each-map cs (λ d h. omega (arith, h, q)) (Ascends-Each (suc c.key) cs more)))
            ∙ q))
          rest
    | inr stop ↦
        let above : key < c.key = ground arith in
        cell_and c cs (λ q. absurd (omega (arith, q, above)))
          (Each-map cs (λ d h q. absurd (omega (arith, q, h, above)))
            (Ascends-Each (suc c.key) cs more))
  ]

  module _ (nodes : ℕ → Option Node) where
    abbrev pub stored : Cell → Option ℕ → ℕ → Option Node
    stored p r = store p.at (node_of (record p { val = value }) r) nodes

    -- The head gets the value.
    value_stored :
        (d : Cell) (ds : List Cell) (r : Option ℕ)
        → Linked nodes d ds
        → Each (λ c. d.key ≢ c.key) ds
        → nodes d.at ≡ some (node_of d r)
        → Linked (stored d r) (record d { val = value }) ds
    value_stored d [] r (last_cell _ e) apart there =
        last_cell (record d { val = value })
          (store_same d.at (node_of (record d { val = value }) r) nodes
            ∙ ap (λ x. some (node_of (record d { val = value }) x))
                (right_of nodes d r none there e))
    value_stored d (c ∷ cs) r (next_cell _ _ _ e more) (cell_and _ _ ne others) there =
        let (s, here) = Linked-head nodes c cs more in
        next_cell (record d { val = value }) c cs
          (store_same d.at (node_of (record d { val = value }) r) nodes
            ∙ ap (λ x. some (node_of (record d { val = value }) x))
                (right_of nodes d r (some c.at) there e))
          (Linked-frame nodes (stored d r) c cs more
            (store_other d.at (node_of (record d { val = value }) r) nodes c.at
              (keys_apart nodes d c (some c.at) s e here ne))
            (Each-both cs
              (λ x (t, at) apart.
                store_other d.at (node_of (record d { val = value }) r) nodes x.at
                  (keys_apart nodes d x (some c.at) t e at apart))
              (Linked-cells nodes c cs more) others))

    pub Linked-stored :
        (low : ℕ) (h : Cell) (cs : List Cell) (p : Cell) (r : Option ℕ)
        → Linked nodes h cs
        → h.key ≢ key
        → Each (λ c. h.key ≢ c.key) cs
        → Ascends low (pairs_of cs)
        → last_before key h cs ≡ p
        → p.key ≡ key
        → nodes p.at ≡ some (node_of p r)
        → Linked (stored p r) h (replace_cells key value cs)
    Linked-stored low h [] p r l ne apart up q k there =
        absurd (ne (ap (λ (x : Cell). x.key) q ∙ k))
    Linked-stored low h (d ∷ ds) p r (next_cell _ _ _ e more) ne (cell_and _ _ ne' others)
          (one_more _ _ _ _ up rest) q k there =
        elim (Bool-cases (leb d.key key)) [
          | inr stop ↦
              let here : h ≡ p = sym (rw stop refl) ∙ q in
              absurd (ne (ap (λ (x : Cell). x.key) here ∙ k))
          | inl go ↦
              let q' : last_before key d ds ≡ p = sym (rw go refl) ∙ q in
              let stays : stored p r h.at ≡ some (node_of h (some d.at)) =
                store_other p.at (node_of (record p { val = value }) r) nodes h.at
                  (keys_apart nodes p h r (some d.at) there e (λ x. ne (sym x ∙ k)))
                ∙ e in
              let greater : Each (λ c. suc d.key ≤ c.key) ds = Ascends-Each (suc d.key) ds rest in
              elim (ℕ_discrete d.key key) [
                | yes same ↦
                    let is : d ≡ p =
                      sym (
                        last_before_front key d ds
                          (Each-map ds (λ c h. omega (arith, h, same)) greater))
                      ∙ q' in
                    rw
                      (
                        eq→== d.key key same,
                        replace_cells-none ds
                            (Each-map ds (λ c h x. absurd (omega (arith, h, same, x))) greater),
                      )
                      (next_cell h (record d { val = value }) ds stays
                        (subst (λ (x : Cell). Linked (stored x r) (record d { val = value }) ds) is
                          (value_stored d ds r more
                            (Each-map ds (λ c h x. absurd (omega (arith, h, x))) greater)
                            (subst (λ (x : Cell). nodes x.at ≡ some (node_of x r)) (sym is)
                              there))))
                | no other ↦ rw (ne→==_false d.key key other) (
                    next_cell h d (replace_cells key value ds) stays (
                      Linked-stored (suc d.key) d ds p r more other
                        (Each-map ds (λ c h x. absurd (omega (arith, h, x))) greater) rest q' k
                        there))
              ]
        ]
