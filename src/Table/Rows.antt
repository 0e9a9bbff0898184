-- ===== src/Table/Rows.antt =====
-- The loops in the constructor of `Table` from a `SkipList` (src/LSM-Tree/Table.cpp), over the lowest level.
use mathlib.Core.Option.{some-injective}
use lsm_based_on_zns_ssd.Base.{
  ℕ, zero, suc, ◌+◌, ◌≤◌, ◌<◌, ◌≡◌, refl, sym, ap, subst, ◌∙◌, arith, Bool, List, [], ◌∷◌, Option,
  none, some, ◌>>=◌, length, to_u32, map,
}
use lsm_based_on_zns_ssd.Table.Build.{set_bits, fill_filter}
use lsm_based_on_zns_ssd.Table.Flush.{filter_nodes, offset_nodes}
use lsm_based_on_zns_ssd.SkipList.Memory.{Node, first_node_loop}
use lsm_based_on_zns_ssd.SkipList.Columns.{
  Pairs, Column, bottom_end, bottom_next, upper_end, upper_next,
}

module _ (nodes : ℕ → Option Node) where
  -- The nodes of a level from `p` on.
  pub data Row : Option ℕ → Pairs → Type 0 where
    row_end : Row none []
    row_next :
        (b : ℕ) (next : Node) (rest : Pairs)
        → nodes b ≡ some next
        → Row next.right rest
        → Row (some b) ((next.key, next.val) ∷ rest)

  -- The lowest level of a tower.
  pub bottom-Row :
      (a : ℕ) (pairs : Pairs)
      → Column nodes 0 a pairs
      → (node : Node) × (nodes a ≡ some node) × Row node.right pairs
  bottom-Row a _ (bottom_end _ node e d r) = (node, e, subst (λ p. Row p []) (sym r) row_end)
  bottom-Row a _ (bottom_next _ b node next rest e d r q c) =
      let below = bottom-Row b rest c in
      let same : below.0 ≡ next = some-injective (below.0) next (sym (below.1) ∙ q) in
      (
        node,
        e,
        subst (λ p. Row p ((next.key, next.val) ∷ rest)) (sym r)
            (row_next b next rest q (subst (λ (n : Node). Row n.right rest) same (below.2))),
      )

  pub first_node_loop-Column :
      (fuel level a : ℕ) (pairs : Pairs) (q : Option ℕ)
      → Column nodes level a pairs
      → level + 2 ≤ fuel
      → (b : ℕ) × (first_node_loop fuel nodes (some a) q ≡ some (some b)) × Column nodes 0 b pairs
  unfolding first_node_loop
  first_node_loop-Column zero level a pairs q c h = absurd (omega (arith, h))
  first_node_loop-Column (suc zero) level a pairs q c h = absurd (omega (arith, h))
  first_node_loop-Column (suc (suc fuel)) _ a _ q (bottom_end _ node e d r) h =
      (a, rw (e, ◌>>=◌, d) refl, bottom_end a node e d r)
  first_node_loop-Column (suc (suc fuel)) _ a _ q (bottom_next _ b node next rest e d r e' c) h =
      (a, rw (e, ◌>>=◌, d) refl, bottom_next a b node next rest e d r e' c)
  first_node_loop-Column (suc (suc fuel)) _ a _ q (upper_end level _ d node pairs e l r c) h =
      let s = first_node_loop-Column (suc fuel) level d pairs (some a) c (omega (arith, h)) in
      (s.0, rw (first_node_loop, e, ◌>>=◌, l) (s.1), s.2)
  first_node_loop-Column (suc (suc fuel)) _ a _ q
        (upper_next level _ b d node next skipped rest e l r e' c c') h =
      let s = first_node_loop-Column (suc fuel) level d _ (some a) c (omega (arith, h)) in
      (s.0, rw (first_node_loop, e, ◌>>=◌, l) (s.1), s.2)

  pub filter_nodes-Row :
      (fuel : ℕ) (hash : ℕ → List ℕ) (p : Option ℕ) (pairs : Pairs) (bloom : ℕ → Bool)
      → Row p pairs
      → length pairs < fuel
      → filter_nodes fuel hash nodes p bloom ≡ some (fill_filter hash pairs bloom)
  unfolding filter_nodes fill_filter
  filter_nodes-Row zero hash p pairs bloom r h = absurd (omega (arith, h))
  filter_nodes-Row (suc fuel) hash _ _ bloom row_end h = refl
  filter_nodes-Row (suc fuel) hash _ _ bloom (row_next b next rest e r) h =
      rw (filter_nodes, e, ◌>>=◌)
        (filter_nodes-Row fuel hash next.right rest (set_bits (hash next.key) bloom) r
          (omega (arith, h)))

  -- What the loop that fills the index comes to.
  pub record Indexes (fuel : ℕ) (left_size : List ℕ → ℕ) (area curlength : ℕ) (p : Option ℕ)
      (pairs : Pairs) : Type 0 where
    pub offset : List (ℕ × ℕ)
    pub end : ℕ
    pub returns : offset_nodes fuel left_size area curlength nodes p ≡ some (offset, pairs, end)
    pub keys : map (λ o. o.0) offset ≡ map (λ o. o.0) pairs

  pub offset_nodes-Indexes :
      (fuel : ℕ) (left_size : List ℕ → ℕ) (area curlength : ℕ) (p : Option ℕ) (pairs : Pairs)
      → Row p pairs
      → length pairs < fuel
      → Indexes fuel left_size area curlength p pairs
  unfolding offset_nodes
  offset_nodes-Indexes zero left_size area curlength p pairs r h = absurd (omega (arith, h))
  offset_nodes-Indexes (suc fuel) left_size area curlength _ _ row_end h = record {
    offset = [];
    end = curlength;
    returns = refl;
    keys = refl;
  }
  offset_nodes-Indexes (suc fuel) left_size area curlength _ _ (row_next b next rest e r) h =
      let i : Indexes fuel left_size area (to_u32 (curlength + left_size next.val + 1)) next.right
          rest =
        offset_nodes-Indexes fuel left_size area (to_u32 (curlength + left_size next.val + 1))
          next.right rest r (omega (arith, h)) in
      record {
        offset = (next.key, to_u32 (area + curlength)) ∷ i.offset;
        end = i.end;
        returns = rw (offset_nodes, e, ◌>>=◌) (rw i.returns refl);
        keys = ap (λ ks. next.key ∷ ks) i.keys;
      }
