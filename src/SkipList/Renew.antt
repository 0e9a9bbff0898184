-- ===== src/SkipList/Renew.antt =====
-- `replace_values`, the loop of `SkipList::put` (src/LSM-Tree/SkipList.cpp) for a key that is there.
use mathlib.Core.Option.{some-injective}
use lsm_based_on_zns_ssd.Base.{
  ℕ, suc, ◌<◌, ◌≡◌, ◌≢◌, refl, sym, ap, ◌∙◌, subst, arith, eq→==, ne→==_false, ℕ_discrete, List, [],
  ◌∷◌, Option, none, some, ◌>>=◌, length,
}
use lsm_based_on_zns_ssd.SkipList.Memory.{Node, head_key, replace_values}
use lsm_based_on_zns_ssd.SkipList.Columns.{Ascends}
use lsm_based_on_zns_ssd.SkipList.Cells.{
  Cell, node_of, Row, Each, Each-map, Linked-last_before, Each-last_before, pairs_of, last_before,
  replace_cells, Above, Upper, top_row, upper_row, path_of,
}
use lsm_based_on_zns_ssd.SkipList.Insert.{store_same, store_other}
use lsm_based_on_zns_ssd.SkipList.Depth.{Depth, Keeps, Depth-unique, Depth-Keeps}
use lsm_based_on_zns_ssd.SkipList.Standing.{Above-Each, Above-Ascends}
use lsm_based_on_zns_ssd.SkipList.Upward.{Same, IsRow, IsRow-Same, upper-IsRow, Upper-Same}
use lsm_based_on_zns_ssd.SkipList.Replace.{
  replace_cells-none, Each-replace_cells, Above-replace_cells, key_absent, stored, Linked-stored,
}

module _ (key : ℕ) (value : List ℕ) (inside : key < head_key) where
  -- After the loop: the row of the level `k` and the rows above it have the value.
  pub record Renews (nodes : ℕ → Option Node) (k : ℕ) (h : Cell) (cs : List Cell) (t : Cell)
      (count : ℕ) (nodes' : ℕ → Option Node) : Type 0 where
    pub rows : List Row
    pub ts : List Cell
    pub row : IsRow nodes' k h cs
    pub upper : Upper nodes' h cs rows t ts
    pub keeps : Keeps nodes nodes'
    pub same : Same nodes nodes' (λ j. j < k)
    pub free : (a : ℕ) → nodes a ≡ none → nodes' a ≡ none
    pub counted : length rows ≡ count

  abbrev pub Renewed : (ℕ → Option Node) → ℕ → Cell → List Cell → List Row → Cell → Type 0
  Renewed nodes k h cs rows t =
      (nodes' : ℕ → Option Node) × (replace_values key value
          ((last_before key h cs).at ∷ path_of key rows) nodes
        ≡ some nodes')
      × Renews nodes k h (replace_cells key value cs) t (length rows) nodes'

  module _ (nodes : ℕ → Option Node) (k : ℕ) (h : Cell) (cs : List Cell) (w : IsRow nodes k h cs)
      (up : Ascends 0 (pairs_of cs)) (low : Each (λ c. c.key < head_key) cs) (r : Option ℕ)
      (there : nodes (last_before key h cs).at ≡ some (node_of (last_before key h cs) r)) where
    abbrev p : Cell
    p = last_before key h cs

    -- The loop ends: neither the row nor one above it has the key.
    replace_values_stop :
        (rows : List Row) (t : Cell) (ts : List Cell)
        → Upper nodes h cs rows t ts
        → p.key ≢ key
        → Renewed nodes k h cs rows t
    unfolding replace_values
    replace_values_stop rows t ts upper ne =
        let same : replace_cells key value cs ≡ cs =
          replace_cells-none key value cs (key_absent key value 0 h cs up ne) in
        (
          nodes,
          rw (there, ◌>>=◌, ne→==_false p.key key ne) refl,
          record {
            rows = rows;
            ts = ts;
            row = subst (IsRow nodes k h) (sym same) w;
            upper = subst (λ x. Upper nodes h x rows t ts) (sym same) upper;
            keeps = λ a n e. (n, e, refl);
            same = λ a j d less. refl;
            free = λ a e. e;
            counted = refl;
          },
        )

    module _ (is : p.key ≡ key) where
      abbrev nodes₁ : ℕ → Option Node
      nodes₁ = stored key value nodes p r

      renew-Keeps : Keeps nodes nodes₁
      renew-Keeps a n e = elim (ℕ_discrete p.at a) [
        | yes q ↦
            let same : node_of p r ≡ n =
              some-injective (node_of p r) n (sym there ∙ ap nodes q ∙ e) in
            (
              node_of (record p { val = value }) r,
              ap nodes₁ (sym q) ∙ store_same p.at (node_of (record p { val = value }) r) nodes,
              ap (λ (x : Node). x.down) same,
            )
        | no q ↦ (n, store_other p.at (node_of (record p { val = value }) r) nodes a q ∙ e, refl)
      ]

      renew-Same : Same nodes nodes₁ (λ j. j ≢ k)
      renew-Same a j d ne =
          let deep_p : Depth nodes p.at k =
            Each-last_before {P = λ c. Depth nodes c.at k} key h cs w.deep w.all_deep in
          store_other p.at (node_of (record p { val = value }) r) nodes a
            (λ q. ne (Depth-unique nodes a j k d (subst (λ x. Depth nodes x k) q deep_p)))

      renew-free : (a : ℕ) → nodes a ≡ none → nodes₁ a ≡ none
      renew-free a e =
          store_other p.at (node_of (record p { val = value }) r) nodes a (λ q.
            let clash : none ≡ some (node_of p r) = sym e ∙ ap nodes (sym q) ∙ there in
            absurd (ground arith))
          ∙ e

      renew-IsRow : IsRow nodes₁ k h (replace_cells key value cs)
      renew-IsRow = record {
        linked =
            Linked-stored key value nodes 0 h cs p r w.linked
              (λ q. absurd (omega (arith, w.head, inside, q)))
              (Each-map cs (λ c less same. absurd (omega (arith, less, same, w.head))) low) up refl
              is there;
        head = w.head;
        deep = Depth-Keeps nodes nodes₁ renew-Keeps h.at k w.deep;
        all_deep =
            Each-replace_cells key value (λ a x d. Depth nodes₁ a k) cs
              (Each-map cs (λ c d. Depth-Keeps nodes nodes₁ renew-Keeps c.at k d) w.all_deep);
      }

      replace_values_top : Renewed nodes k h cs [] h
      unfolding replace_values
      replace_values_top = (
        nodes₁,
        rw (there, ◌>>=◌, eq→== p.key key is) refl,
        record {
          rows = [];
          ts = replace_cells key value cs;
          row = renew-IsRow;
          upper = top_row h (replace_cells key value cs);
          keeps = renew-Keeps;
          same = λ a j d less. renew-Same a j d (λ q. absurd (omega (arith, less, q)));
          free = renew-free;
          counted = refl;
        },
      )

      module _ (h' : Cell) (cs' : List Cell) (rows : List Row) (t : Cell) (ts : List Cell)
          (next : IsRow nodes (suc k) h' cs') (down : h'.down ≡ some h.at)
          (above : Above cs' cs) where
        next-IsRow : IsRow nodes₁ (suc k) h' cs'
        next-IsRow =
            IsRow-Same nodes nodes₁ (suc k) h' cs' next renew-Keeps
              (λ a j d e. renew-Same a j d (λ q. absurd (omega (arith, e, q))))

        next-Upper : Upper nodes h' cs' rows t ts → Upper nodes₁ h' cs' rows t ts
        next-Upper =
            Upper-Same nodes nodes₁ (suc k) h' cs' rows t ts next
              (λ a j d less. renew-Same a j d (λ q. absurd (omega (arith, less, q))))

        replace_values_on :
            Renewed nodes₁ (suc k) h' cs' rows t → Renewed nodes k h cs ((h', cs') ∷ rows) t
        unfolding replace_values
        replace_values_on (nodes₂, run, l) = (
          nodes₂,
          rw (there, ◌>>=◌, eq→== p.key key is) run,
          record {
            rows = (h', replace_cells key value cs') ∷ l.rows;
            ts = l.ts;
            row =
                IsRow-Same nodes₁ nodes₂ k h (replace_cells key value cs) renew-IsRow l.keeps
                  (λ a j d e. l.same a j d (omega (arith, e)));
            upper =
                upper_row h (replace_cells key value cs) h' (replace_cells key value cs') l.rows t
                  l.ts l.row.linked l.row.head down (Above-replace_cells key value cs' cs above)
                  l.upper;
            keeps = λ a n e.
                let (n₁, e₁, d₁) = renew-Keeps a n e in
                let (n₂, e₂, d₂) = l.keeps a n₁ e₁ in (n₂, e₂, d₂ ∙ d₁);
            same = λ a j d less.
                l.same a j (Depth-Keeps nodes nodes₁ renew-Keeps a j d) (omega (arith, less))
                ∙ renew-Same a j d (λ q. absurd (omega (arith, less, q)));
            free = λ a e. l.free a (renew-free a e);
            counted = ap suc l.counted;
          },
        )

  pub replace_values-Renews :
      (nodes : ℕ → Option Node) (k : ℕ) (h : Cell) (cs : List Cell) (rows : List Row) (t : Cell)
      (ts : List Cell)
      → IsRow nodes k h cs
      → Upper nodes h cs rows t ts
      → Ascends 0 (pairs_of cs)
      → Each (λ c. c.key < head_key) cs
      → Renewed nodes k h cs rows t
  replace_values-Renews nodes k h cs [] _ _ w (top_row _ _) up low =
      let (r, there) = Linked-last_before nodes key h cs w.linked in
      elim (ℕ_discrete (last_before key h cs).key key) [
        | yes is ↦ replace_values_top nodes k h cs w up low r there is
        | no ne ↦ replace_values_stop nodes k h cs w up low r there [] h cs (top_row h cs) ne
      ]
  replace_values-Renews nodes k h cs ((h', cs') ∷ rows) t ts w
        (upper_row _ _ _ _ _ _ _ linked head down above more) up low =
      let (r, there) = Linked-last_before nodes key h cs w.linked in
      let next : IsRow nodes (suc k) h' cs' =
        upper-IsRow nodes k h cs h' cs' w linked head down above in
      elim (ℕ_discrete (last_before key h cs).key key) [
        | yes is ↦
            replace_values_on nodes k h cs w up low r there is h' cs' rows t ts next down above (
              replace_values-Renews (stored key value nodes (last_before key h cs) r) (suc k) h' cs'
                rows t ts
                (next-IsRow nodes k h cs w up low r there is h' cs' rows t ts next down above)
                (next-Upper nodes k h cs w up low r there is h' cs' rows t ts next down above more)
                (Above-Ascends 0 cs' cs above up) (Above-Each (λ x. x < head_key) cs' cs above low))
        | no ne ↦
            replace_values_stop nodes k h cs w up low r there ((h', cs') ∷ rows) t ts
              (upper_row h cs h' cs' rows t ts linked head down above more) ne
      ]
