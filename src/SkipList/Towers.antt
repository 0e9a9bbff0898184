-- ===== src/SkipList/Towers.antt =====
-- A `SkipList` (src/LSM-Tree/SkipList.cpp) in order as a whole: its rows, and the pairs that `put` leaves.
use lsm_based_on_zns_ssd.Base.{
  ℕ, suc, ◌+◌, ◌≤◌, ◌<◌, ◌≡◌, ◌≢◌, refl, sym, ap, ◌∙◌, subst, arith, true, false, if◌then◌else◌,
  leb, ltb, ◌==◌, eq→==, ne→==_false, ℕ_discrete, ltb→lt, List, [], ◌∷◌, Option, none, some,
  Bool-cases, inl, inr, length,
}
use lsm_based_on_zns_ssd.SkipList.Memory.{Node, SkipList, head_key}
use lsm_based_on_zns_ssd.SkipList.Columns.{Pairs, Ascends, no_pair, one_more, value_of}
use lsm_based_on_zns_ssd.SkipList.Cells.{
  Cell, Row, Each, no_cell, cell_and, Each-map, Linked, pairs_of, last_before, insert_cell,
  replace_cells, Upper,
}
use lsm_based_on_zns_ssd.SkipList.Insert.{Ascends-Each}
use lsm_based_on_zns_ssd.SkipList.Upward.{Free}
use lsm_based_on_zns_ssd.SkipList.Replace.{replace_cells-none}

-- The rows from the lowest on; `head` is the address of the top one.
pub data Towers (nodes : ℕ → Option Node) : Option ℕ → List Row → Type 0 where
  no_row : Towers nodes none []
  some_rows :
      (h : Cell) (cs : List Cell) (rows : List Row) (t : Cell) (ts : List Cell)
      → Linked nodes h cs
      → h.key ≡ head_key
      → h.down ≡ none
      → Each (λ c. c.down ≡ none) cs
      → Each (λ c. c.key < head_key) cs
      → Upper nodes h cs rows t ts
      → Towers nodes (some t.at) ((h, cs) ∷ rows)

abbrev pub lowest_pairs : List Row → Pairs
lowest_pairs [] = []
lowest_pairs (row ∷ rows) = pairs_of (row.1)

pub record IsTowers (s : SkipList) (level : ℕ) (pairs : Pairs) : Type 0 where
  pub rows : List Row
  pub towers : Towers s.nodes s.head rows
  pub counted : length rows ≡ level
  pub same : lowest_pairs rows ≡ pairs
  pub ascends : Ascends 0 pairs
  pub free : Free s.nodes s.fresh
  pub sized : s.size ≡ length pairs

-- A pair in a vector that is in order: in place of the one with its key, or where the key belongs.
abbrev pub put_pair : ℕ → List ℕ → Pairs → Pairs
put_pair key value [] = (key, value) ∷ []
put_pair key value ((k, v) ∷ rest) =
    if k == key
    then (key, value) ∷ rest
    else if ltb key k
    then (key, value) ∷ ((k, v) ∷ rest)
    else (k, v) ∷ put_pair key value rest

pub value_of-put_pair :
    (k key : ℕ) (value : List ℕ) (ps : Pairs)
    → value_of k (put_pair key value ps) ≡ (if key == k then value else value_of k ps)
value_of-put_pair k key value [] = refl
value_of-put_pair k key value ((k', v) ∷ rest) =
    let ih : value_of k (put_pair key value rest) ≡ (if key == k then value else value_of k rest) =
      value_of-put_pair k key value rest in
    elim (ℕ_discrete k' key) [
      | yes p ↦ rw (eq→== k' key p) (elim (ℕ_discrete key k) [
        | yes q ↦ rw (eq→== key k q) refl
        | no q ↦ rw (ne→==_false key k q, ne→==_false k' k (λ e. q (sym p ∙ e))) refl
      ])
      | no p ↦ elim (Bool-cases (ltb key k')) [
        | inl before ↦ rw (ne→==_false k' key p, before) refl
        | inr after ↦
            rw (ne→==_false k' key p, after)
              (elim (ℕ_discrete k' k) [
                | yes q ↦ rw (eq→== k' k q, ne→==_false key k (λ e. p (q ∙ sym e))) refl
                | no q ↦ rw (ne→==_false k' k q) ih
              ])
      ]
    ]

pub put_pair-Ascends :
    (low key : ℕ) (value : List ℕ) (ps : Pairs)
    → low ≤ key
    → Ascends low ps
    → Ascends low (put_pair key value ps)
put_pair-Ascends _ key value _ h (no_pair low) = one_more low key value [] h (no_pair (suc key))
put_pair-Ascends _ key value _ h (one_more low k v rest up more) = elim (ℕ_discrete k key) [
  | yes p ↦
      rw (eq→== k key p) (one_more low key value rest h (subst (λ x. Ascends (suc x) rest) p more))
  | no p ↦ elim (Bool-cases (ltb key k)) [
    | inl before ↦
        rw (ne→==_false k key p, before)
          (one_more low key value ((k, v) ∷ rest) h
            (one_more (suc key) k v rest (omega (arith, ltb→lt key k before)) more))
    | inr after ↦
        let less : suc k ≤ key = ground arith in
        rw (ne→==_false k key p, after)
          (one_more low k v (put_pair key value rest) up
            (put_pair-Ascends (suc k) key value rest less more))
  ]
]

-- The cells that `put` leaves hold these pairs.
pub insert_cell-put_pair :
    (new : Cell) (cs : List Cell)
    → Each (λ c. c.key ≢ new.key) cs
    → pairs_of (insert_cell new cs) ≡ put_pair new.key new.val (pairs_of cs)
insert_cell-put_pair new _ no_cell = refl
insert_cell-put_pair new _ (cell_and c cs ne more) = elim (Bool-cases (leb c.key new.key)) [
  | inl go ↦
      let after : ltb new.key c.key ≡ false = ground arith in
      rw (go, ne→==_false c.key new.key ne, after)
        (ap (λ x. (c.key, c.val) ∷ x) (insert_cell-put_pair new cs more))
  | inr stop ↦
      let before : ltb new.key c.key ≡ true = ground arith in
      rw (stop, ne→==_false c.key new.key ne, before) refl
]

pub length-insert_cell :
    (new : Cell) (cs : List Cell)
    → length (pairs_of (insert_cell new cs)) ≡ suc (length (pairs_of cs))
length-insert_cell new [] = refl
length-insert_cell new (c ∷ cs) = elim (Bool-cases (leb c.key new.key)) [
  | inl go ↦ rw go (ap suc (length-insert_cell new cs))
  | inr stop ↦ rw stop refl
]

pub replace_cells-put_pair :
    (low key : ℕ) (value : List ℕ) (h : Cell) (cs : List Cell)
    → Ascends low (pairs_of cs)
    → h.key ≢ key
    → (last_before key h cs).key ≡ key
    → pairs_of (replace_cells key value cs) ≡ put_pair key value (pairs_of cs)
replace_cells-put_pair low key value h [] up ne is = absurd (ne is)
replace_cells-put_pair low key value h (c ∷ cs) (one_more _ _ _ _ _ more) ne is =
    elim (Bool-cases (leb c.key key)) [
      | inr stop ↦
          let here : last_before key h (c ∷ cs) ≡ h = rw stop refl in
          absurd (ne (ap (λ (x : Cell). x.key) (sym here) ∙ is))
      | inl go ↦
          let moved : last_before key h (c ∷ cs) ≡ last_before key c cs = rw go refl in
          elim (ℕ_discrete c.key key) [
            | yes p ↦
                let others : Each (λ d. d.key ≢ key) cs =
                  Each-map cs (λ d l q. absurd (omega (arith, l, q, p)))
                    (Ascends-Each (suc c.key) cs more) in
                rw (eq→== c.key key p, replace_cells-none key value cs others)
                  (ap (λ x. (x, value) ∷ pairs_of cs) p)
            | no p ↦
                let after : ltb key c.key ≡ false = ground arith in
                rw (ne→==_false c.key key p, after)
                  (ap (λ x. (c.key, c.val) ∷ x)
                    (replace_cells-put_pair (suc c.key) key value c cs more p
                      (ap (λ (x : Cell). x.key) (sym moved) ∙ is)))
          ]
    ]

pub length-replace_cells :
    (key : ℕ) (value : List ℕ) (cs : List Cell)
    → length (pairs_of (replace_cells key value cs)) ≡ length (pairs_of cs)
length-replace_cells key value [] = refl
length-replace_cells key value (c ∷ cs) = ap suc (length-replace_cells key value cs)

pub length-put_pair :
    (key : ℕ) (value : List ℕ) (ps : Pairs) → length (put_pair key value ps) ≤ length ps + 1
length-put_pair key value [] = omega arith
length-put_pair key value ((k, v) ∷ rest) =
    let ih : length (put_pair key value rest) ≤ length rest + 1 = length-put_pair key value rest in
    elim (Bool-cases (k == key)) [
      | inl p ↦ rw p (omega arith)
      | inr p ↦ elim (Bool-cases (ltb key k)) [
        | inl before ↦ rw (p, before) (omega arith)
        | inr after ↦ rw (p, after) (omega (arith, ih))
      ]
    ]
