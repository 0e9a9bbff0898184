-- ===== src/SkipList/First.antt =====
-- `SkipList::put` of src/LSM-Tree/SkipList.cpp: what it has to leave, and the first pair.
use lsm_based_on_zns_ssd.Base.{
  ℕ, zero, suc, ◌+◌, ◌≤◌, ◌<◌, ◌≡◌, refl, sym, ap, ◌∙◌, arith, Bool, if◌then◌else◌, ltb, List, [],
  ◌∷◌, Option, none, some, length, add64, add64-eq,
}
use lsm_based_on_zns_ssd.SkipList.Memory.{Node, SkipList, head_key, path_list, add_level, skip_put}
use lsm_based_on_zns_ssd.SkipList.Columns.{Pairs}
use lsm_based_on_zns_ssd.SkipList.Cells.{
  Cell, node_of, Each, no_cell, cell_and, Each-both, Linked, Linked-head, Linked-cells, top_row,
}
use lsm_based_on_zns_ssd.SkipList.Depth.{lowest}
use lsm_based_on_zns_ssd.SkipList.Upward.{IsRow}
use lsm_based_on_zns_ssd.SkipList.Level.{top_cell, tower_cell, add_level-Free, add_level-Linked}
use lsm_based_on_zns_ssd.SkipList.Towers.{some_rows, IsTowers, put_pair, put_pair-Ascends}

pub lowest-IsRow :
    (nodes : ℕ → Option Node) (h : Cell) (cs : List Cell)
    → Linked nodes h cs
    → h.key ≡ head_key
    → h.down ≡ none
    → Each (λ c. c.down ≡ none) cs
    → IsRow nodes 0 h cs
lowest-IsRow nodes h cs linked head down downs = record {
  linked = linked;
  head = head;
  deep = let (r, e) = Linked-head nodes h cs linked in lowest h.at (node_of h r) e down;
  all_deep =
      Each-both cs (λ c (r, e) d. lowest c.at (node_of c r) e d) (Linked-cells nodes h cs linked)
        downs;
}

module _ (key : ℕ) (value : List ℕ) where
  -- With the bounds of the keys.
  abbrev pub bounded : SkipList → SkipList
  bounded s = record s {
    min_key = if ltb key s.min_key then key else s.min_key;
    max_key = if ltb s.max_key key then key else s.max_key;
  }

  pub record Puts (s : SkipList) (level : ℕ) (pairs : Pairs) (s' : SkipList) : Type 0 where
    pub new_level : ℕ
    pub grows : new_level ≤ level + 1
    pub towers : IsTowers s' new_level (put_pair key value pairs)
    pub least : s'.min_key ≡ (bounded s).min_key
    pub greatest : s'.max_key ≡ (bounded s).max_key
    pub stamp : s'.time_stamp ≡ s.time_stamp

module _ (coin : ℕ → Bool) (key : ℕ) (value : List ℕ) (inside : key < head_key) where
  -- The first pair.
  pub first_put :
      (fuel wide level : ℕ) (s : SkipList) (pairs : Pairs)
      → IsTowers s level pairs
      → s.head ≡ none
      → pairs ≡ []
      → 1 ≤ fuel
      → (s' : SkipList) × (skip_put coin fuel wide key value s ≡ some s')
        × Puts key value s level pairs s'
  unfolding skip_put path_list add_level
  first_put zero wide level s pairs w at gone enough = absurd (omega (arith, enough))
  first_put (suc fuel) wide level s pairs w at gone enough =
      let s₂ : SkipList = record (bounded key value s) { size = add64 s.size 1 } in
      let s' : SkipList = add_level key value none s₂ in
      let empty : length pairs ≡ 0 = ap length gone in
      (
        s',
        rw at refl,
        record {
          new_level = 1;
          grows = omega arith;
          least = refl;
          greatest = refl;
          stamp = refl;
          towers = record {
            rows =
                (top_cell key value none s₂ w.free, tower_cell key value none s₂ w.free ∷ []) ∷ [];
            towers =
                some_rows (top_cell key value none s₂ w.free)
                  (tower_cell key value none s₂ w.free ∷ []) [] (top_cell key value none s₂ w.free)
                  (tower_cell key value none s₂ w.free ∷ [])
                  (add_level-Linked key value none s₂ w.free) refl at
                  (cell_and (tower_cell key value none s₂ w.free) [] refl no_cell)
                  (cell_and (tower_cell key value none s₂ w.free) [] inside no_cell)
                  (top_row (top_cell key value none s₂ w.free)
                    (tower_cell key value none s₂ w.free ∷ []));
            counted = refl;
            same = sym (ap (put_pair key value) gone);
            ascends = put_pair-Ascends 0 key value pairs (omega arith) w.ascends;
            free = add_level-Free key value none s₂ w.free;
            sized =
                ap (λ n. add64 n 1) (w.sized ∙ empty)
                ∙ add64-eq 0 1 (omega arith)
                ∙ sym (ap (λ x. length (put_pair key value x)) gone);
          };
        },
      )
