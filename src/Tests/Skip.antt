-- ===== src/Tests/Skip.antt =====
-- A skip list (src/LSM-Tree/SkipList.cpp) with two keys on two levels.
use lsm_based_on_zns_ssd.Base.{
  ne→==_false, ◌≡◌, refl, arith, true, [], ◌∷◌, Option, none, some, ◌>>=◌, add64,
}
use lsm_based_on_zns_ssd.SkipList.Memory.{
  Node, SkipList, skip_list, skip_put, skip_get, store, head_key,
}
use lsm_based_on_zns_ssd.SkipList.Columns.{
  Pairs, no_pair, one_more, Column, bottom_end, bottom_next, upper_end, upper_next,
}
use lsm_based_on_zns_ssd.Table.Filled.{Fills, fill_table-Fills}
use lsm_based_on_zns_ssd.SkipList.Cells.{
  Cell, no_cell, cell_and, last_cell, next_cell, above_end, above_take, top_row, upper_row,
}
use lsm_based_on_zns_ssd.SkipList.Upward.{Free}
use lsm_based_on_zns_ssd.SkipList.Towers.{some_rows, IsTowers}
use lsm_based_on_zns_ssd.SkipList.First.{Puts}
use lsm_based_on_zns_ssd.SkipList.Put.{skip_put-Puts, skip_put-skip_get}
use lsm_based_on_zns_ssd.SkipList.Lookup.{IsSkipList, top_level, skip_get-value}

abbrev with_five : Option SkipList
with_five = skip_put (λ n. true) 9 9 5 (50 ∷ []) skip_list

abbrev first_node : Node
first_node = record { right = none; down = none; key = 5; val = 50 ∷ [] }

abbrev second_node : Node
second_node = record { right = some 1; down = none; key = 3; val = 30 ∷ [] }

abbrev upper_node : Node
upper_node = record { right = none; down = some 2; key = 3; val = 30 ∷ [] }

abbrev first_head : Node
first_head = record { right = some 2; down = none; key = head_key; val = [] }

abbrev upper_head : Node
upper_head = record { right = some 4; down = some 0; key = head_key; val = [] }

-- After `put` of 5 and then of 3, whose tower grows by a level.
abbrev pub two_keys : SkipList
two_keys = record {
  nodes = store 4 upper_node (
      store 3 upper_head (
        store 0 first_head (
          store 2 second_node (
            store 1 first_node (
              store 0 (record { right = some 1; down = none; key = head_key; val = [] })
                (λ a. none))))));
  fresh = 5;
  throws = 1;
  size = 2;
  head = some 3;
  time_stamp = 0;
  min_key = 3;
  max_key = 5;
  memory = 1_048_604;
}

two_puts : (with_five >>= skip_put (λ n. true) 9 9 3 (30 ∷ [])) ≡ some two_keys
unfolding skip_put skip_list add64
two_puts = refl

abbrev pub two_pairs : Pairs
two_pairs = (3, 30 ∷ []) ∷ (5, 50 ∷ []) ∷ []

pub two_keys-IsSkipList : IsSkipList two_keys 1 two_pairs
two_keys-IsSkipList =
    let last : Column two_keys.nodes 0 1 [] = bottom_end 1 first_node refl refl refl in
    let row : Column two_keys.nodes 0 2 ((5, 50 ∷ []) ∷ []) =
      bottom_next 2 1 second_node first_node [] refl refl refl refl last in
    record {
      sized = refl;
      rooted = top_level 3 1 two_pairs (
          upper_next 0 3 4 0 upper_head upper_node [] ((5, 50 ∷ []) ∷ []) refl refl refl refl
            (bottom_next 0 2 first_head second_node ((5, 50 ∷ []) ∷ []) refl refl refl refl row)
            (upper_end 0 4 2 upper_node ((5, 50 ∷ []) ∷ []) refl refl refl row));
      ascends =
          one_more 0 3 (30 ∷ []) ((5, 50 ∷ []) ∷ []) (omega arith)
            (one_more 4 5 (50 ∷ []) [] (omega arith) (no_pair 6));
    }

skip_get-value_example : skip_get 3 3 5 two_keys ≡ some (50 ∷ [])
skip_get-value_example =
    skip_get-value two_keys 1 two_pairs two_keys-IsSkipList 3 3 5 (omega arith) (omega arith)

fill_table-Fills_example : Fills (λ k. k ∷ []) (λ v. 0) 3 3 7 two_keys two_pairs
fill_table-Fills_example =
    fill_table-Fills (λ k. k ∷ []) (λ v. 0) two_keys 1 two_pairs two_keys-IsSkipList 3 3 7
      (omega arith) (omega arith) (omega arith)

abbrev low_head : Cell
low_head = record { at = 0; key = head_key; val = []; down = none }

abbrev low_three : Cell
low_three = record { at = 2; key = 3; val = 30 ∷ []; down = none }

abbrev low_five : Cell
low_five = record { at = 1; key = 5; val = 50 ∷ []; down = none }

abbrev high_head : Cell
high_head = record { at = 3; key = head_key; val = []; down = some 0 }

abbrev high_three : Cell
high_three = record { at = 4; key = 3; val = 30 ∷ []; down = some 2 }

two_keys-Free : Free two_keys.nodes 5
two_keys-Free a h =
    rw
      (
        ne→==_false 4 a (λ q. absurd (omega (arith, q, h))),
        ne→==_false 3 a (λ q. absurd (omega (arith, q, h))),
        ne→==_false 0 a (λ q. absurd (omega (arith, q, h))),
        ne→==_false 2 a (λ q. absurd (omega (arith, q, h))),
        ne→==_false 1 a (λ q. absurd (omega (arith, q, h))),
      )
      refl

pub two_keys-IsTowers : IsTowers two_keys 2 two_pairs
two_keys-IsTowers = record {
  rows = (low_head, low_three ∷ low_five ∷ []) ∷ (high_head, high_three ∷ []) ∷ [];
  towers =
      some_rows low_head (low_three ∷ low_five ∷ []) ((high_head, high_three ∷ []) ∷ []) high_head
        (high_three ∷ [])
        (next_cell low_head low_three (low_five ∷ []) refl
          (next_cell low_three low_five [] refl (last_cell low_five refl)))
        refl refl (cell_and low_three (low_five ∷ []) refl (cell_and low_five [] refl no_cell))
        (cell_and low_three (low_five ∷ []) (omega arith)
          (cell_and low_five [] (omega arith) no_cell))
        (upper_row low_head (low_three ∷ low_five ∷ []) high_head (high_three ∷ []) [] high_head
          (high_three ∷ []) (next_cell high_head high_three [] refl (last_cell high_three refl))
          refl refl (above_take 4 [] low_three (low_five ∷ []) (above_end (low_five ∷ [])))
          (top_row high_head (high_three ∷ [])));
  counted = refl;
  same = refl;
  ascends = two_keys-IsSkipList.ascends;
  free = two_keys-Free;
  sized = refl;
}

skip_put-Puts_example :
    (s' : SkipList) × (skip_put (λ n. true) 3 3 4 (44 ∷ []) two_keys ≡ some s')
    × Puts 4 (44 ∷ []) two_keys 2 two_pairs s'
skip_put-Puts_example =
    skip_put-Puts (λ n. true) 4 (44 ∷ []) (omega arith) 3 3 2 two_keys two_pairs two_keys-IsTowers
      (omega arith) (omega arith) (omega arith)

skip_put-skip_get_example :
    (skip_put (λ n. true) 5 4 3 (33 ∷ []) two_keys >>= skip_get 5 4 3) ≡ some (33 ∷ [])
skip_put-skip_get_example =
    skip_put-skip_get (λ n. true) 3 (33 ∷ []) (omega arith) 5 4 2 3 two_keys two_pairs
      two_keys-IsTowers (omega arith) (omega arith) (omega arith)
