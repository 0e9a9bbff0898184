-- ===== src/SkipList/Memory.antt =====
-- The class `SkipList` of src/LSM-Tree/SkipList.cpp. The heap is a function from addresses to nodes, and `fresh` the
-- next address. `rand() & 1` is the parameter `coin`, a function from the number of a throw. Strings are lists of
-- bytes. `none` is the use of an address without a node, or a loop that does not end.
use lsm_based_on_zns_ssd.Base.{
  ℕ, zero, suc, ◌+◌, Bool, true, false, if◌then◌else◌, ltb, leb, ◌==◌, List, [], ◌∷◌, Option, none,
  some, ◌>>=◌, add64,
}
use lsm_based_on_zns_ssd.Table.Build.{initial_size}

pub record Node : Type 0 where
  pub right : Option ℕ
  pub down : Option ℕ
  pub key : ℕ
  pub val : List ℕ

pub record SkipList : Type 0 where
  pub nodes : ℕ → Option Node
  pub fresh : ℕ
  pub throws : ℕ
  pub size : ℕ
  pub head : Option ℕ
  pub time_stamp : ℕ
  pub min_key : ℕ
  pub max_key : ℕ
  pub memory : ℕ

-- `INT64_MAX` and `INT64_MIN` as `uint64_t`, and the key `-1` of a head.
abbrev pub int64_max : ℕ
int64_max = 9_223_372_036_854_775_807

abbrev pub int64_min : ℕ
int64_min = 9_223_372_036_854_775_808

abbrev pub head_key : ℕ
head_key = 18_446_744_073_709_551_615

unfoldable pub skip_list : SkipList
skip_list = record {
  nodes = λ a. none;
  fresh = 0;
  throws = 0;
  size = 0;
  head = none;
  time_stamp = 0;
  min_key = int64_max;
  max_key = 0;
  memory = initial_size;
}

-- The loop to the right, as long as the next key passes the test.
unfoldable pub go_right : ℕ → (ℕ → Bool) → (ℕ → Option Node) → ℕ → Option ℕ
go_right zero before nodes p = none
go_right (suc fuel) before nodes p = nodes p >>= λ (node : Node). elim node.right [
  | none ↦ some p
  | some q ↦ nodes q >>= λ (next : Node).
      let rest = go_right fuel before nodes q in if before next.key then rest else some p
]

-- The loop of `get`, from the node `p` on, with fuel for the levels and for the nodes of a level.
unfoldable pub skip_get_loop : ℕ → ℕ → ℕ → (ℕ → Option Node) → Option ℕ → Option (List ℕ)
unfolding go_right
skip_get_loop zero wide key nodes p = none
skip_get_loop (suc fuel) wide key nodes none = some []
skip_get_loop (suc fuel) wide key nodes (some p) = do
  a ← go_right wide (λ k. ltb k key) nodes p
  node ← nodes a
  let lower = skip_get_loop fuel wide key nodes node.down
  elim node.right [
    | none ↦ lower
    | some q ↦ nodes q >>= λ (next : Node). if next.key == key then some next.val else lower
  ]

unfoldable pub skip_get : ℕ → ℕ → ℕ → SkipList → Option (List ℕ)
unfolding skip_get_loop
skip_get fuel wide key s =
    if s.size == 0 then some [] else skip_get_loop fuel wide key s.nodes s.head

-- `pathList`, the last one first: the last node of each level whose key is not above `key`.
unfoldable pub path_list : ℕ → ℕ → ℕ → (ℕ → Option Node) → Option ℕ → List ℕ → Option (List ℕ)
unfolding go_right
path_list zero wide key nodes p path = none
path_list (suc fuel) wide key nodes none path = some path
path_list (suc fuel) wide key nodes (some p) path = do
  a ← go_right wide (λ k. leb k key) nodes p
  node ← nodes a
  path_list fuel wide key nodes node.down (a ∷ path)

abbrev pub store : ℕ → Node → (ℕ → Option Node) → ℕ → Option Node
store a n nodes b = if a == b then some n else nodes b

-- The loop that replaces the value in a tower; the path is given from its end.
unfoldable pub replace_values : ℕ → List ℕ → List ℕ → (ℕ → Option Node) → Option (ℕ → Option Node)
replace_values key value [] nodes = some nodes
replace_values key value (a ∷ path) nodes = nodes a >>= λ (node : Node).
    let rest = replace_values key value path (store a (record node { val = value }) nodes) in
    if node.key == key then rest else some nodes

-- The loop that inserts a tower from below: the state, the top of the tower, and `insertUp` at its end.
unfoldable pub insert_up :
    (ℕ → Bool) → ℕ → List ℕ → List ℕ → Option ℕ → SkipList → Option (SkipList × Option ℕ × Bool)
insert_up coin key value [] down_node s = some (s, down_node, true)
insert_up coin key value (a ∷ path) down_node s = s.nodes a >>= λ (node : Node).
    let new : Node = record { right = node.right; down = down_node; key = key; val = value } in
    let s' = record s {
      nodes = store a (record node { right = some s.fresh }) (store s.fresh new s.nodes);
      fresh = s.fresh + 1;
      throws = s.throws + 1;
    } in
    let rest = insert_up coin key value path (some s.fresh) s' in
    if coin s.throws then rest else some (s', some s.fresh, false)

-- A new level, with a head and one node.
unfoldable pub add_level : ℕ → List ℕ → Option ℕ → SkipList → SkipList
add_level key value down_node s =
    let node : Node = record { right = none; down = down_node; key = key; val = value } in
    let top : Node = record {
      right = some (s.fresh + 1);
      down = s.head;
      key = head_key;
      val = [];
    } in
    record s {
      nodes = store (s.fresh + 1) node (store s.fresh top s.nodes);
      fresh = s.fresh + 2;
      head = some s.fresh;
    }

-- `pathList.back()->key == key`.
unfoldable pub ends_at : ℕ → List ℕ → (ℕ → Option Node) → Option Bool
ends_at key [] nodes = some false
ends_at key (a ∷ path) nodes = nodes a >>= λ (node : Node). some (node.key == key)

unfoldable pub skip_put : (ℕ → Bool) → ℕ → ℕ → ℕ → List ℕ → SkipList → Option SkipList
unfolding path_list replace_values insert_up add_level ends_at
skip_put coin fuel wide key value s = do
  let s₁ = record s {
    min_key = if ltb key s.min_key then key else s.min_key;
    max_key = if ltb s.max_key key then key else s.max_key;
  }
  path ← path_list fuel wide key s.nodes s.head []
  here ← ends_at key path s.nodes
  if here
      then (replace_values key value path s.nodes >>= λ nodes. some (record s₁ { nodes = nodes }))
      else (insert_up coin key value path none (record s₁ { size = add64 s.size 1 }) >>= λ r.
          some (if r.2 then add_level key value (r.1) (r.0) else r.0))

-- The loop of `GetFirstNode`.
unfoldable pub first_node_loop : ℕ → (ℕ → Option Node) → Option ℕ → Option ℕ → Option (Option ℕ)
first_node_loop zero nodes p q = none
first_node_loop (suc fuel) nodes none q = some q
first_node_loop (suc fuel) nodes (some a) q =
    nodes a >>= λ (node : Node). first_node_loop fuel nodes node.down (some a)

unfoldable pub get_first_node : ℕ → SkipList → Option (Option ℕ)
unfolding first_node_loop
get_first_node fuel s = first_node_loop fuel s.nodes s.head none

-- The loops of `clear` over a level and over the levels: `delete` takes a node away.
unfoldable pub delete_level : ℕ → (ℕ → Option Node) → ℕ → Option (ℕ → Option Node)
delete_level zero nodes p = none
delete_level (suc fuel) nodes p = nodes p >>= λ (node : Node).
    let left : ℕ → Option Node = λ b. if p == b then none else nodes b in
    elim node.right [ none ↦ some left | some q ↦ delete_level fuel left q ]

unfoldable pub delete_levels : ℕ → ℕ → (ℕ → Option Node) → ℕ → Option (ℕ → Option Node)
unfolding delete_level
delete_levels zero wide nodes p = none
delete_levels (suc fuel) wide nodes p = nodes p >>= λ (node : Node).
    delete_level wide nodes p >>= λ left. elim node.down [
      | none ↦ some left
      | some d ↦ delete_levels fuel wide left d
    ]

unfoldable pub skip_clear : ℕ → ℕ → SkipList → Option SkipList
unfolding delete_levels
skip_clear fuel wide s = elim s.head [
  | none ↦ some s
  | some p ↦ delete_levels fuel wide s.nodes p >>= λ nodes. some (record s {
    nodes = nodes;
    head = none;
    size = 0;
    memory = 10_272;
    min_key = int64_max;
    max_key = int64_min;
  })
]

unfoldable pub get_time_stamp : SkipList → ℕ × SkipList
get_time_stamp s = (s.time_stamp, record s { time_stamp = add64 s.time_stamp 1 })

unfoldable pub get_size : SkipList → ℕ
get_size s = s.size

unfoldable pub get_min_max_key : SkipList → ℕ × ℕ
get_min_max_key s = (s.min_key, s.max_key)
