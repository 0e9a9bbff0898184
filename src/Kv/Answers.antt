-- ===== src/Kv/Answers.antt =====
-- What `get` of src/LSM-Tree/kvstore.cc has to answer, from the pairs of the memory table and of the tables, and what
-- the tables answer.

use lsm_based_on_zns_ssd.Base.{
  ℕ, ◌<◌, ◌≡◌, refl, sym, ap, ◌∙◌, Bool-cases, inl, inr, if◌then◌else◌, List, [], ◌∷◌, ◌++◌, some,
  length,
}
use lsm_based_on_zns_ssd.Table.Build.{Table, PoolCall, get_value}
use lsm_based_on_zns_ssd.Table.Pairs.{lookup}
use lsm_based_on_zns_ssd.Table.Stores.{Stores, get_value-Stores}
use lsm_based_on_zns_ssd.SkipList.Columns.{Pairs, value_of}
use lsm_based_on_zns_ssd.Kv.State.{is_empty, backwards, unmarked, get_from_tables, get_from_levels}

abbrev pub first_of : List ℕ → List ℕ → List ℕ
first_of a b = if is_empty a then b else a

pub first_of-empty : (a b c : List ℕ) → first_of (first_of a b) c ≡ first_of a (first_of b c)
first_of-empty [] b c = refl
first_of-empty (x ∷ xs) b c = refl

-- The value in the last table that has one that is not empty, and the one of the first level that has one.
abbrev pub newest_value : ℕ → List Pairs → List ℕ
newest_value key [] = []
newest_value key (ps ∷ newer) = first_of (newest_value key newer) (lookup key ps)

abbrev pub levels_value : ℕ → List (List Pairs) → List ℕ
levels_value key [] = []
levels_value key (tables ∷ lower) = first_of (newest_value key tables) (levels_value key lower)

abbrev pub store_value : ℕ → Pairs → List (List Pairs) → List ℕ
store_value key memory levels = unmarked (first_of (value_of key memory) (levels_value key levels))

module _ (hash : ℕ → List ℕ) (fuel : ℕ) where
  -- A table with pairs in order, fewer than `fuel`.
  pub record IsTable (t : Table) (ps : Pairs) : Type 0 where
    pub stores : Stores hash t ps
    pub short : length ps < fuel

  pub data Tables : List Table → List Pairs → Type 0 where
    no_table : Tables [] []
    next_table :
        (t : Table) (ps : Pairs) (ts : List Table) (pss : List Pairs)
        → IsTable t ps
        → Tables ts pss
        → Tables (t ∷ ts) (ps ∷ pss)

  pub data Levels : List (List Table) → List (List Pairs) → Type 0 where
    no_level : Levels [] []
    next_level :
        (ts : List Table) (pss : List Pairs) (tss : List (List Table)) (psss : List (List Pairs))
        → Tables ts pss
        → Levels tss psss
        → Levels (ts ∷ tss) (pss ∷ psss)

  get_value-IsTable :
      (key : ℕ) (t : Table) (ps : Pairs)
      → IsTable t ps
      → (calls : List PoolCall) × (get_value hash fuel key t ≡ some (lookup key ps, calls))
  get_value-IsTable key t ps w = get_value-Stores hash t ps w.stores key fuel w.short

  -- The value in the first table that has one.
  abbrev first_value : ℕ → List Pairs → List ℕ
  first_value key [] = []
  first_value key (ps ∷ pss) = first_of (lookup key ps) (first_value key pss)

  first_value-append :
      (key : ℕ) (pss : List Pairs) (ps : Pairs)
      → first_value key (pss ++ (ps ∷ [])) ≡ first_of (first_value key pss) (lookup key ps)
  first_value-append key [] ps = first_of_nil (lookup key ps)
    where
      first_of_nil : (a : List ℕ) → first_of a [] ≡ a
      first_of_nil [] = refl
      first_of_nil (x ∷ xs) = refl
  first_value-append key (qs ∷ pss) ps =
      ap (first_of (lookup key qs)) (first_value-append key pss ps)
      ∙ sym (first_of-empty (lookup key qs) (first_value key pss) (lookup key ps))

  first_value-backwards :
      (key : ℕ) (pss : List Pairs) → first_value key (backwards pss) ≡ newest_value key pss
  first_value-backwards key [] = refl
  first_value-backwards key (ps ∷ pss) =
      first_value-append key (backwards pss) ps
      ∙ ap (λ a. first_of a (lookup key ps)) (first_value-backwards key pss)

  pub Tables-append :
      (ts us : List Table) (pss qss : List Pairs)
      → Tables ts pss
      → Tables us qss
      → Tables (ts ++ us) (pss ++ qss)
  Tables-append _ us _ qss no_table v = v
  Tables-append _ us _ qss (next_table t ps ts pss w more) v =
      next_table t ps (ts ++ us) (pss ++ qss) w (Tables-append ts us pss qss more v)

  Tables-backwards :
      (ts : List Table) (pss : List Pairs) → Tables ts pss → Tables (backwards ts) (backwards pss)
  Tables-backwards _ _ no_table = no_table
  Tables-backwards _ _ (next_table t ps ts pss w more) =
      Tables-append (backwards ts) (t ∷ []) (backwards pss) (ps ∷ []) (Tables-backwards ts pss more)
        (next_table t ps [] [] w no_table)

  module _ (key : ℕ) where
    -- The loop over the tables stops at the first that has a value.
    get_from_tables-first :
        (ts : List Table) (pss : List Pairs)
        → Tables ts pss
        → (calls : List PoolCall) × (get_from_tables hash fuel key ts
            ≡ some (first_value key pss, calls))
    unfolding get_from_tables
    get_from_tables-first _ _ no_table = ([], refl)
    get_from_tables-first _ _ (next_table t ps ts pss w more) =
        let (calls, e) = get_value-IsTable key t ps w in
        let (others, run) = get_from_tables-first ts pss more in
        elim (Bool-cases (is_empty (lookup key ps))) [
          | inl none_here ↦ (calls ++ others, rw (e, none_here, run) refl)
          | inr here ↦ (calls, rw (e, here) refl)
        ]

    pub get_from_levels-value :
        (tss : List (List Table)) (psss : List (List Pairs))
        → Levels tss psss
        → (calls : List PoolCall) × (get_from_levels hash fuel key tss
            ≡ some (levels_value key psss, calls))
    unfolding get_from_levels
    get_from_levels-value _ _ no_level = ([], refl)
    get_from_levels-value _ _ (next_level ts pss tss psss w more) =
        let (calls, e) =
          get_from_tables-first (backwards ts) (backwards pss) (Tables-backwards ts pss w) in
        let e' : get_from_tables hash fuel key (backwards ts) ≡ some (newest_value key pss, calls) =
          e ∙ ap (λ a. some (a, calls)) (first_value-backwards key pss) in
        let (others, run) = get_from_levels-value tss psss more in
        elim (Bool-cases (is_empty (newest_value key pss))) [
          | inl none_here ↦ (calls ++ others, rw (e', none_here, run) refl)
          | inr here ↦ (calls, rw (e', here) refl)
        ]
