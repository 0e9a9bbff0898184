-- ===== src/SkipList/Lookup.antt =====
-- `SkipList::get` (src/LSM-Tree/SkipList.cpp) against the pairs that a skip list stands for.
use lsm_based_on_zns_ssd.Base.{
  ℕ, ◌+◌, ◌≤◌, ◌<◌, ◌≡◌, refl, sym, zero, suc, ap, ◌∙◌, arith, [], ◌∷◌, Option, none, some, length,
  eq→==, ne→==_false, ℕ_discrete,
}
use lsm_based_on_zns_ssd.SkipList.Memory.{Node, SkipList, skip_get, skip_get_loop}
use lsm_based_on_zns_ssd.SkipList.Columns.{Pairs, Ascends, value_of, Column}
use lsm_based_on_zns_ssd.SkipList.Get.{skip_get_loop-value, loop-none}

-- The head: there is no level, or it is the first node of the top level.
pub data Rooted (nodes : ℕ → Option Node) : Option ℕ → ℕ → Pairs → Type 0 where
  no_level : Rooted nodes none 0 []
  top_level :
      (a level : ℕ) (pairs : Pairs) → Column nodes level a pairs → Rooted nodes (some a) level pairs

pub record IsSkipList (s : SkipList) (level : ℕ) (pairs : Pairs) : Type 0 where
  pub sized : s.size ≡ length pairs
  pub rooted : Rooted s.nodes s.head level pairs
  pub ascends : Ascends 0 pairs

root_value :
    (fuel wide key level : ℕ) (pairs : Pairs) (nodes : ℕ → Option Node) (head : Option ℕ)
    → Rooted nodes head level pairs
    → Ascends 0 pairs
    → length pairs < wide
    → level + 2 ≤ fuel
    → skip_get_loop fuel wide key nodes head ≡ some (value_of key pairs)
root_value zero wide key level pairs nodes head r w h k = absurd (omega (arith, k))
root_value (suc fuel) wide key _ _ nodes _ no_level w h k = loop-none nodes key fuel wide
root_value (suc fuel) wide key _ _ nodes _ (top_level a level pairs c) w h k =
    skip_get_loop-value nodes key (suc fuel) wide level a 0 pairs c w h k

no_pairs : (key : ℕ) (pairs : Pairs) → length pairs ≡ 0 → value_of key pairs ≡ []
no_pairs key [] e = refl
no_pairs key (p ∷ pairs) e = absurd (omega (arith, e))

-- On a skip list in order `get` returns the value of the key, or the empty string if it is not there.
pub skip_get-value :
    (s : SkipList) (level : ℕ) (pairs : Pairs)
    → IsSkipList s level pairs
    → (fuel wide key : ℕ) → length pairs < wide
    → level + 2 ≤ fuel
    → skip_get fuel wide key s ≡ some (value_of key pairs)
unfolding skip_get
skip_get-value s level pairs w fuel wide key h k = elim (ℕ_discrete s.size 0) [
  | yes p ↦ rw (eq→== s.size 0 p) (ap some (sym (no_pairs key pairs (sym w.sized ∙ p))))
  | no p ↦
      rw (ne→==_false s.size 0 p)
        (root_value fuel wide key level pairs s.nodes s.head w.rooted w.ascends h k)
]
