-- ===== src/SkipList/Get.antt =====
-- The loop of `SkipList::get` in src/LSM-Tree/SkipList.cpp finds what the lowest level holds.

use lsm_based_on_zns_ssd.Base.{
  ℕ, zero, suc, ◌+◌, ◌≤◌, ◌<◌, ◌≡◌, refl, sym, ap, ◌∙◌, arith, false, if◌then◌else◌, ltb, eq→==,
  ne→==_false, ◌==◌, [], Option, none, some, ◌>>=◌, length, ℕ_discrete,
}
use lsm_based_on_zns_ssd.SkipList.Memory.{Node, go_right, skip_get_loop}
use lsm_based_on_zns_ssd.SkipList.Columns.{
  Pairs, Ascends, value_of, Column, bottom_end, bottom_next, upper_end, upper_next, value_of-below,
  Ascends-after, value_of-at,
}
use lsm_based_on_zns_ssd.SkipList.Right.{Stops, go_right-Stops}

module _ (nodes : ℕ → Option Node) (key : ℕ) where
  module _ (fuel wide a at : ℕ) (node : Node)
      (moved : go_right wide (λ k. ltb k key) nodes a ≡ some at) (e : nodes at ≡ some node) where
    loop-last :
        node.right ≡ none
        → skip_get_loop (suc fuel) wide key nodes (some a)
          ≡ skip_get_loop fuel wide key nodes node.down
    unfolding skip_get_loop
    loop-last r = rw (skip_get_loop, moved, e, ◌>>=◌, r) refl

    loop-next :
        (b : ℕ) (next : Node)
        → node.right ≡ some b
        → nodes b ≡ some next
        → skip_get_loop (suc fuel) wide key nodes (some a)
          ≡ (if next.key == key then some next.val else skip_get_loop fuel wide key nodes node.down)
    unfolding skip_get_loop
    loop-next b next r q = rw (skip_get_loop, moved, e, ◌>>=◌, r) (rw (q, ◌>>=◌) refl)

  not_before : (k : ℕ) → ltb k key ≡ false → key < suc k
  not_before k e = ground arith

  pub loop-none : (fuel wide : ℕ) → skip_get_loop (suc fuel) wide key nodes none ≡ some []
  unfolding skip_get_loop
  loop-none fuel wide = refl

  -- What is left to do where the loop to the right has ended.
  ends :
      (fuel wide level a at low : ℕ) (ahead : Pairs)
      → go_right wide (λ k. ltb k key) nodes a ≡ some at
      → Column nodes level at ahead
      → Ascends low ahead
      → ((node next : Node) (b : ℕ)
          → nodes at ≡ some node
          → node.right ≡ some b
          → nodes b ≡ some next
          → ltb next.key key ≡ false)
      → level + 2 ≤ suc fuel
      → ((level' d : ℕ)
          → Column nodes level' d ahead
          → level' + 2 ≤ fuel
          → skip_get_loop fuel wide key nodes (some d) ≡ some (value_of key ahead))
      → skip_get_loop (suc fuel) wide key nodes (some a) ≡ some (value_of key ahead)
  ends zero wide level a at low ahead moved c w stops k lower = absurd (omega (arith, k))
  ends (suc fuel) wide _ a at low _ moved (bottom_end _ node e d r) w stops k lower =
      loop-last (suc fuel) wide a at node moved e r
      ∙ ap (skip_get_loop (suc fuel) wide key nodes) d
      ∙ loop-none fuel wide
  ends (suc fuel) wide _ a at low _ moved (bottom_next _ b node next rest e d r q c) w stops k
        lower =
      loop-next (suc fuel) wide a at node moved e b next r q ∙ elim (ℕ_discrete next.key key) [
        | yes p ↦ rw (eq→== next.key key p) refl
        | no p ↦
            let up : (low ≤ next.key) × Ascends (suc next.key) rest =
              Ascends-after key next.key next.val rest low [] w in
            let above : key < suc next.key = not_before next.key (stops node next b e r q) in
            rw (ne→==_false next.key key p) (
              ap (skip_get_loop (suc fuel) wide key nodes) d
              ∙ loop-none fuel wide
              ∙ ap some (sym (value_of-below key (suc next.key) rest (up.1) above)))
      ]
  ends (suc fuel) wide _ a at low _ moved (upper_end level _ d node pairs e l r c) w stops k lower =
      loop-last (suc fuel) wide a at node moved e r
      ∙ ap (skip_get_loop (suc fuel) wide key nodes) l
      ∙ lower level d c (omega (arith, k))
  ends (suc fuel) wide _ a at low _ moved
        (upper_next level _ b d node next skipped rest e l r q c c') w stops k lower =
      loop-next (suc fuel) wide a at node moved e b next r q ∙ elim (ℕ_discrete next.key key) [
        | yes p ↦
            rw (eq→== next.key key p)
              (ap some (sym (value_of-at key next.key next.val rest low skipped w p)))
        | no p ↦
            rw (ne→==_false next.key key p)
              (ap (skip_get_loop (suc fuel) wide key nodes) l ∙ lower level d c (omega (arith, k)))
      ]

  -- On the towers of a skip list whose keys grow, the loop returns the value of the key, or the empty string if it is
  -- not there, with fuel for two more than the levels and for one more than the pairs.
  pub skip_get_loop-value :
      (fuel wide level a low : ℕ) (pairs : Pairs)
      → Column nodes level a pairs
      → Ascends low pairs
      → length pairs < wide
      → level + 2 ≤ fuel
      → skip_get_loop fuel wide key nodes (some a) ≡ some (value_of key pairs)
  skip_get_loop-value zero wide level a low pairs c w h k = absurd (omega (arith, k))
  skip_get_loop-value (suc fuel) wide level a low pairs c w h k =
      let s : Stops nodes key wide level a pairs =
        go_right-Stops nodes key wide level a low pairs c w h in
      ends fuel wide level a s.at s.low s.ahead s.returns s.column s.ascends s.stops k
        (λ level' d c' k'.
          skip_get_loop-value fuel wide level' d s.low s.ahead c' s.ascends
            (omega (arith, h, s.fewer)) k')
      ∙ ap some s.same
