-- ===== src/SkipList/Put.antt =====
-- `SkipList::put` of src/LSM-Tree/SkipList.cpp as a whole.
use lsm_based_on_zns_ssd.Base.{
  ℕ, ◌+◌, ◌≤◌, ◌<◌, ◌≡◌, refl, sym, ap, ◌∙◌, arith, Bool, if◌then◌else◌, ◌==◌, List, Option, some,
  ◌>>=◌, length, u64_mod,
}
use lsm_based_on_zns_ssd.SkipList.Memory.{SkipList, head_key, skip_put, skip_get}
use lsm_based_on_zns_ssd.SkipList.Columns.{Pairs, value_of}
use lsm_based_on_zns_ssd.SkipList.Cells.{Row}
use lsm_based_on_zns_ssd.SkipList.Towers.{
  Towers, no_row, some_rows, lowest_pairs, IsTowers, put_pair, value_of-put_pair, length-put_pair,
}
use lsm_based_on_zns_ssd.SkipList.First.{Puts, first_put}
use lsm_based_on_zns_ssd.SkipList.PutRows.{put_rows}
use lsm_based_on_zns_ssd.SkipList.Rooted.{towers-IsSkipList}
use lsm_based_on_zns_ssd.SkipList.Lookup.{skip_get-value}

module _ (coin : ℕ → Bool) (key : ℕ) (value : List ℕ) (inside : key < head_key) where
  -- From a list in order, for a key below the one of the heads, with fuel for the levels and one more and for the
  -- pairs and one more, and room for the count, `put` returns, whatever the coin, a list in order with the pairs in
  -- which the key has the value, in place of its old one if it was there, and with at most one level more.
  pub skip_put-Puts :
      (fuel wide level : ℕ) (s : SkipList) (pairs : Pairs)
      → IsTowers s level pairs
      → length pairs < wide
      → level + 1 ≤ fuel
      → length pairs + 1 < u64_mod
      → (s' : SkipList) × (skip_put coin fuel wide key value s ≡ some s')
        × Puts key value s level pairs s'
  skip_put-Puts fuel wide level s pairs w short enough fits =
      by_rows s.head w.rows w.towers refl w.counted w.same
    where
      by_rows :
          (head : Option ℕ) (rows : List Row)
          → Towers s.nodes head rows
          → s.head ≡ head
          → length rows ≡ level
          → lowest_pairs rows ≡ pairs
          → (s' : SkipList) × (skip_put coin fuel wide key value s ≡ some s')
            × Puts key value s level pairs s'
      by_rows _ _ no_row at counted same =
          first_put coin key value inside fuel wide level s pairs w at (sym same)
            (omega (arith, enough))
      by_rows _ _ (some_rows h cs rows t ts linked head down downs low upper) at counted same =
          put_rows coin key value inside fuel wide level s pairs w h cs rows t ts linked head down
            downs low upper at counted same short enough fits

  -- From a list in order, under the same conditions, `get` after `put` returns, whatever the coin, for the key the
  -- value that was put, and for each other key the value that it had.
  pub skip_put-skip_get :
      (fuel wide level k : ℕ) (s : SkipList) (pairs : Pairs)
      → IsTowers s level pairs
      → length pairs + 1 < wide
      → level + 3 ≤ fuel
      → length pairs + 1 < u64_mod
      → (skip_put coin fuel wide key value s >>= skip_get fuel wide k)
        ≡ some (if key == k then value else value_of k pairs)
  skip_put-skip_get fuel wide level k s pairs w short enough fits =
      let (s', run, u) =
        skip_put-Puts fuel wide level s pairs w (omega (arith, short)) (omega (arith, enough))
          fits in
      let (top, less, list) =
        towers-IsSkipList s' u.new_level (put_pair key value pairs) u.towers in
      rw run (
        skip_get-value s' top (put_pair key value pairs) list fuel wide k
          (omega (arith, length-put_pair key value pairs, short))
          (omega (arith, less, u.grows, enough))
        ∙ ap some (value_of-put_pair k key value pairs))
