-- ===== src/Kv/Merged.antt =====
-- The merge of tables in src/LSM-Tree/kvstore.cc as a whole: from the pairs of the tables to the files.
use lsm_based_on_zns_ssd.Base.{
  ℕ, ◌+◌, ◌≤◌, ◌<◌, ◌≡◌, sym, ap, subst, ◌∙◌, arith, Bool, List, [], some, get_elem?, length,
}
use lsm_based_on_zns_ssd.Table.Build.{initial_size}
use lsm_based_on_zns_ssd.SkipList.Columns.{Pairs, Ascends}
use lsm_based_on_zns_ssd.Kv.Merge.{MinKey, first_iters, merge_tables}
use lsm_based_on_zns_ssd.Kv.Newest.{find_pair, newest}
use lsm_based_on_zns_ssd.Kv.Heads.{Settled, AllAscend, total}
use lsm_based_on_zns_ssd.Kv.MergeLoop.{flat, keep, merge_loop-Merged}
use lsm_based_on_zns_ssd.Kv.First.{SettledFrom, Starts, first_iters-Starts}

Settled-base : (iters : List Pairs) (m : MinKey) → SettledFrom 0 iters m → Settled iters m
Settled-base iters m w = record {
  sound = λ k n e.
      let (i, p, at) = w.sound k n e in
      let same : n ≡ i = omega (arith, p) in
      let (v, rest, here) = at in (v, rest, ap (get_elem? iters) same ∙ here);
  complete = λ k i at. w.complete k i at ∙ ap some (omega arith);
}

-- With rounds for the pairs of the tables, and fuel for `update`, the merge of tables that are each in order of the
-- keys, the oldest table first, gives files. Their pairs, one file after the other, are in order of the keys with no
-- key twice, and hold of each key the value that the newest table with the key has. At the last level they hold
-- nothing of a key whose newest value is the mark of a deletion.
pub merge_tables-Merged :
    (fuel turns : ℕ) (last_level : Bool) (tables : List Pairs)
    → AllAscend 0 tables
    → total tables < fuel
    → total tables + length tables ≤ turns
    → (files : List Pairs) × (merge_tables fuel turns last_level tables ≡ some files)
      × Ascends 0 (flat files)
      × ((key : ℕ) → find_pair key (flat files) ≡ keep last_level (newest key tables))
unfolding merge_tables
merge_tables-Merged fuel turns last_level tables up enough some_turns =
    let s : Starts 0 tables (first_iters 0 tables) = first_iters-Starts 0 tables up in
    let r : List Pairs × MinKey = first_iters 0 tables in
    let (files, run, f) =
      merge_loop-Merged 0 fuel turns last_level (r.0) (r.1) [] initial_size
        (Settled-base (r.0) (r.1) s.settled) s.ordered s.sorted (omega (arith, s.smaller, enough))
        (omega (arith, s.smaller, s.same_length, some_turns)) in
    (
      files,
      run,
      subst (Ascends 0) (sym f.holds) f.ascends,
      λ key. ap (find_pair key) f.holds ∙ f.newest_kept key ∙ ap (keep last_level) (s.kept key),
    )
