-- ===== src/Kv/MergeLoop.antt =====
-- The main loop of the merge in src/LSM-Tree/kvstore.cc, against the newest values of the keys.
use mathlib.Core.List.{append_assoc}
use lsm_based_on_zns_ssd.Base.{
  ℕ, zero, suc, ◌+◌, ◌≤◌, ◌<◌, ◌≡◌, ◌≢◌, refl, sym, ap, ◌∙◌, arith, Bool, true, false, ◌&&◌,
  if◌then◌else◌, ltb, ◌==◌, List, [], ◌∷◌, ◌++◌, Option, none, some, inl, inr, Bool-cases,
  get_elem?, set, length, length-set, add64, ℕ_discrete, eq→==, ne→==_false,
}
use lsm_based_on_zns_ssd.Table.Build.{initial_size}
use lsm_based_on_zns_ssd.Zones.State.{default_sstable_size}
use lsm_based_on_zns_ssd.SkipList.Columns.{Ascends-weaken, Pairs, Ascends, no_pair, one_more}
use lsm_based_on_zns_ssd.Kv.State.{del_mark, same_string}
use lsm_based_on_zns_ssd.Kv.Merge.{MinKey, find_min, update, merge_loop}
use lsm_based_on_zns_ssd.Kv.MinMap.{IsSorted, no_key, next_key}
use lsm_based_on_zns_ssd.Kv.Newest.{find_pair, newest, newest-none, find_pair-below}
use lsm_based_on_zns_ssd.Kv.Heads.{Settled, AllAscend, total, total-drop}
use lsm_based_on_zns_ssd.Kv.Update.{update-Updates}
use lsm_based_on_zns_ssd.Kv.Pop.{
  popped-At, popped-inside, popped-Pending, popped-AllAscend, newest-popped, newest-other,
}

-- The pairs of the files, one file after the other.
abbrev pub flat : List Pairs → Pairs
flat [] = []
flat (file ∷ files) = file ++ flat files

-- A deleted key goes at the last level.
abbrev pub keep : Bool → Option (List ℕ) → Option (List ℕ)
keep last_level none = none
keep last_level (some v) = if last_level && same_string v del_mark then none else some v

-- From `iters` on, the files hold `new_table` and then each key of the tables once, in order, with its newest value.
pub record Merges (low : ℕ) (last_level : Bool) (iters : List Pairs) (new_table : Pairs)
    (files : List Pairs) : Type 0 where
  pub out : Pairs
  pub holds : flat files ≡ new_table ++ out
  pub ascends : Ascends low out
  pub newest_kept : (key : ℕ) → find_pair key out ≡ keep last_level (newest key iters)

abbrev pub Merged : ℕ → ℕ → ℕ → Bool → List Pairs → MinKey → Pairs → ℕ → Type 0
Merged low fuel turns last_level iters m new_table size =
    (files : List Pairs) × (merge_loop fuel turns last_level iters m new_table size ≡ some files)
    × Merges low last_level iters new_table files

merge_loop-end :
    (low fuel turns : ℕ) (last_level : Bool) (iters : List Pairs) (new_table : Pairs) (size : ℕ)
    → Settled iters []
    → Merged low (suc fuel) turns last_level iters [] new_table size
unfolding merge_loop find_min
merge_loop-end low fuel turns last_level iters new_table size w = (
  if 0 == length new_table then [] else new_table ∷ [],
  refl,
  record {
    out = [];
    holds = whole new_table;
    ascends = no_pair low;
    newest_kept = λ key. rw (newest-none key iters (ends key)) refl;
  },
)
  where
    whole : (ps : Pairs) → flat (if 0 == length ps then [] else ps ∷ []) ≡ ps ++ []
    whole [] = refl
    whole (p ∷ ps) = rw (ne→==_false 0 (suc (length ps)) (λ e. absurd (omega (arith, e)))) refl

    ends : (key i : ℕ) (ps : Pairs) → get_elem? iters i ≡ some ps → find_pair key ps ≡ none
    ends key i [] e = refl
    ends key i ((k, v) ∷ rest) e =
        let clash : none ≡ some i = w.complete k i (v, rest, e) in absurd (ground arith)

module _ (low fuel turns : ℕ) (last_level : Bool) (iters : List Pairs) (k i : ℕ) (m : MinKey)
    (w : Settled iters ((k, i) ∷ m)) (ascend : AllAscend low iters) (up : low ≤ k)
    (sorted : IsSorted (suc k) m) (v : List ℕ) (rest : Pairs)
    (e : get_elem? iters i ≡ some ((k, v) ∷ rest)) (r : List Pairs × MinKey)
    (run : update turns (set iters i rest) m i ≡ some r)
    (same_newest : (key : ℕ) → newest key (r.0) ≡ newest key (set iters i rest)) where
  -- The rest of the merge, for a key that is not this one, and for this one.
  rest_kept :
      (key : ℕ) → k ≢ key → keep last_level (newest key (r.0)) ≡ keep last_level (newest key iters)
  rest_kept key ne =
      ap (keep last_level)
        (same_newest key ∙ newest-other low iters k i m w ascend sorted v rest e key ne)

  this_newest : newest k iters ≡ some v
  this_newest = newest-popped low iters k i m w ascend sorted v rest e

  skipped-kept :
      (out : Pairs)
      → (last_level && same_string v del_mark) ≡ true
      → Ascends (suc k) out
      → ((key : ℕ) → find_pair key out ≡ keep last_level (newest key (r.0)))
      → (key : ℕ) → find_pair key out ≡ keep last_level (newest key iters)
  skipped-kept out mark more kept key = elim (ℕ_discrete k key) [
    | yes p ↦
        find_pair-below (suc k) key out more (omega (arith, p))
        ∙ sym (ap (λ x. keep last_level (newest x iters)) (sym p) ∙ rw (this_newest, mark) refl)
    | no p ↦ kept key ∙ rest_kept key p
  ]

  added-kept :
      (out : Pairs)
      → (last_level && same_string v del_mark) ≡ false
      → ((key : ℕ) → find_pair key out ≡ keep last_level (newest key (r.0)))
      → (key : ℕ) → find_pair key ((k, v) ∷ out) ≡ keep last_level (newest key iters)
  added-kept out mark kept key = elim (ℕ_discrete k key) [
    | yes p ↦
        rw (eq→== k key p)
          (sym (ap (λ x. keep last_level (newest x iters)) (sym p) ∙ rw (this_newest, mark) refl))
    | no p ↦ rw (ne→==_false k key p) (kept key ∙ rest_kept key p)
  ]

  module _ (new_table : Pairs) (size : ℕ) where
    more : ℕ
    more = add64 size (length v + 1 + 12)

    merge_loop-skipped :
        (last_level && same_string v del_mark) ≡ true
        → Merged (suc k) fuel turns last_level (r.0) (r.1) new_table size
        → Merged low (suc fuel) turns last_level iters ((k, i) ∷ m) new_table size
    unfolding merge_loop
    merge_loop-skipped mark (files, go, f) = (
      files,
      rw (e, run, mark) go,
      record {
        out = f.out;
        holds = f.holds;
        ascends = Ascends-weaken (suc k) low f.out (omega (arith, up)) f.ascends;
        newest_kept = skipped-kept f.out mark f.ascends f.newest_kept;
      },
    )

    module _ (mark : (last_level && same_string v del_mark) ≡ false) where
      merge_loop-written :
          ltb default_sstable_size (add64 size (length v + 1 + 12)) ≡ true
          → Merged
              (suc k)
              fuel
              turns
              last_level
              (r.0)
              (r.1)
              ((k, v) ∷ [])
              (initial_size + length v + 1 + 12)
          → Merged low (suc fuel) turns last_level iters ((k, i) ∷ m) new_table size
      unfolding merge_loop
      merge_loop-written full (files, go, f) = (
        new_table ∷ files,
        rw (e, run, mark, full, go) refl,
        record {
          out = (k, v) ∷ f.out;
          holds = ap (λ ps. new_table ++ ps) f.holds;
          ascends = one_more low k v f.out up f.ascends;
          newest_kept = added-kept f.out mark f.newest_kept;
        },
      )

      merge_loop-added :
          ltb default_sstable_size (add64 size (length v + 1 + 12)) ≡ false
          → Merged
              (suc k)
              fuel
              turns
              last_level
              (r.0)
              (r.1)
              (new_table ++ ((k, v) ∷ []))
              (add64 size (length v + 1 + 12))
          → Merged low (suc fuel) turns last_level iters ((k, i) ∷ m) new_table size
      unfolding merge_loop
      merge_loop-added full (files, go, f) = (
        files,
        rw (e, run, mark, full) go,
        record {
          out = (k, v) ∷ f.out;
          holds = f.holds ∙ append_assoc new_table ((k, v) ∷ []) f.out;
          ascends = one_more low k v f.out up f.ascends;
          newest_kept = added-kept f.out mark f.newest_kept;
        },
      )

-- With rounds for the pairs that are left, and fuel for `update`, the loop ends.
pub merge_loop-Merged :
    (low fuel turns : ℕ) (last_level : Bool) (iters : List Pairs) (m : MinKey) (new_table : Pairs)
    (size : ℕ)
    → Settled iters m
    → AllAscend low iters
    → IsSorted low m
    → total iters < fuel
    → total iters + length iters ≤ turns
    → Merged low fuel turns last_level iters m new_table size
merge_loop-Merged low zero turns last_level iters m new_table size w ascend sorted enough
      some_turns =
    absurd (omega (arith, enough))
merge_loop-Merged _ (suc fuel) turns last_level iters _ new_table size w ascend (no_key low) enough
      some_turns =
    merge_loop-end low fuel turns last_level iters new_table size w
merge_loop-Merged _ (suc fuel) turns last_level iters _ new_table size w ascend
      (next_key low k i m up sorted) enough some_turns =
    let (v, rest, e) = popped-At low iters k i m w ascend sorted in
    let inside : i < length iters = popped-inside low iters k i m w ascend sorted v rest e in
    let d : suc (total (set iters i rest)) ≡ total iters = total-drop iters i (k, v) rest e in
    let l : length (set iters i rest) ≡ length iters = length-set iters i rest in
    let (r, run, u) =
      update-Updates (suc k) turns (set iters i rest) m i
        (popped-Pending low iters k i m w ascend sorted v rest e)
        (popped-AllAscend low iters k i m w ascend sorted v rest e) sorted
        (omega (arith, l, inside)) (omega (arith, d, inside, some_turns)) in
    let next : (new_table : Pairs) (size : ℕ)
        → Merged (suc k) fuel turns last_level (r.0) (r.1) new_table size =
      λ new_table size.
        merge_loop-Merged (suc k) fuel turns last_level (r.0) (r.1) new_table size u.settled
          u.ordered u.sorted (omega (arith, u.smaller, d, enough))
          (omega (arith, u.smaller, u.same_length, l, d, some_turns)) in
    elim (Bool-cases (last_level && same_string v del_mark)) [
      | inl mark ↦
          merge_loop-skipped low fuel turns last_level iters k i m w ascend up sorted v rest e r run
            u.kept new_table size mark (next new_table size)
      | inr mark ↦ elim (Bool-cases (ltb default_sstable_size (add64 size (length v + 1 + 12)))) [
        | inl full ↦
            merge_loop-written low fuel turns last_level iters k i m w ascend up sorted v rest e r
              run u.kept new_table size mark full
              (next ((k, v) ∷ []) (initial_size + length v + 1 + 12))
        | inr full ↦
            merge_loop-added low fuel turns last_level iters k i m w ascend up sorted v rest e r run
              u.kept new_table size mark full
              (next (new_table ++ ((k, v) ∷ [])) (add64 size (length v + 1 + 12)))
      ]
    ]
