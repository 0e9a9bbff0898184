-- ===== src/Kv/Update.antt =====
-- `update` of src/LSM-Tree/kvstore.cc, against what the tables say of each key.
use lsm_based_on_zns_ssd.Base.{
  ℕ, zero, suc, ◌+◌, ◌≤◌, ◌<◌, ◌≡◌, ◌≢◌, refl, ap, subst, ◌∙◌, arith, false, ltb, lt→ltb, ltb→lt,
  Bool-cases, List, [], ◌∷◌, none, some, Option-cases, inl, inr, get_elem?, get_elem?-lt, set,
  length, length-set, ℕ_discrete,
}
use lsm_based_on_zns_ssd.SkipList.Columns.{Ascends-weaken, Pairs, Ascends, one_more}
use lsm_based_on_zns_ssd.Kv.Merge.{MinKey, find_min, set_min, update}
use lsm_based_on_zns_ssd.Kv.MinMap.{IsSorted, set_min-IsSorted}
use lsm_based_on_zns_ssd.Kv.Newest.{newest, newest-drop}
use lsm_based_on_zns_ssd.Kv.Heads.{
  At, Settled, Pending, AllAscend, total, total-drop, end-Settled, new-Settled, replaced-Pending,
  skipped-Pending, set-AllAscend,
}

-- From the tables `iters` to the result `r` nothing is lost that counts.
pub record Updates (low : ℕ) (iters : List Pairs) (r : List Pairs × MinKey) : Type 0 where
  pub settled : Settled (r.0) (r.1)
  pub ordered : AllAscend low (r.0)
  pub sorted : IsSorted low (r.1)
  pub kept : (key : ℕ) → newest key (r.0) ≡ newest key iters
  pub smaller : total (r.0) ≤ total iters
  pub same_length : length (r.0) ≡ length iters

abbrev pub Result : ℕ → ℕ → List Pairs → MinKey → ℕ → Type 0
Result low fuel iters m index =
    (r : List Pairs × MinKey) × (update fuel iters m index ≡ some r) × Updates low iters r

-- With an iterator that may have to enter, and fuel for the pairs and the older tables.
abbrev pub Does : ℕ → ℕ → List Pairs → MinKey → ℕ → Type 0
Does low fuel iters m index =
    Pending index iters m
    → AllAscend low iters
    → IsSorted low m
    → index < length iters
    → total iters + index < fuel
    → Result low fuel iters m index

-- The order of a table that has a first pair.
pub first-up : (low k : ℕ) (v : List ℕ) (rest : Pairs) → Ascends low ((k, v) ∷ rest) → low ≤ k
first-up _ _ _ _ (one_more low k v rest up more) = up

pub rest-Ascends :
    (low k : ℕ) (v : List ℕ) (rest : Pairs) → Ascends low ((k, v) ∷ rest) → Ascends (suc k) rest
rest-Ascends _ _ _ _ (one_more low k v rest up more) = more

module _ (low fuel : ℕ) (iters : List Pairs) (m : MinKey) (index : ℕ) (w : Pending index iters m)
    (ascend : AllAscend low iters) (sorted : IsSorted low m) where
  update-end : get_elem? iters index ≡ some [] → Result low (suc fuel) iters m index
  unfolding update
  update-end e = (
    (iters, m),
    rw e refl,
    record {
      settled = end-Settled iters m index w e;
      ordered = ascend;
      sorted = sorted;
      kept = λ key. refl;
      smaller = omega arith;
      same_length = refl;
    },
  )

  module _ (k : ℕ) (v : List ℕ) (rest : Pairs)
      (e : get_elem? iters index ≡ some ((k, v) ∷ rest)) where
    at : At iters index k
    at = (v, rest, e)

    up : low ≤ k
    up = first-up low k v rest (ascend index ((k, v) ∷ rest) e)

    update-new : find_min k m ≡ none → Result low (suc fuel) iters m index
    unfolding update
    update-new gone = (
      (iters, set_min k index m),
      rw (e, gone) refl,
      record {
        settled = new-Settled iters m index w k at gone;
        ordered = ascend;
        sorted = set_min-IsSorted low k index m up sorted;
        kept = λ key. refl;
        smaller = omega arith;
        same_length = refl;
      },
    )

    module _ (pos : ℕ) (there : find_min k m ≡ some pos) where
      update-replaced :
          pos < index
          → Result low fuel iters (set_min k index m) pos
          → Result low (suc fuel) iters m index
      unfolding update
      update-replaced less (r, run, u) = (r, rw (e, there, lt→ltb pos index less) run, u)

      drop_kept : index < pos → (key : ℕ) → newest key (set iters index rest) ≡ newest key iters
      drop_kept less key = newest-drop key iters index k v rest e (elim (ℕ_discrete k key) [
        | yes p ↦
            let (u, more, here) = w.sound k pos there in
            inr (pos, u, more, less, subst (λ x. get_elem? iters pos ≡ some ((x, u) ∷ more)) p here)
        | no p ↦ inl p
      ])

      update-skipped :
          ltb pos index ≡ false
          → index < pos
          → Result low fuel (set iters index rest) m index
          → Result low (suc fuel) iters m index
      unfolding update
      update-skipped after less (r, run, u) = (
        r,
        rw (e, there, after) run,
        record {
          settled = u.settled;
          ordered = u.ordered;
          sorted = u.sorted;
          kept = λ key. u.kept key ∙ drop_kept less key;
          smaller =
              let d : suc (total (set iters index rest)) ≡ total iters =
                total-drop iters index (k, v) rest e in
              let s : total (r.0) ≤ total (set iters index rest) = u.smaller in omega (arith, d, s);
          same_length = u.same_length ∙ length-set iters index rest;
        },
      )

-- One call of the function, from what it does on less fuel.
module _ (low fuel : ℕ)
    (next : (iters : List Pairs) (m : MinKey) (index : ℕ) → Does low fuel iters m index)
    (iters : List Pairs) (m : MinKey) (index : ℕ) (w : Pending index iters m)
    (ascend : AllAscend low iters) (sorted : IsSorted low m) (inside : index < length iters)
    (enough : total iters + index < suc fuel) where
  by_pair :
      (k : ℕ) (v : List ℕ) (rest : Pairs)
      → get_elem? iters index ≡ some ((k, v) ∷ rest)
      → Result low (suc fuel) iters m index
  by_pair k v rest e =
      let at : At iters index k = (v, rest, e) in
      let here : Ascends low ((k, v) ∷ rest) = ascend index ((k, v) ∷ rest) e in
      let up : low ≤ k = first-up low k v rest here in
      elim (Option-cases (find_min k m)) [
        | inl gone ↦ update-new low fuel iters m index w ascend sorted k v rest e gone
        | inr (pos, there) ↦ elim (Bool-cases (ltb pos index)) [
          | inl before ↦
              let less : pos < index = ltb→lt pos index before in
              update-replaced low fuel iters m index w ascend sorted k v rest e pos there less (
                next iters (set_min k index m) pos (replaced-Pending iters m index w k at pos there)
                  ascend (set_min-IsSorted low k index m up sorted) (omega (arith, less, inside))
                  (omega (arith, less, enough)))
          | inr after ↦
              let free : pos ≢ index = λ p. w.free k (there ∙ ap some p) in
              let less : index < pos = ground arith in
              let d : suc (total (set iters index rest)) ≡ total iters =
                total-drop iters index (k, v) rest e in
              let l : length (set iters index rest) ≡ length iters = length-set iters index rest in
              update-skipped low fuel iters m index w ascend sorted k v rest e pos there after less
                (next (set iters index rest) m index (skipped-Pending iters m index w rest)
                  (set-AllAscend low index rest iters ascend inside (
                    Ascends-weaken (suc k) low rest (omega (arith, up))
                      (rest-Ascends low k v rest here)))
                  sorted (omega (arith, l, inside)) (omega (arith, d, enough)))
        ]
      ]

  by_left : (left : Pairs) → get_elem? iters index ≡ some left → Result low (suc fuel) iters m index
  by_left [] e = update-end low fuel iters m index w ascend sorted e
  by_left ((k, v) ∷ rest) e = by_pair k v rest e

-- The iterator that has no key enters one, or comes to its end, with the fuel that is left.
pub update-Updates :
    (low fuel : ℕ) (iters : List Pairs) (m : MinKey) (index : ℕ) → Does low fuel iters m index
update-Updates low zero iters m index w ascend sorted inside enough = absurd (omega (arith, enough))
update-Updates low (suc fuel) iters m index w ascend sorted inside enough =
    let (left, e) = get_elem?-lt iters index inside in
    by_left low fuel (update-Updates low fuel) iters m index w ascend sorted inside enough left e
