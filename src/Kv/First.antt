-- ===== src/Kv/First.antt =====
-- The loop over the tables that finds the first keys, before the merge of src/LSM-Tree/kvstore.cc.
use mathlib.Core.Option.{some-injective}
use lsm_based_on_zns_ssd.Base.{
  ℕ, zero, suc, ◌+◌, ◌≤◌, ◌≡◌, refl, sym, ap, subst, ◌∙◌, arith, if◌then◌else◌, ◌==◌, List, [], ◌∷◌,
  none, some, ◌⊎◌, inl, inr, Option-cases, length, ℕ_discrete, eq→==, ne→==_false,
}
use lsm_based_on_zns_ssd.SkipList.Columns.{Ascends-weaken, Pairs, Ascends}
use lsm_based_on_zns_ssd.Kv.Merge.{MinKey, find_min, set_min, first_new, first_iters}
use lsm_based_on_zns_ssd.Kv.MinMap.{IsSorted, no_key, find_min-set_min, set_min-IsSorted}
use lsm_based_on_zns_ssd.Kv.Newest.{find_pair, or_else, newest, newest-some}
use lsm_based_on_zns_ssd.Kv.Heads.{At, AllAscend, total, At-key}
use lsm_based_on_zns_ssd.Kv.Update.{rest-Ascends, first-up}

-- As `Settled`, for iterators that are numbered from `base` on.
pub record SettledFrom (base : ℕ) (iters : List Pairs) (m : MinKey) : Type 0 where
  pub sound : (k n : ℕ) → find_min k m ≡ some n → (i : ℕ) × (n ≡ base + i) × At iters i k
  pub complete : (k i : ℕ) → At iters i k → find_min k m ≡ some (base + i)

-- What `first_new` leaves of a table: nothing, or from a key on that no newer table has.
abbrev Enters : ℕ → MinKey → Pairs × MinKey → Type 0
Enters i m q =
    (q ≡ ([], m))
    ⊎ ((k : ℕ) × (v : List ℕ) × (rest : Pairs) × (q ≡ ((k, v) ∷ rest, set_min k i m))
        × (find_min k m ≡ none))

-- The table after `first_new`, beside the newer tables, whose iterators are at `iters`.
record Enter (low base : ℕ) (iters : List Pairs) (m : MinKey) (pairs : Pairs) (q : Pairs × MinKey)
    : Type 0 where
  enters : Enters base m q
  ordered : Ascends low (q.0)
  kept :
      (key : ℕ)
      → or_else (newest key iters) (find_pair key (q.0))
        ≡ or_else (newest key iters) (find_pair key pairs)
  shorter : length (q.0) ≤ length pairs

module _ (base : ℕ) (iters : List Pairs) (m : MinKey) (w : SettledFrom (base + 1) iters m) where
  -- A newer table has the key.
  newest-found : (k n : ℕ) → find_min k m ≡ some n → (u : List ℕ) × (newest k iters ≡ some u)
  newest-found k n e =
      let (i, p, at) = w.sound k n e in
      let (v, rest, here) = at in newest-some k iters i v rest here

  first_new-Enter :
      (low : ℕ) (pairs : Pairs)
      → Ascends low pairs
      → Enter low base iters m pairs (first_new m base pairs)
  unfolding first_new
  first_new-Enter low [] up = record {
    enters = inl refl;
    ordered = up;
    kept = λ key. refl;
    shorter = omega arith;
  }
  first_new-Enter low ((k, v) ∷ rest) up = elim (Option-cases (find_min k m)) [
    | inl gone ↦ rw gone (record {
      enters = inr (k, v, rest, refl, gone);
      ordered = up;
      kept = λ key. refl;
      shorter = omega arith;
    })
    | inr (n, there) ↦
        let ih : Enter low base iters m rest (first_new m base rest) = first_new-Enter low rest (
          Ascends-weaken (suc k) low rest (omega (arith, first-up low k v rest up))
            (rest-Ascends low k v rest up)) in
        rw there (record {
          enters = ih.enters;
          ordered = ih.ordered;
          kept = λ key. ih.kept key ∙ elim (ℕ_discrete k key) [
            | yes p ↦
                let (u, q) = newest-found k n there in
                let here : newest key iters ≡ some u = ap (λ x. newest x iters) (sym p) ∙ q in
                rw here refl
            | no p ↦ rw (ne→==_false k key p) refl
          ];
          shorter = omega (arith, ih.shorter);
        })
  ]

  -- The table beside the newer ones.
  beside-SettledFrom : (q : Pairs × MinKey) → Enters base m q → SettledFrom base (q.0 ∷ iters) (q.1)
  beside-SettledFrom q (inl e) =
      subst (λ x. SettledFrom base (x.0 ∷ iters) (x.1)) (sym e)
        (record {
          sound = λ k n here. let (i, p, at) = w.sound k n here in (suc i, omega (arith, p), at);
          complete = ended;
        })
    where
      ended : (k i : ℕ) → At ([] ∷ iters) i k → find_min k m ≡ some (base + i)
      ended k zero (v, rest, e) = absurd (ground arith)
      ended k (suc i) at = w.complete k i at ∙ ap some (omega arith)
  beside-SettledFrom q (inr (k, v, rest, e, gone)) =
      subst (λ x. SettledFrom base (x.0 ∷ iters) (x.1)) (sym e)
        (record { sound = sound; complete = complete })
    where
      after :
          (k' : ℕ) → find_min k' (set_min k base m) ≡ (if k == k' then some base else find_min k' m)
      after k' = find_min-set_min k' k base m

      sound :
          (k' n : ℕ)
          → find_min k' (set_min k base m) ≡ some n
          → (i : ℕ) × (n ≡ base + i) × At (((k, v) ∷ rest) ∷ iters) i k'
      sound k' n here = elim (ℕ_discrete k k') [
        | yes p ↦
            let same : base ≡ n =
              some-injective base n (sym (after k' ∙ rw (eq→== k k' p) refl) ∙ here) in
            (0, omega (arith, same), subst (At (((k, v) ∷ rest) ∷ iters) 0) p (v, rest, refl))
        | no p ↦
            let (i, q, at) = w.sound k' n (sym (after k' ∙ rw (ne→==_false k k' p) refl) ∙ here) in
            (suc i, omega (arith, q), at)
      ]

      complete :
          (k' i : ℕ)
          → At (((k, v) ∷ rest) ∷ iters) i k'
          → find_min k' (set_min k base m) ≡ some (base + i)
      complete k' zero at =
          let same : k ≡ k' = At-key (((k, v) ∷ rest) ∷ iters) 0 k k' (v, rest, refl) at in
          after k' ∙ rw (eq→== k k' same) (ap some (omega arith))
      complete k' (suc i) at =
          let there : find_min k' m ≡ some (base + 1 + i) = w.complete k' i at in
          elim (ℕ_discrete k k') [
            | yes p ↦
                let clash : none ≡ some (base + 1 + i) =
                  sym gone ∙ ap (λ x. find_min x m) p ∙ there in
                absurd (ground arith)
            | no p ↦ after k' ∙ rw (ne→==_false k k' p) (there ∙ ap some (omega arith))
          ]

-- The iterators and `minKey` as the main loop takes them.
pub record Starts (base : ℕ) (tables : List Pairs) (r : List Pairs × MinKey) : Type 0 where
  pub settled : SettledFrom base (r.0) (r.1)
  pub ordered : AllAscend 0 (r.0)
  pub sorted : IsSorted 0 (r.1)
  pub kept : (key : ℕ) → newest key (r.0) ≡ newest key tables
  pub smaller : total (r.0) ≤ total tables
  pub same_length : length (r.0) ≡ length tables

beside-AllAscend :
    (low : ℕ) (ps : Pairs) (iters : List Pairs)
    → Ascends low ps
    → AllAscend low iters
    → AllAscend low (ps ∷ iters)
beside-AllAscend low ps iters up w zero q e = subst (Ascends low) (some-injective ps q e) up
beside-AllAscend low ps iters up w (suc i) q e = w i q e

Enters-IsSorted :
    (base : ℕ) (m : MinKey) (q : Pairs × MinKey) → Enters base m q → IsSorted 0 m → IsSorted 0 (q.1)
Enters-IsSorted base m q (inl e) sorted = subst (λ x. IsSorted 0 (x.1)) (sym e) sorted
Enters-IsSorted base m q (inr (k, v, rest, e, gone)) sorted =
    subst (λ x. IsSorted 0 (x.1)) (sym e) (set_min-IsSorted 0 k base m (omega arith) sorted)

pub first_iters-Starts :
    (base : ℕ) (tables : List Pairs)
    → AllAscend 0 tables
    → Starts base tables (first_iters base tables)
unfolding first_iters find_min
first_iters-Starts base [] up = record {
  settled = record {
    sound = λ k n e. absurd (ground arith);
    complete = λ k i (v, rest, e). absurd (ground arith);
  };
  ordered = up;
  sorted = no_key 0;
  kept = λ key. refl;
  smaller = omega arith;
  same_length = refl;
}
first_iters-Starts base (pairs ∷ newer) up =
    let ih : Starts (base + 1) newer (first_iters (base + 1) newer) =
      first_iters-Starts (base + 1) newer (λ i q e. up (suc i) q e) in
    let r : List Pairs × MinKey = first_iters (base + 1) newer in
    let q : Enter 0 base (r.0) (r.1) pairs (first_new (r.1) base pairs) =
      first_new-Enter base (r.0) (r.1) ih.settled 0 pairs (up 0 pairs refl) in
    record {
      settled =
          beside-SettledFrom base (r.0) (r.1) ih.settled (first_new (r.1) base pairs) q.enters;
      ordered = beside-AllAscend 0 ((first_new (r.1) base pairs).0) (r.0) q.ordered ih.ordered;
      sorted = Enters-IsSorted base (r.1) (first_new (r.1) base pairs) q.enters ih.sorted;
      kept = λ key. q.kept key ∙ ap (λ o. or_else o (find_pair key pairs)) (ih.kept key);
      smaller =
          let a : length ((first_new (r.1) base pairs).0) ≤ length pairs = q.shorter in
          let b : total (r.0) ≤ total newer = ih.smaller in omega (arith, a, b);
      same_length = ap suc ih.same_length;
    }
