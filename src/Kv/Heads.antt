-- ===== src/Kv/Heads.antt =====
-- How `minKey` and the iterators of src/LSM-Tree/kvstore.cc fit: each key stands for the iterator that is at it.
use mathlib.Core.Option.{some-injective}
use lsm_based_on_zns_ssd.Base.{
  ℕ, zero, suc, ◌+◌, ◌<◌, ◌≡◌, ◌≢◌, refl, sym, ap, subst, ◌∙◌, arith, if◌then◌else◌, ◌==◌, List, [],
  ◌∷◌, none, some, get_elem?, set, length, get_elem?-set_self, get_elem?-set_ne, ℕ_discrete, eq→==,
  ne→==_false,
}
use lsm_based_on_zns_ssd.SkipList.Columns.{Pairs, Ascends}
use lsm_based_on_zns_ssd.Kv.Merge.{MinKey, find_min, set_min}
use lsm_based_on_zns_ssd.Kv.MinMap.{find_min-set_min}

-- Iterator `i` is at the key `k`.
abbrev pub At : List Pairs → ℕ → ℕ → Type 0
At iters i k = (v : List ℕ) × (rest : Pairs) × (get_elem? iters i ≡ some ((k, v) ∷ rest))

pub record Settled (iters : List Pairs) (m : MinKey) : Type 0 where
  pub sound : (k i : ℕ) → find_min k m ≡ some i → At iters i k
  pub complete : (k i : ℕ) → At iters i k → find_min k m ≡ some i

-- Iterator `index` has no key in the map yet.
pub record Pending (index : ℕ) (iters : List Pairs) (m : MinKey) : Type 0 where
  pub sound : (k i : ℕ) → find_min k m ≡ some i → At iters i k
  pub complete : (k i : ℕ) → i ≢ index → At iters i k → find_min k m ≡ some i
  pub free : (k : ℕ) → find_min k m ≢ some index

abbrev pub AllAscend : ℕ → List Pairs → Type 0
AllAscend low iters = (i : ℕ) (ps : Pairs) → get_elem? iters i ≡ some ps → Ascends low ps

-- How many pairs are left.
abbrev pub total : List Pairs → ℕ
total [] = 0
total (ps ∷ rest) = length ps + total rest

pub total-drop :
    (iters : List Pairs) (n : ℕ) (p : ℕ × List ℕ) (rest : Pairs)
    → get_elem? iters n ≡ some (p ∷ rest)
    → suc (total (set iters n rest)) ≡ total iters
total-drop [] n p rest e = absurd (ground arith)
total-drop (q ∷ iters) zero p rest e =
    let same : length q ≡ suc (length rest) = ap length (some-injective q (p ∷ rest) e) in
    omega (arith, same)
total-drop (q ∷ iters) (suc n) p rest e = omega (arith, total-drop iters n p rest e)

-- Two iterators at one place are at one key.
pub At-key : (iters : List Pairs) (i k k' : ℕ) → At iters i k → At iters i k' → k ≡ k'
At-key iters i k k' (v, rest, e) (v', rest', e') =
    heads ((k, v) ∷ rest) ((k', v') ∷ rest') (some-injective _ _ (sym e ∙ e'))
  where
    head_or_zero : Pairs → ℕ
    head_or_zero [] = 0
    head_or_zero ((k, v) ∷ rest) = k

    heads : (ps qs : Pairs) → ps ≡ qs → head_or_zero ps ≡ head_or_zero qs
    heads ps qs e = ap head_or_zero e

module _ (iters : List Pairs) (m : MinKey) (index : ℕ) (w : Pending index iters m) where
  -- The iterator is at its end.
  pub end-Settled : get_elem? iters index ≡ some [] → Settled iters m
  end-Settled e = record {
    sound = w.sound;
    complete = λ k i (v, rest, here). elim (ℕ_discrete i index) [
      | yes p ↦
          let clash : some ((k, v) ∷ rest) ≡ some [] = sym here ∙ ap (get_elem? iters) p ∙ e in
          absurd (ground arith)
      | no p ↦ w.complete k i p (v, rest, here)
    ];
  }

  module _ (k : ℕ) (at : At iters index k) where
    -- What the map says after the iterator has entered its key.
    after :
        (k' : ℕ) → find_min k' (set_min k index m) ≡ (if k == k' then some index else find_min k' m)
    after k' = find_min-set_min k' k index m

    entered-sound : (k' i : ℕ) → find_min k' (set_min k index m) ≡ some i → At iters i k'
    entered-sound k' i e = elim (ℕ_discrete k k') [
      | yes p ↦
          let same : index ≡ i =
            some-injective index i (sym (after k' ∙ rw (eq→== k k' p) refl) ∙ e) in
          subst (λ j. At iters j k') same (subst (At iters index) p at)
      | no p ↦ w.sound k' i (sym (after k' ∙ rw (ne→==_false k k' p) refl) ∙ e)
    ]

    -- No iterator was at this key.
    pub new-Settled : find_min k m ≡ none → Settled iters (set_min k index m)
    new-Settled gone = record {
      sound = entered-sound;
      complete = λ k' i at'. elim (ℕ_discrete i index) [
        | yes p ↦
            let same : k ≡ k' = At-key iters index k k' at (subst (λ j. At iters j k') p at') in
            after k' ∙ rw (eq→== k k' same) (ap some (sym p))
        | no p ↦
            let there : find_min k' m ≡ some i = w.complete k' i p at' in
            after k' ∙ elim (ℕ_discrete k k') [
              | yes q ↦
                  let clash : none ≡ some i = sym gone ∙ ap (λ x. find_min x m) q ∙ there in
                  absurd (ground arith)
              | no q ↦ rw (ne→==_false k k' q) there
            ]
      ];
    }

    -- The iterator at this key gives way.
    pub replaced-Pending :
        (pos : ℕ) → find_min k m ≡ some pos → Pending pos iters (set_min k index m)
    replaced-Pending pos was = record {
      sound = entered-sound;
      complete = λ k' i ne at'. elim (ℕ_discrete i index) [
        | yes p ↦
            let same : k ≡ k' = At-key iters index k k' at (subst (λ j. At iters j k') p at') in
            after k' ∙ rw (eq→== k k' same) (ap some (sym p))
        | no p ↦
            let there : find_min k' m ≡ some i = w.complete k' i p at' in
            after k' ∙ elim (ℕ_discrete k k') [
              | yes q ↦
                  absurd
                    (ne (some-injective i pos (sym there ∙ ap (λ x. find_min x m) (sym q) ∙ was)))
              | no q ↦ rw (ne→==_false k k' q) there
            ]
      ];
      free = λ k' e. elim (ℕ_discrete k k') [
        | yes q ↦
            let same : index ≡ pos =
              some-injective index pos (sym (after k' ∙ rw (eq→== k k' q) refl) ∙ e) in
            absurd (w.free k (was ∙ ap some (sym same)))
        | no q ↦
            let there : find_min k' m ≡ some pos =
              sym (after k' ∙ rw (ne→==_false k k' q) refl) ∙ e in
            absurd (q (At-key iters pos k k' (w.sound k pos was) (w.sound k' pos there)))
      ];
    }

  -- The iterator moves on.
  moved : (rest : Pairs) (k i : ℕ) → i ≢ index → At iters i k → At (set iters index rest) i k
  moved rest k i ne (v, more, e) =
      (v, more, get_elem?-set_ne iters index i rest (λ p. ne (sym p)) ∙ e)

  moved_back : (rest : Pairs) (k i : ℕ) → i ≢ index → At (set iters index rest) i k → At iters i k
  moved_back rest k i ne (v, more, e) =
      (v, more, sym (get_elem?-set_ne iters index i rest (λ p. ne (sym p))) ∙ e)

  pub skipped-Pending : (rest : Pairs) → Pending index (set iters index rest) m
  skipped-Pending rest = record {
    sound = λ k i e. moved rest k i (λ p. w.free k (e ∙ ap some p)) (w.sound k i e);
    complete = λ k i ne at. w.complete k i ne (moved_back rest k i ne at);
    free = w.free;
  }

-- An iterator that moves on keeps its order.
pub set-AllAscend :
    (low index : ℕ) (rest : Pairs) (iters : List Pairs)
    → AllAscend low iters
    → index < length iters
    → Ascends low rest
    → AllAscend low (set iters index rest)
set-AllAscend low index rest iters w h up i ps e = elim (ℕ_discrete index i) [
  | yes p ↦
      let same : some rest ≡ some ps =
        sym (get_elem?-set_self iters index rest h) ∙ ap (get_elem? (set iters index rest)) p ∙ e in
      subst (Ascends low) (some-injective rest ps same) up
  | no p ↦ w i ps (sym (get_elem?-set_ne iters index i rest p) ∙ e)
]
