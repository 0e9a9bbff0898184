-- ===== src/Kv/Pop.antt =====
-- A round of the merge of src/LSM-Tree/kvstore.cc: the smallest key leaves `minKey` and its iterator moves on.
use mathlib.Core.Option.{some-injective}
use lsm_based_on_zns_ssd.Base.{
  ℕ, suc, ◌<◌, ◌≡◌, ◌≢◌, refl, sym, ap, subst, ◌∙◌, arith, List, ◌∷◌, none, some, inl, get_elem?,
  set, length, get_elem?-set_self, get_elem?-set_ne, lt-get_elem?, ℕ_discrete, dec_lt, eq→==,
  ne→==_false,
}
use lsm_based_on_zns_ssd.SkipList.Columns.{Pairs, Ascends, no_pair, one_more}
use lsm_based_on_zns_ssd.Kv.Merge.{MinKey, find_min}
use lsm_based_on_zns_ssd.Kv.MinMap.{IsSorted, find_min-below}
use lsm_based_on_zns_ssd.Kv.Newest.{newest, newest-only, newest-drop, find_pair-below}
use lsm_based_on_zns_ssd.Kv.Heads.{At, Settled, Pending, AllAscend, At-key}
use lsm_based_on_zns_ssd.Kv.Update.{rest-Ascends}

find_min-head : (k i : ℕ) (m : MinKey) → find_min k ((k, i) ∷ m) ≡ some i
unfolding find_min
find_min-head k i m = rw (eq→== k k refl) refl

find_min-tail : (k i k' : ℕ) (m : MinKey) → k ≢ k' → find_min k' ((k, i) ∷ m) ≡ find_min k' m
unfolding find_min
find_min-tail k i k' m ne = rw (ne→==_false k k' ne) refl

-- A key of the rest is greater.
find_min-above : (k k' j : ℕ) (m : MinKey) → IsSorted (suc k) m → find_min k' m ≡ some j → k < k'
find_min-above k k' j m sorted e = elim (dec_lt k k') [
  | yes h ↦ h
  | no h ↦
      let clash : none ≡ some j = sym (find_min-below (suc k) k' m sorted (omega (arith, h))) ∙ e in
      absurd (ground arith)
]

module _ (low : ℕ) (iters : List Pairs) (k i : ℕ) (m : MinKey) (w : Settled iters ((k, i) ∷ m))
    (ascend : AllAscend low iters) (sorted : IsSorted (suc k) m) where
  pub popped-At : At iters i k
  popped-At = w.sound k i (find_min-head k i m)

  -- What the rest of the map says is where an iterator is.
  rest_sound : (k' j : ℕ) → find_min k' m ≡ some j → At iters j k'
  rest_sound k' j e =
      let more : k < k' = find_min-above k k' j m sorted e in
      w.sound k' j (find_min-tail k i k' m (λ p. absurd (omega (arith, p, more))) ∙ e)

  rest_ne : (k' j : ℕ) → find_min k' m ≡ some j → j ≢ i
  rest_ne k' j e p =
      let more : k < k' = find_min-above k k' j m sorted e in
      let same : k' ≡ k =
        At-key iters i k' k (subst (λ x. At iters x k') p (rest_sound k' j e)) popped-At in
      absurd (omega (arith, same, more))

  rest_complete : (k' j : ℕ) → j ≢ i → At iters j k' → find_min k' m ≡ some j
  rest_complete k' j ne at =
      let there : find_min k' ((k, i) ∷ m) ≡ some j = w.complete k' j at in
      elim (ℕ_discrete k k') [
        | yes p ↦ absurd (
            ne (
              some-injective j i
                (sym there ∙ ap (λ x. find_min x ((k, i) ∷ m)) (sym p) ∙ find_min-head k i m)))
        | no p ↦ sym (find_min-tail k i k' m p) ∙ there
      ]

  -- The other tables begin above the key.
  other-Ascends :
      (j : ℕ) (ps : Pairs)
      → j ≢ i
      → get_elem? iters j ≡ some ps
      → Ascends low ps
      → Ascends (suc k) ps
  other-Ascends j _ ne e (no_pair low) = no_pair (suc k)
  other-Ascends j _ ne e (one_more low k' v rest up more) =
      let above : k < k' = find_min-above k k' j m sorted (rest_complete k' j ne (v, rest, e)) in
      one_more (suc k) k' v rest above more

  module _ (v : List ℕ) (rest : Pairs) (e : get_elem? iters i ≡ some ((k, v) ∷ rest)) where
    pub popped-inside : i < length iters
    popped-inside = lt-get_elem? iters i ((k, v) ∷ rest) e

    pub popped-Pending : Pending i (set iters i rest) m
    popped-Pending = record {
      sound = λ k' j here.
          let ne : j ≢ i = rest_ne k' j here in
          let (u, more, at) = rest_sound k' j here in
          (u, more, get_elem?-set_ne iters i j rest (λ p. ne (sym p)) ∙ at);
      complete = λ k' j ne (u, more, at).
          rest_complete k' j ne
            (u, more, sym (get_elem?-set_ne iters i j rest (λ p. ne (sym p))) ∙ at);
      free = λ k' here. rest_ne k' i here refl;
    }

    pub popped-AllAscend : AllAscend (suc k) (set iters i rest)
    popped-AllAscend j ps here = elim (ℕ_discrete i j) [
      | yes p ↦
          let same : some rest ≡ some ps =
            sym (get_elem?-set_self iters i rest popped-inside)
            ∙ ap (get_elem? (set iters i rest)) p
            ∙ here in
          subst (Ascends (suc k)) (some-injective rest ps same)
            (rest-Ascends low k v rest (ascend i ((k, v) ∷ rest) e))
      | no p ↦
          let there : get_elem? iters j ≡ some ps =
            sym (get_elem?-set_ne iters i j rest p) ∙ here in
          other-Ascends j ps (λ q. p (sym q)) there (ascend j ps there)
    ]

    -- The pair is the newest of its key.
    pub newest-popped : newest k iters ≡ some v
    newest-popped =
        newest-only k iters i ((k, v) ∷ rest) e (λ j q ne there.
          find_pair-below (suc k) k q (other-Ascends j q ne there (ascend j q there)) (omega arith))
        ∙ rw (eq→== k k refl) refl

    pub newest-other : (key : ℕ) → k ≢ key → newest key (set iters i rest) ≡ newest key iters
    newest-other key ne = newest-drop key iters i k v rest e (inl ne)
