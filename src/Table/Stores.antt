-- ===== src/Table/Stores.antt =====
-- `getValue` on any table that stores pairs in order (src/LSM-Tree/Table.cpp).
use mathlib.Core.Option.{some-injective}
use mathlib.Core.List.{head-eq_of_cons-eq, tail-eq_of_cons-eq}
use lsm_based_on_zns_ssd.Base.{
  ℕ, zero, suc, ◌≤◌, ◌<◌, ◌≡◌, ◌≢◌, refl, sym, ap, ◌∙◌, arith, true, false, ◌||◌, ltb, List, [],
  ◌∷◌, Option, some, map, length, get_elem?, lt-get_elem?, Bool-cases, inl, inr,
}
use lsm_based_on_zns_ssd.Table.Search.{Increasing, Answers, found, missing, search, search-Answers}
use lsm_based_on_zns_ssd.Table.Build.{Table, PoolCall, pool_get_value, get_value, test_bits}
use lsm_based_on_zns_ssd.Table.Pairs.{lookup, lookup-found, lookup-missing}
use lsm_based_on_zns_ssd.Table.Branches.{
  get_value-outside, get_value-filtered, get_value-missing, get_value-found, value_length-total,
}

-- Two vectors with the same keys.
same_key {ℓ ℓ'} :
    {V : Type ℓ} {W : Type ℓ'} (xs : List (ℕ × V)) (ys : List (ℕ × W))
    → map (λ (a : ℕ × V). a.0) xs ≡ map (λ (b : ℕ × W). b.0) ys
    → (i : ℕ) (a : ℕ × V) → get_elem? xs i ≡ some a
    → (b : ℕ × W) × (get_elem? ys i ≡ some b) × (b.0 ≡ a.0)
same_key [] ys e i a here = absurd (ground arith)
same_key (x ∷ xs) [] e i a here = absurd (ground arith)
same_key (x ∷ xs) (y ∷ ys) e zero a here =
    (y, refl, sym (head-eq_of_cons-eq e) ∙ ap (λ p. p.0) (some-injective x a here))
same_key (x ∷ xs) (y ∷ ys) e (suc i) a here = same_key xs ys (tail-eq_of_cons-eq e) i a here

same_length {ℓ ℓ'} :
    {V : Type ℓ} {W : Type ℓ'} (xs : List (ℕ × V)) (ys : List (ℕ × W))
    → map (λ (a : ℕ × V). a.0) xs ≡ map (λ (b : ℕ × W). b.0) ys
    → length xs ≡ length ys
same_length [] [] e = refl
same_length [] (y ∷ ys) e = absurd (ground arith)
same_length (x ∷ xs) [] e = absurd (ground arith)
same_length (x ∷ xs) (y ∷ ys) e = ap suc (same_length xs ys (tail-eq_of_cons-eq e))

pub record Stores (hash : ℕ → List ℕ) (t : Table) (ps : List (ℕ × List ℕ)) : Type 0 where
  pub key_value : t.key_value ≡ ps
  pub keys : map (λ (a : ℕ × ℕ). a.0) t.offset ≡ map (λ (a : ℕ × List ℕ). a.0) ps
  pub filtered :
      (i key : ℕ) (v : List ℕ)
      → get_elem? ps i ≡ some (key, v)
      → test_bits (hash key) t.bloom_filter ≡ true
  pub least : (i : ℕ) (q : ℕ × List ℕ) → get_elem? ps i ≡ some q → t.min_key ≤ q.0
  pub greatest : (i : ℕ) (q : ℕ × List ℕ) → get_elem? ps i ≡ some q → q.0 ≤ t.max_key
  pub increasing : Increasing ps

module _ (hash : ℕ → List ℕ) (t : Table) (ps : List (ℕ × List ℕ)) (w : Stores hash t ps)
    (key fuel : ℕ) where
  abbrev Looked : Type 0
  Looked = (calls : List PoolCall) × (get_value hash fuel key t ≡ some (lookup key ps, calls))

  offset-Increasing : Increasing t.offset
  unfolding Increasing
  offset-Increasing i j a b less here there =
      let (a', e, p) = same_key t.offset ps w.keys i a here in
      let (b', e', p') = same_key t.offset ps w.keys j b there in
      let up : a'.0 < b'.0 = w.increasing i j a' b' less e e' in omega (arith, p, p', up)

  looked_nowhere :
      ((i : ℕ) (q : ℕ × List ℕ) → get_elem? ps i ≡ some q → q.0 ≢ key)
      → get_value hash fuel key t ≡ some ([], [])
      → Looked
  looked_nowhere gone e = ([], e ∙ ap (λ x. some (x, [])) (sym (lookup-missing ps key gone)))

  searched :
      (r : Option ℕ)
      → Answers t.offset key r
      → search fuel t.offset key ≡ some r
      → (ltb key t.min_key || ltb t.max_key key) ≡ false
      → test_bits (hash key) t.bloom_filter ≡ true
      → Looked
  searched _ (found i o here) run inside passed =
      let (q, there, p) = same_key t.offset ps w.keys i (key, o) here in
      let at : get_elem? ps i ≡ some (key, q.1) = there ∙ ap (λ x. some (x, q.1)) p in
      let (len, l) = value_length-total t i o (lt-get_elem? t.offset i (key, o) here) in
      (
        pool_get_value t.meta_info.level t.meta_info.order o len ∷ [],
        get_value-found hash fuel key t inside passed i o len (q.1) run here l
              (ap (λ x. get_elem? x i) w.key_value ∙ at)
            ∙ ap (λ x. some (x, pool_get_value t.meta_info.level t.meta_info.order o len ∷ []))
                (sym (lookup-found ps i key (q.1) w.increasing at)),
      )
  searched _ (missing m) run inside passed =
      looked_nowhere
        (λ i q e same.
          let (a, there, p) = same_key ps t.offset (sym w.keys) i q e in m i a there (p ∙ same))
        (get_value-missing hash fuel key t inside passed run)

  pub get_value-Stores : length ps < fuel → Looked
  get_value-Stores enough = elim (Bool-cases (ltb key t.min_key || ltb t.max_key key)) [
    | inl out ↦
        looked_nowhere
          (λ i q e same.
            let low : t.min_key ≤ q.0 = w.least i q e in
            let high : q.0 ≤ t.max_key = w.greatest i q e in
            absurd (ground (arith, out, low, high, same)))
          (get_value-outside hash fuel key t out)
    | inr inside ↦ elim (Bool-cases (test_bits (hash key) t.bloom_filter)) [
      | inr off ↦
          looked_nowhere
            (λ i q e same.
              absurd
                (ground (arith, off, w.filtered i key (q.1) (e ∙ ap (λ x. some (x, q.1)) same))))
            (get_value-filtered hash fuel key t inside off)
      | inl passed ↦
          let (r, run, a) =
            search-Answers t.offset key offset-Increasing fuel
              (omega (arith, same_length t.offset ps w.keys, enough)) in
          searched r a run inside passed
    ]
  ]
