-- ===== src/Kv/Del.antt =====
-- `del` of src/LSM-Tree/kvstore.cc while the memory table has room.
use lsm_based_on_zns_ssd.Base.{
  ℕ, ◌+◌, ◌≤◌, ◌<◌, ◌≡◌, refl, sym, ap, ◌∙◌, arith, true, not, if◌then◌else◌, ◌==◌, eq→==,
  ne→==_false, ℕ_discrete, List, [], ◌∷◌, ◌++◌, some, Bool-cases, inl, inr, length, u64_mod,
}
use lsm_based_on_zns_ssd.Table.Build.{PoolCall}
use lsm_based_on_zns_ssd.SkipList.Memory.{head_key}
use lsm_based_on_zns_ssd.SkipList.Columns.{Pairs, value_of}
use lsm_based_on_zns_ssd.Kv.State.{KvStore, is_empty, unmarked, del_mark}
use lsm_based_on_zns_ssd.Kv.Compact.{Setting, kv_del}
use lsm_based_on_zns_ssd.Kv.Answers.{first_of, levels_value, store_value}
use lsm_based_on_zns_ssd.Kv.Stock.{Holds}
use lsm_based_on_zns_ssd.Kv.Put.{HasRoom, answer, with_calls, get-Holds, answer-Holds, kv_put-Holds}

-- The answer to a question, and the store after it.
Holds-with_calls :
    (g : Setting) (level : ℕ) (memory : Pairs) (tables : List (List Pairs)) (kv : KvStore)
    (calls : List PoolCall)
    → Holds g level memory tables kv
    → Holds g level memory tables (with_calls calls kv)
Holds-with_calls g level memory tables kv calls w = record {
  towers = w.towers;
  tables_hold = w.tables_hold;
  bounds = w.bounds;
  newer = w.newer;
}

empty_is : (v : List ℕ) → is_empty v ≡ true → v ≡ []
empty_is [] e = refl
empty_is (x ∷ xs) e = absurd (ground arith)

module _ (g : Setting) (level : ℕ) (memory : Pairs) (tables : List (List Pairs)) (kv : KvStore)
    (w : Holds g level memory tables kv) (wide : length memory + 1 < g.wide)
    (deep : level + 3 ≤ g.levels) (fits : length memory + 1 < u64_mod) (key : ℕ)
    (inside : key < head_key) where
  abbrev Deletes : KvStore → Type 0
  Deletes kv' =
      (k : ℕ) → answer g k kv' ≡ some (if key == k then [] else store_value k memory tables)

  -- Nothing to delete.
  kept-Deletes :
      (kv' : KvStore)
      → Holds g level memory tables kv'
      → store_value key memory tables ≡ []
      → Deletes kv'
  kept-Deletes kv' w' gone k =
      answer-Holds g level memory tables kv' w' (omega (arith, wide)) (omega (arith, deep)) k
      ∙ elim (ℕ_discrete key k) [
        | yes p ↦
            rw (eq→== key k p) (ap some (ap (λ x. store_value x memory tables) (sym p) ∙ gone))
        | no p ↦ rw (ne→==_false key k p) refl
      ]

  -- The mark hides the key.
  marked-Deletes :
      (kv' : KvStore)
      → ((k : ℕ)
          → answer g k kv'
            ≡ some (
                unmarked (
                  first_of
                    (if key == k then del_mark else value_of k memory)
                    (levels_value k tables))))
      → Deletes kv'
  marked-Deletes kv' answers k = answers k ∙ elim (ℕ_discrete key k) [
    | yes p ↦ rw (eq→== key k p) refl
    | no p ↦ rw (ne→==_false key k p) refl
  ]

  -- Under the conditions of `put`, `del` returns whether `get` answers for the key with a value, and then `get`
  -- answers for the key with the empty string, and for each other key as before.
  pub kv_del-Deletes :
      HasRoom key del_mark memory kv
      → (kv' : KvStore) × (kv_del g key kv
          ≡ some (not (is_empty (store_value key memory tables)), kv'))
        × Deletes kv'
  unfolding kv_del
  kv_del-Deletes room =
      let (more, run) =
        get-Holds g level memory tables kv w (omega (arith, wide)) (omega (arith, deep)) key in
      let kv₁ : KvStore = with_calls (kv.calls ++ more) kv in
      let w₁ : Holds g level memory tables kv₁ =
        Holds-with_calls g level memory tables kv (kv.calls ++ more) w in
      elim (Bool-cases (is_empty (store_value key memory tables))) [
        | inl e ↦ (
          kv₁,
          rw (run, e) refl,
          kept-Deletes kv₁ w₁ (empty_is (store_value key memory tables) e),
        )
        | inr e ↦
            let (kv₂, n, go, u, answers) =
              kv_put-Holds g level memory tables kv₁ w₁ wide deep fits key inside del_mark room in
            (kv₂, rw (run, e, go) refl, marked-Deletes kv₂ answers)
      ]
