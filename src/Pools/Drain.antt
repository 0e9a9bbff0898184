-- ===== src/Pools/Drain.antt =====
-- The end of a `ThreadPool` (src/include/threadPool.h): no task is left behind.
use mathlib.Core.List.{append-nil}
use mathlib.Core.Option.{some-injective}
use lsm_based_on_zns_ssd.Base.{
  ℕ, ◌≡◌, ◌≢◌, refl, sym, ap, subst, ◌∙◌, arith, ℕ_discrete, ltb, Bool-cases, Bool, true, false,
  if◌then◌else◌, List, [], ◌∷◌, ◌++◌, none, some, inl, inr,
}
use lsm_based_on_zns_ssd.Pools.Threads.{
  ThreadPool, Worker, waiting, gone, running, Step, enqueue_task, wake_worker, end_task, destroy,
  thread_pool, enqueue, wake, wake_with, finish, finish_with, step, run, put_at,
}
use lsm_based_on_zns_ssd.Pools.Order.{
  given, run-in_order, run-cons, step-wake, put_at_other, put_at_self,
}

module _ {ℓ} {A : Type ℓ} where
  -- Whether nothing is enqueued once the destructor has begun.
  abbrev pub orderly : Bool → List (Step A) → Bool
  orderly stop [] = true
  orderly stop (enqueue_task i task ∷ ss) = if stop then false else orderly stop ss
  orderly stop (wake_worker i ∷ ss) = orderly stop ss
  orderly stop (end_task i ∷ ss) = orderly stop ss
  orderly stop (destroy ∷ ss) = orderly true ss

  -- A thread leaves only after the stop, with nothing to do.
  Leaves : Worker A → Bool → List A → Type ℓ
  Leaves w stop ts = w ≡ gone → (stop ≡ true) × (ts ≡ [])

  left_at :
      (i j : ℕ) (w w' : ℕ → Worker A) (stop : Bool) (ts ts' : ℕ → List A)
      → (j ≢ i → (w' i ≡ w i) × (ts' i ≡ ts i))
      → Leaves (w' j) stop (ts' j)
      → Leaves (w i) stop (ts i)
      → Leaves (w' i) stop (ts' i)
  left_at i j w w' stop ts ts' other here was = elim (ℕ_discrete j i) [
    | yes a ↦ subst (λ k. Leaves (w' k) stop (ts' k)) a here
    | no a ↦ rw ((other a).0, (other a).1) was
  ]

  -- The part of a state that says whether thread `i` may have left.
  abbrev MayLeave : ℕ → ThreadPool A → Type ℓ
  MayLeave i p = Leaves (p.worker i) p.stop (p.tasks i)

  module _ (i j : ℕ) (p p' : ThreadPool A) (was : MayLeave i p) where
    abbrev Kept : ThreadPool A → Type ℓ
    Kept x = (x.stop ≡ p.stop) × MayLeave i x

    wake-Leaves :
        (w : Worker A) (ts : List A) (stop : Bool)
        → p.tasks j ≡ ts
        → p.stop ≡ stop
        → wake_with j w ts stop p ≡ some p'
        → Kept p'
    unfolding wake_with Leaves
    wake-Leaves waiting [] false r q e = absurd (ground arith)
    wake-Leaves waiting [] true r q e = subst Kept (some-injective _ p' e) (
      refl,
      left_at i j p.worker (put_at j gone p.worker) p.stop p.tasks p.tasks
          (λ ne. (put_at_other i j gone p.worker ne, refl)) (λ left. (q, r)) was,
    )
    wake-Leaves waiting (task ∷ rest) stop r q e = subst Kept (some-injective _ p' e) (
      refl,
      left_at i j p.worker (put_at j (running task) p.worker) p.stop p.tasks (put_at j rest p.tasks)
          (λ ne. (put_at_other i j (running task) p.worker ne, put_at_other i j rest p.tasks ne))
          (λ left.
            let no : running task ≡ gone = sym (put_at_self j (running task) p.worker) ∙ left in
            absurd (ground arith))
          was,
    )
    wake-Leaves gone ts stop r q e = absurd (ground arith)
    wake-Leaves (running task) ts stop r q e = absurd (ground arith)

    finish-Leaves : (w : Worker A) → finish_with j w p ≡ some p' → Kept p'
    unfolding finish_with Leaves
    finish-Leaves waiting e = absurd (ground arith)
    finish-Leaves gone e = absurd (ground arith)
    finish-Leaves (running task) e = subst Kept (some-injective _ p' e) (
      refl,
      left_at i j p.worker (put_at j waiting p.worker) p.stop p.tasks p.tasks
          (λ ne. (put_at_other i j waiting p.worker ne, refl))
          (λ left.
            let no : waiting ≡ gone = sym (put_at_self j waiting p.worker) ∙ left in
            absurd (ground arith))
          was,
    )

    -- Before the stop no thread has left.
    enqueue-Leaves : (task : A) → p.stop ≡ false → enqueue j task p ≡ some p' → Kept p'
    unfolding enqueue Leaves
    enqueue-Leaves task runs e = elim (Bool-cases (ltb j p.threads)) [
      | inl known ↦
          let same : some (record p { tasks = put_at j (p.tasks j ++ (task ∷ [])) p.tasks })
              ≡ some p' =
            sym (rw (enqueue, known) refl) ∙ e in
          subst Kept (some-injective _ p' same) (
            refl,
            λ left. let no : true ≡ false = sym ((was left).0) ∙ runs in absurd (ground arith),
          )
      | inr unknown ↦
          let same : none ≡ some p' = sym (rw (enqueue, unknown) refl) ∙ e in absurd (ground arith)
    ]

  run-Leaves :
      (i : ℕ) (ss : List (Step A)) (p p' : ThreadPool A)
      → MayLeave i p
      → orderly p.stop ss ≡ true
      → run ss p ≡ some p'
      → MayLeave i p'
  unfolding run step wake finish Leaves
  run-Leaves i [] p p' was o e = subst (MayLeave i) (some-injective p p' e) was
  run-Leaves i (enqueue_task j task ∷ ss) p p' was o e = elim (Bool-cases p.stop) [
    | inl stopped ↦ let no : false ≡ true = sym (rw stopped refl) ∙ o in absurd (ground arith)
    | inr runs ↦
        let (p₁, q, r) = run-cons (enqueue_task j task) ss p p' e in
        let k : Kept i j p p₁ was p₁ = enqueue-Leaves i j p p₁ was task runs q in
        let rest : orderly p.stop ss ≡ true = sym (rw runs refl) ∙ o in
        run-Leaves i ss p₁ p' (k.1) (ap (λ b. orderly b ss) (k.0) ∙ rest) r
  ]
  run-Leaves i (wake_worker j ∷ ss) p p' was o e =
      let (p₁, q, r) = run-cons (wake_worker j) ss p p' e in
      let k : Kept i j p p₁ was p₁ =
        wake-Leaves i j p p₁ was (p.worker j) (p.tasks j) p.stop refl refl (step-wake j p p₁ q) in
      run-Leaves i ss p₁ p' (k.1) (ap (λ b. orderly b ss) (k.0) ∙ o) r
  run-Leaves i (end_task j ∷ ss) p p' was o e =
      let (p₁, q, r) = run-cons (end_task j) ss p p' e in
      let k : Kept i j p p₁ was p₁ = finish-Leaves i j p p₁ was (p.worker j) q in
      run-Leaves i ss p₁ p' (k.1) (ap (λ b. orderly b ss) (k.0) ∙ o) r
  run-Leaves i (destroy ∷ ss) p p' was o e =
      run-Leaves i ss (record p { stop = true }) p' (λ left. (refl, (was left).1)) o e

  -- A thread that has left has run all its tasks, in the order in which they came.
  pub run-all_done :
      (threads i : ℕ) (ss : List (Step A)) (p : ThreadPool A)
      → orderly false ss ≡ true
      → run ss (thread_pool threads) ≡ some p
      → p.worker i ≡ gone
      → p.ran i ≡ given i ss
  unfolding thread_pool Leaves
  run-all_done threads i ss p o e left =
      let l : (p.stop ≡ true) × (p.tasks i ≡ []) =
        run-Leaves i ss (thread_pool threads) p (λ no. absurd (ground arith)) o e left in
      sym (
        run-in_order threads i ss p e
        ∙ rw (left, l.1) (append-nil (p.ran i ++ []) ∙ append-nil (p.ran i)))
