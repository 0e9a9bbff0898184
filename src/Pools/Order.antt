-- ===== src/Pools/Order.antt =====
-- `ThreadPool` (src/include/threadPool.h): each thread runs its tasks in the order in which they came.
use mathlib.Core.List.{append_assoc, append-nil}
use mathlib.Core.Option.{some-injective}
use lsm_based_on_zns_ssd.Base.{
  ℕ, ◌≡◌, ◌≢◌, refl, sym, ap, subst, ◌∙◌, ℕ_discrete, eq→==, ne→==_false, ltb, Bool-cases, arith,
  Bool, true, false, if◌then◌else◌, ◌==◌, List, [], ◌∷◌, ◌++◌, none, some, Option-cases, inl, inr,
}
use lsm_based_on_zns_ssd.Pools.Threads.{
  ThreadPool, Worker, waiting, gone, running, Step, enqueue_task, wake_worker, end_task, destroy,
  thread_pool, enqueue, wake, wake_with, finish, finish_with, step, run, put_at,
}

pub put_at_self {ℓ} : {B : Type ℓ} (j : ℕ) (b : B) (f : ℕ → B) → put_at j b f j ≡ b
put_at_self j b f = rw (eq→== j j refl) refl

-- What depends on thread `i` alone, after a change at thread `j`.
module _ {ℓ} {B : Type ℓ} (i j : ℕ) where
  pub put_at_other : (b : B) (f : ℕ → B) → j ≢ i → put_at j b f i ≡ f i
  put_at_other b f ne = rw (ne→==_false j i ne) refl

module _ {ℓ μ} {B : Type ℓ} {D : Type μ} (i j : ℕ) where
  put_at_same :
      (g : ℕ → B → D) (f : ℕ → B) (b : B) → g j b ≡ g j (f j) → g i (put_at j b f i) ≡ g i (f i)
  put_at_same g f b h = elim (ℕ_discrete j i) [
    | yes a ↦ rw (eq→== j i a) (subst (λ k. g k b ≡ g k (f k)) a h)
    | no a ↦ rw (ne→==_false j i a) refl
  ]

module _ {ℓ κ μ} {B : Type ℓ} {C : Type κ} {D : Type μ} (i j : ℕ) where
  put_at_same₂ :
      (g : ℕ → B → C → D) (f : ℕ → B) (f' : ℕ → C) (b : B) (c : C)
      → g j b c ≡ g j (f j) (f' j)
      → g i (put_at j b f i) (put_at j c f' i) ≡ g i (f i) (f' i)
  put_at_same₂ g f f' b c h = elim (ℕ_discrete j i) [
    | yes a ↦ rw (eq→== j i a) (subst (λ k. g k b c ≡ g k (f k) (f' k)) a h)
    | no a ↦ rw (ne→==_false j i a) refl
  ]

module _ {ℓ} {A : Type ℓ} where
  -- What thread `i` was given, in order.
  abbrev pub given_by : ℕ → Step A → List A
  given_by i (enqueue_task j task) = if j == i then task ∷ [] else []
  given_by i (wake_worker j) = []
  given_by i (end_task j) = []
  given_by i destroy = []

  abbrev pub given : ℕ → List (Step A) → List A
  given i [] = []
  given i (s ∷ ss) = given_by i s ++ given i ss

  abbrev pub current : Worker A → List A
  current waiting = []
  current gone = []
  current (running task) = task ∷ []

  -- All that a thread has to do with: what it has run, what it runs, and what waits.
  abbrev pub all_of : ℕ → ThreadPool A → List A
  all_of i p = p.ran i ++ current (p.worker i) ++ p.tasks i

  module _ (i j : ℕ) (p p' : ThreadPool A) where
    enqueued :
        (task : A)
        → all_of i (record p { tasks = put_at j (p.tasks j ++ (task ∷ [])) p.tasks })
          ≡ all_of i p ++ given_by i (enqueue_task j task)
    enqueued task = elim (ℕ_discrete j i) [
      | yes a ↦
          rw (eq→== j i a, a)
            (sym (append_assoc (p.ran i ++ current (p.worker i)) (p.tasks i) (task ∷ [])))
      | no a ↦ rw (ne→==_false j i a) (sym (append-nil (all_of i p)))
    ]

    enqueue-all_of :
        (task : A)
        → enqueue j task p ≡ some p'
        → all_of i p' ≡ all_of i p ++ given_by i (enqueue_task j task)
    unfolding enqueue
    enqueue-all_of task e = elim (Bool-cases (ltb j p.threads)) [
      | inl known ↦
          let same : some (record p { tasks = put_at j (p.tasks j ++ (task ∷ [])) p.tasks })
              ≡ some p' =
            sym (rw (enqueue, known) refl) ∙ e in
          ap (all_of i) (sym (some-injective _ p' same)) ∙ enqueued task
      | inr unknown ↦
          let same : none ≡ some p' = sym (rw (enqueue, unknown) refl) ∙ e in absurd (ground arith)
    ]

    wake-all_of :
        (w : Worker A) (ts : List A) (stop : Bool)
        → p.worker j ≡ w
        → p.tasks j ≡ ts
        → wake_with j w ts stop p ≡ some p'
        → all_of i p' ≡ all_of i p
    unfolding wake_with
    wake-all_of waiting [] false q r e = absurd (ground arith)
    wake-all_of waiting [] true q r e =
        ap (all_of i) (sym (some-injective _ p' e))
        ∙ put_at_same i j (λ k w. p.ran k ++ current w ++ p.tasks k) p.worker gone (rw q refl)
    wake-all_of waiting (task ∷ rest) stop q r e =
        ap (all_of i) (sym (some-injective _ p' e))
        ∙ put_at_same₂ i j (λ k w ts. p.ran k ++ current w ++ ts) p.worker p.tasks (running task)
            rest
            (append_assoc (p.ran j) (task ∷ []) rest
              ∙ rw (q, r) (ap (λ x. x ++ (task ∷ rest)) (sym (append-nil (p.ran j)))))
    wake-all_of gone ts stop q r e = absurd (ground arith)
    wake-all_of (running task) ts stop q r e = absurd (ground arith)

    finish-all_of :
        (w : Worker A) → p.worker j ≡ w → finish_with j w p ≡ some p' → all_of i p' ≡ all_of i p
    unfolding finish_with
    finish-all_of waiting q e = absurd (ground arith)
    finish-all_of gone q e = absurd (ground arith)
    finish-all_of (running task) q e =
        ap (all_of i) (sym (some-injective _ p' e))
        ∙ put_at_same₂ i j (λ k w rs. rs ++ current w ++ p.tasks k) p.worker p.ran waiting
            (p.ran j ++ (task ∷ []))
            (rw q (ap (λ x. x ++ p.tasks j) (append-nil (p.ran j ++ (task ∷ [])))))

  pub step-wake :
      (j : ℕ) (p p' : ThreadPool A) → step (wake_worker j) p ≡ some p' → wake j p ≡ some p'
  unfolding step
  step-wake j p p' e = elim (Bool-cases (ltb j p.threads)) [
    | inl known ↦ sym (rw (step, known) refl) ∙ e
    | inr unknown ↦
        let same : none ≡ some p' = sym (rw (step, unknown) refl) ∙ e in absurd (ground arith)
  ]

  pub run-cons :
      (s : Step A) (ss : List (Step A)) (p p' : ThreadPool A)
      → run (s ∷ ss) p ≡ some p'
      → (p₁ : ThreadPool A) × (step s p ≡ some p₁) × (run ss p₁ ≡ some p')
  unfolding run
  run-cons s ss p p' e = elim (Option-cases (step s p)) [
    | inl q ↦ let same : none ≡ some p' = sym (rw (run, q) refl) ∙ e in absurd (ground arith)
    | inr (p₁, q) ↦ (p₁, q, sym (rw (run, q) refl) ∙ e)
  ]

  -- One step.
  step-all_of :
      (i : ℕ) (s : Step A) (p p' : ThreadPool A)
      → step s p ≡ some p'
      → all_of i p' ≡ all_of i p ++ given_by i s
  unfolding step wake finish
  step-all_of i (enqueue_task j task) p p' e = enqueue-all_of i j p p' task e
  step-all_of i (wake_worker j) p p' e =
      wake-all_of i j p p' (p.worker j) (p.tasks j) p.stop refl refl (step-wake j p p' e)
      ∙ sym (append-nil (all_of i p))
  step-all_of i (end_task j) p p' e =
      finish-all_of i j p p' (p.worker j) refl e ∙ sym (append-nil (all_of i p))
  step-all_of i destroy p p' e =
      ap (all_of i) (sym (some-injective _ p' e)) ∙ sym (append-nil (all_of i p))

  pub run-all_of :
      (i : ℕ) (ss : List (Step A)) (p p' : ThreadPool A)
      → run ss p ≡ some p'
      → all_of i p' ≡ all_of i p ++ given i ss
  unfolding run
  run-all_of i [] p p' e =
      ap (all_of i) (sym (some-injective p p' e)) ∙ sym (append-nil (all_of i p))
  run-all_of i (s ∷ ss) p p' e =
      let (p₁, q, r) = run-cons s ss p p' e in
      run-all_of i ss p₁ p' r
      ∙ ap (λ x. x ++ given i ss) (step-all_of i s p p₁ q)
      ∙ append_assoc (all_of i p) (given_by i s) (given i ss)

  -- Each thread has run the first of its tasks, in the order in which they came and each once; then come the
  -- one that it runs and those that wait.
  pub run-in_order :
      (threads i : ℕ) (ss : List (Step A)) (p : ThreadPool A)
      → run ss (thread_pool threads) ≡ some p
      → given i ss ≡ p.ran i ++ current (p.worker i) ++ p.tasks i
  unfolding thread_pool
  run-in_order threads i ss p e = sym (run-all_of i ss (thread_pool threads) p e)
