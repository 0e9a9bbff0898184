-- ===== src/Pools/Shared.antt =====
-- `ReadPool` (src/readThreadPool.h): the tasks start in the order in which they came, and none is left behind.
use mathlib.Core.List.{append_assoc, append-nil}
use mathlib.Core.Option.{some-injective}
use lsm_based_on_zns_ssd.Base.{
  ℕ, ◌≡◌, refl, sym, ap, subst, ◌∙◌, arith, ltb, Bool-cases, Bool, true, false, List, [], ◌∷◌, ◌++◌,
  none, some, Option-cases, inl, inr, ℕ_discrete,
}
use lsm_based_on_zns_ssd.Pools.Threads.{
  Worker, waiting, gone, running, Step, enqueue_task, wake_worker, end_task, destroy, put_at,
}
use lsm_based_on_zns_ssd.Pools.Order.{put_at_self, put_at_other}
use lsm_based_on_zns_ssd.Pools.Readers.{
  ReadPool, read_pool, read_enqueue, read_wake, read_wake_with, read_finish_with, read_step,
  read_run, accepted,
}

module _ {ℓ} {A : Type ℓ} where
  -- A thread has left only after the stop, with the queue empty.
  Reached : ReadPool A → Type ℓ
  Reached p = (i : ℕ) → p.worker i ≡ gone → (p.stop ≡ true) × (p.tasks ≡ [])

  record Moves (p p' : ReadPool A) (new : List A) : Type ℓ where
    pub stops : p'.stop ≡ p.stop
    pub order : p'.started ++ p'.tasks ≡ p.started ++ p.tasks ++ new
    pub reached : Reached p'

  -- The other threads stay where they are.
  others :
      (j : ℕ) (w : Worker A) (p : ReadPool A) (stop : Bool) (tasks : List A)
      → ((i : ℕ) → p.worker i ≡ gone → (stop ≡ true) × (tasks ≡ []))
      → (w ≡ gone → (stop ≡ true) × (tasks ≡ []))
      → (i : ℕ) → put_at j w p.worker i ≡ gone
      → (stop ≡ true) × (tasks ≡ [])
  others j w p stop tasks was here i left = elim (ℕ_discrete j i) [
    | yes a ↦ here (sym (put_at_self j w p.worker) ∙ ap (put_at j w p.worker) a ∙ left)
    | no a ↦ was i (sym (put_at_other i j w p.worker a) ∙ left)
  ]

  module _ (j : ℕ) (p p' : ReadPool A) (was : Reached p) where
    wake-Moves :
        (w : Worker A) (ts : List A) (stop : Bool)
        → p.tasks ≡ ts
        → p.stop ≡ stop
        → read_wake_with j w ts stop p ≡ some p'
        → Moves p p' []
    unfolding read_wake_with Reached
    wake-Moves waiting [] false r q e = absurd (ground arith)
    wake-Moves waiting [] true r q e =
        subst (λ x. Moves p x []) (some-injective _ p' e)
          (record {
            stops = refl;
            order = sym (append-nil (p.started ++ p.tasks));
            reached = others j gone p p.stop p.tasks was (λ left. (q, r));
          })
    wake-Moves waiting (task ∷ rest) stop r q e =
        subst (λ x. Moves p x []) (some-injective _ p' e)
          (record {
            stops = refl;
            order =
                append_assoc p.started (task ∷ []) rest
                ∙ ap (λ ts. p.started ++ ts) (sym r)
                ∙ sym (append-nil (p.started ++ p.tasks));
            reached =
                others j (running task) p p.stop rest
                  (λ i left.
                    let no : task ∷ rest ≡ [] = sym r ∙ (was i left).1 in absurd (ground arith))
                  (λ no. absurd (ground arith));
          })
    wake-Moves gone ts stop r q e = absurd (ground arith)
    wake-Moves (running task) ts stop r q e = absurd (ground arith)

    finish-Moves : (w : Worker A) → read_finish_with j w p ≡ some p' → Moves p p' []
    unfolding read_finish_with Reached
    finish-Moves waiting e = absurd (ground arith)
    finish-Moves gone e = absurd (ground arith)
    finish-Moves (running task) e =
        subst (λ x. Moves p x []) (some-injective _ p' e)
          (record {
            stops = refl;
            order = sym (append-nil (p.started ++ p.tasks));
            reached = others j waiting p p.stop p.tasks was (λ no. absurd (ground arith));
          })

  woken : (j : ℕ) (p p' : ReadPool A) → Reached p → read_wake j p ≡ some p' → Moves p p' []
  unfolding read_wake
  woken j p p' was e = elim (Bool-cases (ltb j p.threads)) [
    | inl known ↦
        wake-Moves j p p' was (p.worker j) p.tasks p.stop refl refl
          (sym (rw (read_wake, known) refl) ∙ e)
    | inr unknown ↦
        let same : none ≡ some p' = sym (rw (read_wake, unknown) refl) ∙ e in absurd (ground arith)
  ]

  accepted-stopped : (ss : List (Step A)) → accepted true ss ≡ []
  accepted-stopped [] = refl
  accepted-stopped (enqueue_task i task ∷ ss) = refl
  accepted-stopped (wake_worker i ∷ ss) = accepted-stopped ss
  accepted-stopped (end_task i ∷ ss) = accepted-stopped ss
  accepted-stopped (destroy ∷ ss) = refl

  -- What a run comes to.
  record Runs (ss : List (Step A)) (p p' : ReadPool A) : Type ℓ where
    pub order : p'.started ++ p'.tasks ≡ p.started ++ p.tasks ++ accepted p.stop ss
    pub reached : Reached p'

  read-cons :
      (s : Step A) (ss : List (Step A)) (p p' : ReadPool A)
      → read_run (s ∷ ss) p ≡ some p'
      → (p₁ : ReadPool A) × (read_step s p ≡ some p₁) × (read_run ss p₁ ≡ some p')
  unfolding read_run
  read-cons s ss p p' e = elim (Option-cases (read_step s p)) [
    | inl q ↦ let same : none ≡ some p' = sym (rw (read_run, q) refl) ∙ e in absurd (ground arith)
    | inr (p₁, q) ↦ (p₁, q, sym (rw (read_run, q) refl) ∙ e)
  ]

  -- A step that leaves the tasks as they are, and the rest of the run.
  then_Runs :
      (ss : List (Step A)) (p p₁ p' : ReadPool A)
      → Moves p p₁ []
      → Runs ss p₁ p'
      → (p'.started ++ p'.tasks ≡ p.started ++ p.tasks ++ accepted p.stop ss) × Reached p'
  then_Runs ss p p₁ p' m r = (
    r.order
        ∙ ap (λ x. x ++ accepted p₁.stop ss) (m.order ∙ append-nil (p.started ++ p.tasks))
        ∙ ap (λ b. p.started ++ p.tasks ++ accepted b ss) m.stops,
    r.reached,
  )

  read_run-Runs :
      (ss : List (Step A)) (p p' : ReadPool A) → Reached p → read_run ss p ≡ some p' → Runs ss p p'
  unfolding read_run read_step read_enqueue read_wake Reached
  read_run-Runs [] p p' was e =
      subst (Runs [] p) (some-injective p p' e)
        (record { order = sym (append-nil (p.started ++ p.tasks)); reached = was })
  read_run-Runs (enqueue_task j task ∷ ss) p p' was e = elim (Bool-cases p.stop) [
    | inl stopped ↦
        let same : read_run ss p ≡ some p' = sym (rw (read_run, stopped) refl) ∙ e in
        let r : Runs ss p p' = read_run-Runs ss p p' was same in
        record {
          order =
              r.order
              ∙ ap (λ b. p.started ++ p.tasks ++ accepted b ss) stopped
              ∙ ap (λ x. p.started ++ p.tasks ++ x) (accepted-stopped ss)
              ∙ sym
                  (ap (λ b. p.started ++ p.tasks ++ accepted b (enqueue_task j task ∷ ss)) stopped);
          reached = r.reached;
        }
    | inr runs ↦
        let p₁ : ReadPool A = record p { tasks = p.tasks ++ (task ∷ []) } in
        let same : read_run ss p₁ ≡ some p' = sym (rw (read_run, runs) refl) ∙ e in
        let r : Runs ss p₁ p' =
          read_run-Runs ss p₁ p'
            (λ i left. let no : true ≡ false = sym ((was i left).0) ∙ runs in absurd (ground arith))
            same in
        record {
          order =
              r.order
              ∙ ap (λ x. x ++ accepted p.stop ss) (sym (append_assoc p.started p.tasks (task ∷ [])))
              ∙ append_assoc (p.started ++ p.tasks) (task ∷ []) (accepted p.stop ss)
              ∙ ap (λ b. p.started ++ p.tasks ++ (task ∷ accepted b ss)) runs
              ∙ sym (ap (λ b. p.started ++ p.tasks ++ accepted b (enqueue_task j task ∷ ss)) runs);
          reached = r.reached;
        }
  ]
  read_run-Runs (wake_worker j ∷ ss) p p' was e =
      let (p₁, q, r) = read-cons (wake_worker j) ss p p' e in
      let t =
        then_Runs ss p p₁ p' (woken j p p₁ was q)
          (read_run-Runs ss p₁ p' ((woken j p p₁ was q).reached) r) in
      record { order = t.0; reached = t.1 }
  read_run-Runs (end_task j ∷ ss) p p' was e =
      let (p₁, q, r) = read-cons (end_task j) ss p p' e in
      let m : Moves p p₁ [] = finish-Moves j p p₁ was (p.worker j) q in
      let t = then_Runs ss p p₁ p' m (read_run-Runs ss p₁ p' m.reached r) in
      record { order = t.0; reached = t.1 }
  read_run-Runs (destroy ∷ ss) p p' was e =
      let stopped : ReadPool A = record p { stop = true } in
      let r : Runs ss stopped p' =
        read_run-Runs ss stopped p' (λ i left. (refl, (was i left).1)) e in
      record {
        order = r.order ∙ ap (λ x. p.started ++ p.tasks ++ x) (accepted-stopped ss);
        reached = r.reached;
      }

  -- The tasks that were accepted before the stop start in the order in which they came, each once; and when some
  -- thread has left all of them have been started.
  pub read_run-in_order :
      (threads : ℕ) (ss : List (Step A)) (p : ReadPool A)
      → read_run ss (read_pool threads) ≡ some p
      → (p.started ++ p.tasks ≡ accepted false ss)
        × ((i : ℕ) → p.worker i ≡ gone → p.started ≡ accepted false ss)
  unfolding read_pool Reached
  read_run-in_order threads ss p e =
      let r : Runs ss (read_pool threads) p =
        read_run-Runs ss (read_pool threads) p (λ i no. absurd (ground arith)) e in
      (
        r.order,
        λ i left.
            sym (append-nil p.started)
            ∙ ap (λ ts. p.started ++ ts) (sym ((r.reached i left).1))
            ∙ r.order,
      )
