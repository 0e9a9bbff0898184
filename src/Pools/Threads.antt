-- ===== src/Pools/Threads.antt =====
-- The class `ThreadPool` of src/include/threadPool.h: each thread has a queue of tasks of its own. A step is
-- what a thread does while it holds a lock, the end of a task, or the start of the destructor. `none` is a
-- step that the code cannot take. That a thread may miss the notification of the destructor, which does not hold the
-- lock, and then waits for ever, is a thread that takes no more step.
use lsm_based_on_zns_ssd.Base.{
  ℕ, Bool, true, false, if◌then◌else◌, ◌==◌, ltb, List, [], ◌∷◌, ◌++◌, Option, none, some, ◌>>=◌,
}

pub data Worker {ℓ} (A : Type ℓ) : Type ℓ where
  waiting gone : Worker A
  running : A → Worker A

-- `ran` lists the tasks that each thread has run to their ends.
pub record ThreadPool {ℓ} (A : Type ℓ) : Type ℓ where
  pub threads : ℕ
  pub tasks : ℕ → List A
  pub worker : ℕ → Worker A
  pub stop : Bool
  pub ran : ℕ → List A

pub data Step {ℓ} (A : Type ℓ) : Type ℓ where
  enqueue_task : ℕ → A → Step A
  wake_worker end_task : ℕ → Step A
  destroy : Step A

abbrev pub put_at {κ} : {B : Type κ} → ℕ → B → (ℕ → B) → ℕ → B
put_at i b f j = if i == j then b else f j

module _ {ℓ} {A : Type ℓ} where
  unfoldable pub thread_pool : ℕ → ThreadPool A
  thread_pool threads = record {
    threads = threads;
    tasks = λ i. [];
    worker = λ i. waiting;
    stop = false;
    ran = λ i. [];
  }

  -- After the pool has been stopped there is a message only.
  unfoldable pub enqueue : ℕ → A → ThreadPool A → Option (ThreadPool A)
  enqueue index task p =
      if ltb index p.threads
      then some (record p { tasks = put_at index (p.tasks index ++ (task ∷ [])) p.tasks })
      else none

  -- One round of the loop of thread `i`, up to the task; without a task it waits for one or for the stop.
  unfoldable pub wake_with : ℕ → Worker A → List A → Bool → ThreadPool A → Option (ThreadPool A)
  wake_with i waiting [] false p = none
  wake_with i waiting [] true p = some (record p { worker = put_at i gone p.worker })
  wake_with i waiting (task ∷ rest) stop p =
      some (record p { tasks = put_at i rest p.tasks; worker = put_at i (running task) p.worker })
  wake_with i gone tasks stop p = none
  wake_with i (running task) tasks stop p = none

  unfoldable pub wake : ℕ → ThreadPool A → Option (ThreadPool A)
  unfolding wake_with
  wake i p = wake_with i (p.worker i) (p.tasks i) p.stop p

  -- The task returns.
  unfoldable pub finish_with : ℕ → Worker A → ThreadPool A → Option (ThreadPool A)
  finish_with i waiting p = none
  finish_with i gone p = none
  finish_with i (running task) p = some (record p {
    worker = put_at i waiting p.worker;
    ran = put_at i (p.ran i ++ (task ∷ [])) p.ran;
  })

  unfoldable pub finish : ℕ → ThreadPool A → Option (ThreadPool A)
  unfolding finish_with
  finish i p = finish_with i (p.worker i) p

  unfoldable pub step : Step A → ThreadPool A → Option (ThreadPool A)
  unfolding enqueue wake finish
  step (enqueue_task i task) p = enqueue i task p
  step (wake_worker i) p = if ltb i p.threads then wake i p else none
  step (end_task i) p = finish i p
  step destroy p = some (record p { stop = true })

  -- Steps of all threads, in the order in which they happen.
  unfoldable pub run : List (Step A) → ThreadPool A → Option (ThreadPool A)
  unfolding step
  run [] p = some p
  run (s ∷ ss) p = do p₁ ← step s p; run ss p₁
