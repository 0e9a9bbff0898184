-- ===== src/Pools/Readers.antt =====
-- The class `ReadPool` of src/readThreadPool.h: the threads share one queue of tasks.

use lsm_based_on_zns_ssd.Base.{
  ℕ, ltb, Bool, true, false, if◌then◌else◌, List, [], ◌∷◌, ◌++◌, Option, none, some, ◌>>=◌,
}
use lsm_based_on_zns_ssd.Pools.Threads.{
  Worker, waiting, gone, running, Step, enqueue_task, wake_worker, end_task, destroy, put_at,
}

-- `started` lists the tasks that threads have taken from the queue.
pub record ReadPool {ℓ} (A : Type ℓ) : Type ℓ where
  pub threads : ℕ
  pub tasks : List A
  pub worker : ℕ → Worker A
  pub stop : Bool
  pub started : List A

module _ {ℓ} {A : Type ℓ} where
  unfoldable pub read_pool : ℕ → ReadPool A
  read_pool threads = record {
    threads = threads;
    tasks = [];
    worker = λ i. waiting;
    stop = false;
    started = [];
  }

  -- After the stop there is an exception, and the pool stays.
  unfoldable pub read_enqueue : A → ReadPool A → Bool × ReadPool A
  read_enqueue task p =
      if p.stop then (false, p) else (true, record p { tasks = p.tasks ++ (task ∷ []) })

  unfoldable pub read_wake_with : ℕ → Worker A → List A → Bool → ReadPool A → Option (ReadPool A)
  read_wake_with i waiting [] false p = none
  read_wake_with i waiting [] true p = some (record p { worker = put_at i gone p.worker })
  read_wake_with i waiting (task ∷ rest) stop p = some (record p {
    tasks = rest;
    worker = put_at i (running task) p.worker;
    started = p.started ++ (task ∷ []);
  })
  read_wake_with i gone tasks stop p = none
  read_wake_with i (running task) tasks stop p = none

  -- One round of the loop of thread `i`, up to the task, and the return of the task.
  unfoldable pub read_wake : ℕ → ReadPool A → Option (ReadPool A)
  unfolding read_wake_with
  read_wake i p = if ltb i p.threads then read_wake_with i (p.worker i) p.tasks p.stop p else none

  unfoldable pub read_finish_with : ℕ → Worker A → ReadPool A → Option (ReadPool A)
  read_finish_with i waiting p = none
  read_finish_with i gone p = none
  read_finish_with i (running task) p = some (record p { worker = put_at i waiting p.worker })

  unfoldable pub read_step : Step A → ReadPool A → Option (ReadPool A)
  unfolding read_enqueue read_wake read_finish_with
  read_step (enqueue_task i task) p = some ((read_enqueue task p).1)
  read_step (wake_worker i) p = read_wake i p
  read_step (end_task i) p = read_finish_with i (p.worker i) p
  read_step destroy p = some (record p { stop = true })

  unfoldable pub read_run : List (Step A) → ReadPool A → Option (ReadPool A)
  unfolding read_step
  read_run [] p = some p
  read_run (s ∷ ss) p = do p₁ ← read_step s p; read_run ss p₁

  -- The tasks that were enqueued before the stop.
  abbrev pub accepted : Bool → List (Step A) → List A
  accepted stop [] = []
  accepted stop (enqueue_task i task ∷ ss) = if stop then [] else task ∷ accepted stop ss
  accepted stop (wake_worker i ∷ ss) = accepted stop ss
  accepted stop (end_task i ∷ ss) = accepted stop ss
  accepted stop (destroy ∷ ss) = []
