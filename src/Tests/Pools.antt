-- ===== src/Tests/Pools.antt =====
-- The theorems on the thread pools (src/include/threadPool.h, src/readThreadPool.h), on two threads.
use lsm_based_on_zns_ssd.Base.{ℕ, ◌≡◌, refl, true, false, List, [], ◌∷◌, ◌++◌}
use lsm_based_on_zns_ssd.Pools.Threads.{
  ThreadPool, waiting, gone, running, Step, enqueue_task, wake_worker, end_task, destroy,
  thread_pool, run, put_at,
}
use lsm_based_on_zns_ssd.Pools.Order.{given, current, run-in_order}
use lsm_based_on_zns_ssd.Pools.Drain.{run-all_done}
use lsm_based_on_zns_ssd.Pools.Readers.{ReadPool, read_pool, read_run, accepted}
use lsm_based_on_zns_ssd.Pools.Shared.{read_run-in_order}

-- Two tasks for thread 1 and one for thread 0, which has begun.
abbrev two_tasks : List (Step ℕ)
two_tasks = enqueue_task 1 7 ∷ enqueue_task 0 8 ∷ wake_worker 1 ∷ enqueue_task 1 9 ∷ end_task 1 ∷ []

abbrev to_the_end : List (Step ℕ)
to_the_end =
    enqueue_task 1 7
    ∷ enqueue_task 1 9
    ∷ wake_worker 1
    ∷ destroy
    ∷ end_task 1
    ∷ wake_worker 1
    ∷ end_task 1
    ∷ wake_worker 1
    ∷ []

abbrev after_two : ThreadPool ℕ
after_two = record {
  threads = 2;
  tasks = put_at 1 (9 ∷ []) (put_at 1 [] (put_at 0 (8 ∷ []) (put_at 1 (7 ∷ []) (λ i. []))));
  worker = put_at 1 waiting (put_at 1 (running 7) (λ i. waiting));
  stop = false;
  ran = put_at 1 (7 ∷ []) (λ i. []);
}

run-in_order_example :
    given 1 two_tasks ≡ after_two.ran 1 ++ current (after_two.worker 1) ++ after_two.tasks 1
unfolding run thread_pool
run-in_order_example = run-in_order 2 1 two_tasks after_two refl

abbrev at_the_end : ThreadPool ℕ
at_the_end = record {
  threads = 2;
  tasks = put_at 1 [] (put_at 1 (9 ∷ []) (put_at 1 (7 ∷ 9 ∷ []) (put_at 1 (7 ∷ []) (λ i. []))));
  worker = put_at 1 gone (
      put_at 1 waiting
        (put_at 1 (running 9) (put_at 1 waiting (put_at 1 (running 7) (λ i. waiting)))));
  stop = true;
  ran = put_at 1 (7 ∷ 9 ∷ []) (put_at 1 (7 ∷ []) (λ i. []));
}

run-all_done_example : at_the_end.ran 1 ≡ given 1 to_the_end
unfolding run thread_pool
run-all_done_example = run-all_done 2 1 to_the_end at_the_end refl refl refl

-- The last task comes after the stop.
abbrev shared_tasks : List (Step ℕ)
shared_tasks =
    enqueue_task 0 7
    ∷ enqueue_task 0 9
    ∷ wake_worker 1
    ∷ destroy
    ∷ wake_worker 0
    ∷ end_task 1
    ∷ enqueue_task 0 3
    ∷ wake_worker 1
    ∷ []

abbrev shared_end : ReadPool ℕ
shared_end = record {
  threads = 2;
  tasks = [];
  worker =
      put_at 1 gone (put_at 1 waiting (put_at 0 (running 9) (put_at 1 (running 7) (λ i. waiting))));
  stop = true;
  started = 7 ∷ 9 ∷ [];
}

read_run-in_order_example :
    (shared_end.started ++ shared_end.tasks ≡ accepted false shared_tasks)
    × ((i : ℕ) → shared_end.worker i ≡ gone → shared_end.started ≡ accepted false shared_tasks)
unfolding read_run read_pool
read_run-in_order_example = read_run-in_order 2 shared_tasks shared_end refl
