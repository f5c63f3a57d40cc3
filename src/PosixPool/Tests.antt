-- ===== src/PosixPool/Tests.antt =====
-- Runs of the pool of socket/thread_Pool/main.cpp on small inputs.
use codespaces_blank.Prelude.{
  ℕ, some, get_elem?, ◌+◌, ◌≤◌, ◌<◌, ◌^◌, ◌≡◌, refl, true, false, ◌≢◌, ◌⊎◌, replicate, ◌&&◌, [],
  ◌∷◌, ◌++◌, arith, length, total, ltb, if◌then◌else◌,
}
use codespaces_blank.PosixPool.{
  Task, no_task, Pool, insert_task, clear_arg, threadpool_add, queued, worker_test, worker_wake,
  dequeue,
}
use codespaces_blank.PosixPool.Valid.{IsValid, insert_task-IsValid}
use codespaces_blank.PosixPool.Setup.{Resources, initial, initial-IsValid}
use codespaces_blank.PosixPool.System.{
  System, Worker, RunBy, ready, woken, holding, stopped, head, gone, start, Reach, here, next, lock,
  relock, submit, heard,
}
use codespaces_blank.PosixPool.Fifo.{
  contents, answer, spec_add, seen, spec_take, retire, pool_refines,
}
use codespaces_blank.PosixPool.Demo.{Demo, created, adds, works, Run, begins, goes_on}
use codespaces_blank.PosixPool.Demo.Posts.{tasks, main_posts_all}
use codespaces_blank.PosixPool.System.Sound.{counts, runs}
use codespaces_blank.PosixPool.System.Invariant.{each_task_once, thread_counts, queue_in_bounds}
use codespaces_blank.PosixPool.System.Closed.{shutdown_drops_tasks}
use codespaces_blank.PosixPool.System.Progress.{IsOf, IsServed, task_can_be_taken}
use codespaces_blank.PosixPool.System.Wakeups.{comes, no_lost_wakeup}

abbrev resources : Resources
resources = record {
  pool_memory = true;
  threads_memory = true;
  queue_memory = true;
  lock_init = 0;
  counter_init = 0;
  not_full_init = 0;
  not_empty_init = 0;
  tid = λ i. i + 100;
  starts = λ i. true;
  manager_tid = 99;
  queue_contents = no_task ∷ no_task ∷ [];
}

abbrev job : Task
job = record { function = 7; arg = 8 }

-- A pool with one thread, or up to `hi`, and two slots in its queue; and with one task in it.
abbrev empty_pool : ℕ → Pool
empty_pool hi = initial resources 1 hi 2

abbrev busy_pool : ℕ → Pool
busy_pool hi = insert_task (empty_pool hi) job

-- The worker finds nothing and waits; then a task comes in, and the worker is woken.
abbrev fed : ℕ → System
fed hi = record {
  pool = busy_pool hi;
  workers = woken ∷ [];
  manager = head;
  added = job ∷ [];
  taken = [];
}

Reach-fed : (hi : ℕ) → Reach (start resources 1 hi 2) (fed hi)
unfolding threadpool_add worker_test initial
Reach-fed hi = next (next here (lock 0 refl)) (submit job refl (heard 0 refl))

-- The worker takes the task.
abbrev served : System
served = record (fed 2) {
  pool = record (busy_pool 2) { queue_front = 1; queue_size = 0 };
  workers = holding job ∷ [];
  taken = job ∷ [];
}

Reach-served : Reach (start resources 1 2 2) served
unfolding worker_test worker_wake dequeue initial insert_task clear_arg
Reach-served = next (Reach-fed 2) (relock 0 refl)

-- The shutdown comes first, and the worker stops.
abbrev closing : System
closing = record (fed 2) { pool = record (busy_pool 2) { shutdown = true } }

abbrev closed_down : System
closed_down = record closing { workers = stopped ∷ [] }

Reach-closed_down : Reach closing closed_down
unfolding worker_test worker_wake initial insert_task
Reach-closed_down = next here (relock 0 refl)

empty_pool-IsValid : IsValid (empty_pool 2)
empty_pool-IsValid = initial-IsValid resources 1 2 2 refl (omega arith) (omega arith)

busy_pool-IsValid : IsValid (busy_pool 2)
unfolding initial
busy_pool-IsValid = insert_task-IsValid job empty_pool-IsValid (omega arith)

each_task_once_example : served.taken ++ contents served.pool ≡ served.added
each_task_once_example =
    each_task_once resources 1 2 2 (omega arith) refl (omega arith) (omega arith) Reach-served

thread_counts_example :
    (1 ≤ served.pool.live_thr_num)
    × (served.pool.live_thr_num ≤ 2)
    × (served.pool.live_thr_num ≡ total counts served.workers)
    × (served.pool.busy_thr_num ≡ total runs served.workers)
    × (served.pool.busy_thr_num ≤ served.pool.live_thr_num)
thread_counts_example =
    thread_counts resources 1 2 2 (omega arith) refl (omega arith) (omega arith) Reach-served

queue_in_bounds_example :
    (served.pool.queue_size ≤ served.pool.queue_max_size)
    × (served.pool.queue_front < length served.pool.task_queue)
    × (served.pool.queue_rear < length served.pool.task_queue)
    × (served.pool.queue_front + 1 < 2 ^ 31)
    × (served.pool.queue_rear + 1 < 2 ^ 31)
queue_in_bounds_example =
    queue_in_bounds resources 1 2 2 (omega arith) refl (omega arith) (omega arith) Reach-served

no_lost_wakeup_example : 0 < total comes (fed 1).workers
unfolding initial insert_task
no_lost_wakeup_example =
    no_lost_wakeup (omega arith) resources 2 (λ i h. refl) refl (omega arith) (omega arith)
      (Reach-fed 1) refl (omega arith)

shutdown_drops_tasks_example :
    (closed_down.pool.shutdown ≡ true)
    × (closed_down.taken ≡ closing.taken)
    × (closed_down.added ≡ closing.added)
    × (contents closed_down.pool ≡ contents closing.pool)
shutdown_drops_tasks_example = shutdown_drops_tasks Reach-closed_down refl

pool_refines_example :
    (answer (threadpool_add (busy_pool 2) job)
      ≡ spec_add (busy_pool 2).queue_max_size (busy_pool 2).shutdown (contents (busy_pool 2)) job)
    × (seen (worker_test (busy_pool 2)) ≡ spec_take (busy_pool 2).shutdown (contents (busy_pool 2)))
    × (seen (worker_wake (busy_pool 2)) ≡ (
        if ltb 0 (busy_pool 2).wait_exit_thr_num
          && ltb (busy_pool 2).min_thr_num (busy_pool 2).live_thr_num
        then retire (contents (busy_pool 2))
        else spec_take (busy_pool 2).shutdown (contents (busy_pool 2))))
pool_refines_example = pool_refines job busy_pool-IsValid

task_can_be_taken_example :
    (i : ℕ) × (w : Worker) × (get_elem? (fed 1).workers i ≡ some w)
    × (0 < comes w)
    × ((t : System) × RunBy (IsOf i) (fed 1) t × IsServed (fed 1) t)
unfolding initial insert_task
task_can_be_taken_example =
    task_can_be_taken resources 2 (omega arith) (λ i h. refl) refl (omega arith) (omega arith)
      (Reach-fed 1) refl (omega arith)

-- `main` adds its first task, which a worker takes.
abbrev storage : Resources
storage = record resources { queue_contents = replicate 100 no_task }

abbrev first_task : Task
first_task = record { function = 5; arg = 0 }

abbrev posted : Demo
posted = record {
  i = 1;
  system = record {
    pool = record (insert_task (initial storage 10 100 100) first_task) {
      queue_front = 1;
      queue_size = 0;
    };
    workers = holding first_task ∷ replicate 9 ready;
    manager = head;
    added = first_task ∷ [];
    taken = first_task ∷ [];
  };
}

Run-posted : Run 5 (created storage) posted
unfolding threadpool_add worker_test worker_wake dequeue initial insert_task clear_arg
Run-posted =
    goes_on
      (goes_on (goes_on begins (works (lock 0 refl) tt)) (adds (omega arith) refl (heard 0 refl)))
      (works (relock 0 refl) tt)

main_posts_all_example :
    (posted.system.taken ++ contents posted.system.pool ≡ tasks 5 1)
    × ((◌≡◌ {A = ℕ} 1 40)
        ⊎ ((p : Pool) × (threadpool_add posted.system.pool (record { function = 5; arg = 1 })
              ≡ queued p)))
    × (posted.system.pool.shutdown ≡ false)
    × (posted.system.manager ≢ gone)
main_posts_all_example = main_posts_all 5 storage refl Run-posted
