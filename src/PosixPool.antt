-- ===== src/PosixPool.antt =====
-- socket/thread_Pool/main.cpp (the same text is socket/Server/Thread.cpp): the POSIX thread pool.
-- The state that `lock` and `thread_counter` guard, and what the code does to it while it holds
-- one of them. `System` puts these sections together into interleaved threads.
pub mod Valid
pub mod Fifo
pub mod Demo
pub mod Queue
pub mod Manager
pub mod System
pub mod Setup
mod Tests
use codespaces_blank.Prelude.{
  ℕ, ◌+◌, ◌-◌, ◌%◌, Bool, true, false, not, ◌&&◌, List, ltb, ◌==◌, if◌then◌else◌, get_or, set,
}

-- `threadpool_task_t`. A code or data pointer is a number, and NULL is 0.
pub record Task : Type 0 where
  pub function : ℕ
  pub arg : ℕ

-- what a read outside `task_queue` gives here; `Valid.in_bounds` rules it out
abbrev pub no_task : Task
no_task = record { function = 0; arg = 0 }

-- `threadpool_t`, less its mutexes and condition variables. `threads` holds thread ids, 0 where
-- none was created.
pub record Pool : Type 0 where
  pub threads : List ℕ
  pub adjust_tid : ℕ
  pub task_queue : List Task
  pub min_thr_num : ℕ
  pub max_thr_num : ℕ
  pub live_thr_num : ℕ
  pub busy_thr_num : ℕ
  pub wait_exit_thr_num : ℕ
  pub queue_front : ℕ
  pub queue_rear : ℕ
  pub queue_size : ℕ
  pub queue_max_size : ℕ
  pub shutdown : Bool

-- `if (task_queue[queue_rear].arg != NULL) task_queue[queue_rear].arg = NULL;`
clear_arg : List Task → ℕ → List Task
clear_arg q i =
    if (get_or q i no_task).arg == 0
    then q
    else set q i (record { function = (get_or q i no_task).function; arg = 0 })

-- From the clearing of the slot to `queue_size++`.
pub insert_task : Pool → Task → Pool
insert_task p t = record p {
  task_queue = set (clear_arg p.task_queue p.queue_rear) p.queue_rear t;
  queue_rear = (p.queue_rear + 1) % p.queue_max_size;
  queue_size = p.queue_size + 1;
}

-- How a passage through the lock of `threadpool_add` ends: the caller waits on `queue_not_full`;
-- or the pool is shut down, and it broadcasts `queue_not_empty`; or it has queued the task, and
-- signals `queue_not_empty`. The last two return 0.
pub data AddResult : Type 0 where
  blocked : AddResult
  refused : AddResult
  queued : Pool → AddResult

-- `threadpool_add`, from the test of its `while`, which comes again after each wake-up.
pub threadpool_add : Pool → Task → AddResult
threadpool_add p t =
    if (p.queue_size == p.queue_max_size) && not p.shutdown
    then blocked
    else if p.shutdown
    then refused
    else queued (insert_task p t)

-- How a passage of a worker through the lock ends.
pub data Outcome : Type 0 where
  waits : Pool → Outcome  -- in `pthread_cond_wait(&queue_not_empty, &lock)`
  retires : Pool → Outcome  -- in the `pthread_exit` of a surplus thread
  stops : Pool → Outcome  -- in the `pthread_exit` of a shutdown
  takes : Task → Pool → Outcome  -- with the lock released, holding a task

-- The dequeue. `queue_size--` runs only where the queue is not empty (`Valid.dequeue-IsValid`).
pub dequeue : Pool → Outcome
dequeue p = takes (get_or p.task_queue p.queue_front no_task) (record p {
  queue_front = (p.queue_front + 1) % p.queue_max_size;
  queue_size = p.queue_size - 1;
})

-- `threadpool_thread` with the lock held, from the test of the inner `while`.
pub worker_test : Pool → Outcome
worker_test p =
    if (p.queue_size == 0) && not p.shutdown
    then waits p
    else if p.shutdown
    then stops p
    else dequeue p

-- `threadpool_thread` from the return of `pthread_cond_wait`: the surplus threads go.
pub worker_wake : Pool → Outcome
worker_wake p =
    if ltb 0 p.wait_exit_thr_num
    then if ltb p.min_thr_num p.live_thr_num
      then retires (record fewer { live_thr_num = fewer.live_thr_num - 1 })
      else worker_test fewer
    else worker_test p
  where
    fewer : Pool
    fewer = record p { wait_exit_thr_num = p.wait_exit_thr_num - 1 }

-- `busy_thr_num++` and `busy_thr_num--`, each under `thread_counter`. The second is reached only
-- after the first (`System.Sound.Inv.busy`).
pub work_begins : Pool → Pool
work_begins p = record p { busy_thr_num = p.busy_thr_num + 1 }

pub work_ends : Pool → Pool
work_ends p = record p { busy_thr_num = p.busy_thr_num - 1 }
