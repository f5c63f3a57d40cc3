-- ===== src/ServerPool/Tests.antt =====
-- The pool of socket/Server/ThreadPoll.cpp on zeroed memory, and its first worker.
use codespaces_blank.Prelude.{◌+◌, ◌≡◌, refl, true, false, [], if◌then◌else◌, replicate}
use codespaces_blank.PosixPool.{no_task, Pool, refused, blocked, worker_test}
use codespaces_blank.PosixPool.System.{System, Reach, here, next, lock, pass}
use codespaces_blank.ServerPool.{
  Calls, thread_pool_init, assigned, started, add_task, never_accepts,
}

abbrev calls : Calls
calls = record {
  lock_init = 0;
  counter_init = 0;
  not_full_init = 0;
  not_empty_init = 0;
  tid = λ i. i + 100;
  starts = λ i. true;
  manager_tid = 99;
  queue_contents = λ n. replicate n no_task;
}

abbrev memory : Pool
memory = record {
  threads = [];
  adjust_tid = 0;
  task_queue = [];
  min_thr_num = 0;
  max_thr_num = 0;
  live_thr_num = 0;
  busy_thr_num = 0;
  wait_exit_thr_num = 0;
  queue_front = 0;
  queue_rear = 0;
  queue_size = 0;
  queue_max_size = 0;
  shutdown = false;
}

-- The first worker has looked at the queue.
abbrev looked : System
looked = pass 0 (worker_test (started calls memory).pool) (started calls memory)

Reach-looked : Reach (started calls memory) looked
Reach-looked = next here (lock 0 refl)

-- After that nobody can add a task.
add_task-looked : add_task looked.pool no_task ≡ (if looked.pool.shutdown then refused else blocked)
unfolding thread_pool_init assigned
add_task-looked = (never_accepts calls memory refl refl Reach-looked).2 no_task
