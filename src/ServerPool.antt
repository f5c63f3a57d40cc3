-- ===== src/ServerPool.antt =====
-- socket/Server/ThreadPoll.cpp: the thread pool as a class. `addTask`, `createThread` and
-- `createManagerThread` have the text of socket/thread_Pool/main.cpp, so the code that runs after
-- `ThreadPoolInit` is `PosixPool.System`.
mod Tests
use codespaces_blank.Prelude.{
  ℕ, ◌≡◌, refl, arith, Bool, true, false, ◌&&◌, List, [], ◌==◌, if◌then◌else◌, replicate,
}
use codespaces_blank.PosixPool.Manager.{Kernel, adjust_grow, adjust_shrink}
use codespaces_blank.PosixPool.{
  Outcome, AddResult, worker_test, worker_wake, Task, Pool, threadpool_add, refused, blocked,
}
use codespaces_blank.PosixPool.Setup.{start_workers}
use codespaces_blank.PosixPool.System.{System, launch, head, Reach}
use codespaces_blank.PosixPool.System.Stuck.{IsStuck, Reach-IsStuck, threadpool_add-stuck}

-- `MIN_THREAD_NUM` and `MAX_THREAD_NUM`
abbrev pub min_thread_num : ℕ
min_thread_num = 4

abbrev pub max_thread_num : ℕ
max_thread_num = 100

-- What the calls of `ThreadPoolInit` give: the four `pthread_…_init`, the ids of the threads, and
-- what the new `task_queue` holds, for a number of elements.
pub record Calls : Type 0 where
  pub lock_init : ℕ
  pub counter_init : ℕ
  pub not_full_init : ℕ
  pub not_empty_init : ℕ
  pub tid : ℕ → ℕ
  pub starts : ℕ → Bool
  pub manager_tid : ℕ
  pub queue_contents : ℕ → List Task

-- The fields that `ThreadPoolInit` assigns. `queue_max_size` is assigned to itself. Both calls of
-- `bzero` clear `threads`; where `queue_max_size` is over 50 the second runs past its end, which
-- is not modelled.
unfoldable pub assigned : Calls → Pool → Pool
assigned c p = record p {
  min_thr_num = min_thread_num;
  max_thr_num = max_thread_num;
  busy_thr_num = 0;
  live_thr_num = min_thread_num;
  wait_exit_thr_num = 0;
  queue_size = 0;
  queue_max_size = p.queue_max_size;
  queue_front = 0;
  queue_rear = 0;
  shutdown = false;
  threads = replicate max_thread_num 0;
  task_queue = c.queue_contents p.queue_max_size;
}

-- `ThreadPoolInit` on the memory of the object.
unfoldable pub thread_pool_init : Calls → Pool → Bool × Pool
thread_pool_init c p =
    if (c.lock_init == 0)
      && (c.counter_init == 0)
      && (c.not_full_init == 0)
      && (c.not_empty_init == 0)
    then (
      true,
      record (assigned c p) {
        threads = start_workers c.tid min_thread_num 0 (assigned c p).threads;
        adjust_tid = c.manager_tid;
      },
    )
    else (false, assigned c p)

-- `addTask`, with its lock held.
abbrev pub add_task : Pool → Task → AddResult
add_task = threadpool_add

-- `createThread`, with its lock held: from the test of the inner `while`, and from the return of
-- `pthread_cond_wait`.
abbrev pub create_thread_test : Pool → Outcome
create_thread_test = worker_test

abbrev pub create_thread_wake : Pool → Outcome
create_thread_wake = worker_wake

-- `createManagerThread`: the creation of threads, and the order to end some.
abbrev pub manager_grow : Kernel → (queue_size live_thr_num : ℕ) → Pool → ℕ × Pool
manager_grow = adjust_grow

abbrev pub manager_shrink : (busy_thr_num live_thr_num : ℕ) → Pool → ℕ × Pool
manager_shrink = adjust_shrink

-- The threads as `ThreadPoolInit` leaves them.
abbrev pub started : Calls → Pool → System
started c p = record {
  pool = (thread_pool_init c p).1;
  workers = launch c.starts 0 min_thread_num;
  manager = head;
  added = [];
  taken = [];
}

init-sizes :
    (c : Calls) (p : Pool)
    → p.queue_max_size ≡ 0
    → ((thread_pool_init c p).1.queue_size ≡ 0) × ((thread_pool_init c p).1.queue_max_size ≡ 0)
unfolding thread_pool_init assigned
init-sizes c p h = ground arith

pub started-IsStuck :
    (c : Calls) (p : Pool) → p.queue_max_size ≡ 0 → {s : System} → Reach (started c p) s → IsStuck s
started-IsStuck c p h =
    Reach-IsStuck (record { none_fits = init-sizes c p h; none_added = refl; none_taken = refl })

-- On an object whose memory was zero, where `ThreadPoolInit` returns true, whatever the threads
-- then do, no task is ever accepted and
-- none is ever taken: `addTask` waits for ever, or until the pool is shut down, and then turns the
-- task away.
pub never_accepts :
    (c : Calls) (p : Pool)
    → p.queue_max_size ≡ 0
    → (thread_pool_init c p).0 ≡ true
    → {s : System} → Reach (started c p) s
    → (s.added ≡ [])
      × (s.taken ≡ [])
      × ((t : Task) → add_task s.pool t ≡ (if s.pool.shutdown then refused else blocked))
never_accepts c p h ok {s} r =
    let v = started-IsStuck c p h r in
    (v.none_added, v.none_taken, λ t. threadpool_add-stuck s.pool t v.none_fits)
