-- ===== src/PosixPool/Valid.antt =====
-- The representation invariant of the task queue of socket/thread_Pool/main.cpp.
use codespaces_blank.Prelude.{
  ℕ, ◌+◌, ◌-◌, ◌%◌, ◌^◌, ◌≤◌, get_or, ap, ◌∙◌, ◌<◌, ◌≡◌, ◌≢◌, arith, length, length-set, List,
}
use native.Mathlib.Nat.{mod-add-mod, mod-lt}
use codespaces_blank.PosixPool.{
  Task, no_task, Pool, clear_arg, insert_task, threadpool_add, queued, Outcome, waits, retires,
  stops, takes, dequeue, worker_test, worker_wake,
}

-- `storage` is an equation: `task_queue` is allocated with `queue_max_size` elements.
pub record IsValid (p : Pool) : Type 0 where
  pub storage : length p.task_queue ≡ p.queue_max_size
  pub int_range : p.queue_max_size < 2 ^ 31
  pub front_in : p.queue_front < p.queue_max_size
  pub size_in : p.queue_size ≤ p.queue_max_size
  pub rear_at : p.queue_rear ≡ (p.queue_front + p.queue_size) % p.queue_max_size

-- Of what a worker leaves behind.
abbrev pub Leaves : (Pool → Type 0) → Outcome → Type 0
Leaves P (waits p) = P p
Leaves P (retires p) = P p
Leaves P (stops p) = P p
Leaves P (takes t p) = P p

length-clear_arg : (q : List Task) (i : ℕ) → length (clear_arg q i) ≡ length q
unfolding clear_arg
length-clear_arg q i =
    ground (arith, length-set q i (record { function = (get_or q i no_task).function; arg = 0 }))

-- Every index that the code forms lies inside `task_queue`, and no index or count reaches 2 ^ 31.
pub in_bounds :
    {p : Pool}
    → IsValid p
    → (p.queue_front < length p.task_queue)
      × (p.queue_rear < length p.task_queue)
      × (p.queue_front + 1 < 2 ^ 31)
      × (p.queue_rear + 1 < 2 ^ 31)
      × (p.queue_size < 2 ^ 31)
in_bounds v = omega arith

rear-insert : (f s m : ℕ) → ((f + s) % m + 1) % m ≡ (f + (s + 1)) % m
rear-insert f s m = rw mod-add-mod (ap (λ k. k % m) (omega arith))

rear-dequeue : (f s m : ℕ) → s ≢ 0 → (f + s) % m ≡ ((f + 1) % m + (s - 1)) % m
rear-dequeue f s m h = rw mod-add-mod (ap (λ k. k % m) (omega arith))

pub insert_task-IsValid :
    {p : Pool} (t : Task) → IsValid p → p.queue_size ≢ p.queue_max_size → IsValid (insert_task p t)
unfolding insert_task
insert_task-IsValid {p} t v h = record {
  storage =
      length-set (clear_arg p.task_queue p.queue_rear) p.queue_rear t
      ∙ length-clear_arg p.task_queue p.queue_rear
      ∙ v.storage;
  int_range = v.int_range;
  front_in = v.front_in;
  size_in = omega arith;
  rear_at =
      ap (λ k. (k + 1) % p.queue_max_size) v.rear_at
      ∙ rear-insert p.queue_front p.queue_size p.queue_max_size;
}

pub dequeue-IsValid : {p : Pool} → IsValid p → p.queue_size ≢ 0 → Leaves IsValid (dequeue p)
unfolding dequeue
dequeue-IsValid {p} v h = record {
  storage = v.storage;
  int_range = v.int_range;
  front_in = mod-lt (p.queue_front + 1) (omega arith);
  size_in = omega arith;
  rear_at = v.rear_at ∙ rear-dequeue p.queue_front p.queue_size p.queue_max_size h;
}

pub threadpool_add-IsValid :
    {p p' : Pool} (t : Task) → IsValid p → threadpool_add p t ≡ queued p' → IsValid p'
unfolding threadpool_add
threadpool_add-IsValid {p} t v e = ground (arith, insert_task-IsValid t v)

pub worker_test-IsValid : {p : Pool} → IsValid p → Leaves IsValid (worker_test p)
unfolding worker_test
worker_test-IsValid {p} v = ground (arith, dequeue-IsValid v)

-- The invariant does not speak of the thread counts.
pub wait_exit-IsValid :
    {p : Pool} (n : ℕ) → IsValid p → IsValid (record p { wait_exit_thr_num = n })
wait_exit-IsValid n v = omega arith

pub worker_wake-IsValid : {p : Pool} → IsValid p → Leaves IsValid (worker_wake p)
unfolding worker_wake
worker_wake-IsValid {p} v = ground (
  arith,
  worker_test-IsValid v,
  worker_test-IsValid (wait_exit-IsValid (p.wait_exit_thr_num - 1) v),
)
