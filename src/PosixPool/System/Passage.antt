-- ===== src/PosixPool/System/Passage.antt =====
-- What one passage of a worker through the lock of socket/thread_Pool/main.cpp does to the pool.
use codespaces_blank.Prelude.{
  true, false, ◌+◌, ◌∷◌, ◌++◌, [], ℕ, ◌+◌, ◌-◌, ◌<◌, ◌≡◌, ◌≢◌, refl, ◌∷◌, arith, length, Bool-cases,
  ltb, inl, inr,
}
use codespaces_blank.PosixPool.{
  Task, insert_task, threadpool_add, queued, Pool, Outcome, waits, retires, stops, takes,
  worker_test, dequeue, worker_wake,
}
use codespaces_blank.PosixPool.Valid.{
  insert_task-IsValid, IsValid, dequeue-IsValid, wait_exit-IsValid,
}
use codespaces_blank.PosixPool.Fifo.{contents, contents-dequeue, contents-insert_task}

-- A worker's passage leaves this as it was.
pub record Same (p p' : Pool) : Type 0 where
  pub valid : IsValid p'
  pub low : p'.min_thr_num ≡ p.min_thr_num
  pub high : p'.max_thr_num ≡ p.max_thr_num
  pub threads : length p'.threads ≡ length p.threads
  pub busy : p'.busy_thr_num ≡ p.busy_thr_num

abbrev pub Good : Pool → Outcome → Type 0
Good p (waits p') = Same p p' × (p'.live_thr_num ≡ p.live_thr_num) × (contents p' ≡ contents p)
Good p (stops p') = Same p p' × (p'.live_thr_num ≡ p.live_thr_num) × (contents p' ≡ contents p)
Good p (retires p') =
    Same p p'
    × (p'.live_thr_num + 1 ≡ p.live_thr_num)
    × (p.min_thr_num < p.live_thr_num)
    × (contents p' ≡ contents p)
Good p (takes t p') =
    Same p p' × (p'.live_thr_num ≡ p.live_thr_num) × (contents p ≡ t ∷ contents p')

pub Same-refl : {p : Pool} → IsValid p → Same p p
Same-refl v = record { valid = v; low = refl; high = refl; threads = refl; busy = refl }

dequeue-Good : {p : Pool} → IsValid p → p.queue_size ≢ 0 → Good p (dequeue p)
unfolding dequeue
dequeue-Good v h = (
  record { valid = dequeue-IsValid v h; low = refl; high = refl; threads = refl; busy = refl },
  refl,
  contents-dequeue v h,
)

pub worker_test-Good : {p : Pool} → IsValid p → Good p (worker_test p)
unfolding worker_test
worker_test-Good v = ground (arith, dequeue-Good v, Same-refl v)

-- None of this speaks of `wait_exit_thr_num`.
wait_exit-Same : {p p' : Pool} (n : ℕ) → Same (record p { wait_exit_thr_num = n }) p' → Same p p'
wait_exit-Same n g = record {
  valid = g.valid;
  low = g.low;
  high = g.high;
  threads = g.threads;
  busy = g.busy;
}

wait_exit-Good :
    (p : Pool) (n : ℕ) (o : Outcome) → Good (record p { wait_exit_thr_num = n }) o → Good p o
wait_exit-Good p n (waits p') g = (wait_exit-Same n g.0, g.1, g.2)
wait_exit-Good p n (stops p') g = (wait_exit-Same n g.0, g.1, g.2)
wait_exit-Good p n (retires p') g = (wait_exit-Same n g.0, g.1, g.2, g.3)
wait_exit-Good p n (takes t p') g = (wait_exit-Same n g.0, g.1, g.2)

retire-Good :
    {p : Pool} (n : ℕ)
    → IsValid p
    → p.min_thr_num < p.live_thr_num
    → Good p (retires (record p { wait_exit_thr_num = n; live_thr_num = p.live_thr_num - 1 }))
retire-Good n v h = (
  record { valid = omega arith; low = refl; high = refl; threads = refl; busy = refl },
  omega arith,
  h,
  refl,
)

pub worker_wake-Good : {p : Pool} → IsValid p → Good p (worker_wake p)
unfolding worker_wake
worker_wake-Good {p} v = elim (Bool-cases (ltb 0 p.wait_exit_thr_num)) [
  | inr none_to_go ↦ rw none_to_go (worker_test-Good v)
  | inl some_to_go ↦ elim (Bool-cases (ltb p.min_thr_num p.live_thr_num)) [
    | inl above ↦ rw (some_to_go, above) (retire-Good (p.wait_exit_thr_num - 1) v (ground arith))
    | inr least ↦
        rw (some_to_go, least)
          (wait_exit-Good p (p.wait_exit_thr_num - 1) _
            (worker_test-Good (wait_exit-IsValid (p.wait_exit_thr_num - 1) v)))
  ]
]

insert_task-Same :
    {p : Pool} (t : Task)
    → IsValid p
    → p.queue_size < p.queue_max_size
    → Same p (insert_task p t)
      × ((insert_task p t).live_thr_num ≡ p.live_thr_num)
      × ((insert_task p t).queue_size ≡ p.queue_size + 1)
      × (contents (insert_task p t) ≡ contents p ++ (t ∷ []))
unfolding insert_task
insert_task-Same {p} t v h = (
  record {
    valid = insert_task-IsValid t v (omega arith);
    low = refl;
    high = refl;
    threads = refl;
    busy = refl;
  },
  refl,
  refl,
  contents-insert_task t v h,
)

-- What `threadpool_add` does to the pool when it queues a task.
pub threadpool_add-Same :
    {p p' : Pool} (t : Task)
    → IsValid p
    → threadpool_add p t ≡ queued p'
    → Same p p'
      × (p'.live_thr_num ≡ p.live_thr_num)
      × (p'.queue_size ≡ p.queue_size + 1)
      × (contents p' ≡ contents p ++ (t ∷ []))
unfolding threadpool_add
threadpool_add-Same t v e = ground (arith, insert_task-Same t v)

-- What a passage has to do with the end of the pool and with an empty queue.
abbrev pub Calm : Pool → Outcome → Type 0
Calm p (waits p') = (p.shutdown ≡ false) × (p'.shutdown ≡ false) × (p'.queue_size ≡ 0)
Calm p (stops p') = (p.shutdown ≡ true) × (p'.shutdown ≡ true) × (contents p' ≡ contents p)
Calm p (retires p') =
    (p'.shutdown ≡ p.shutdown) × (p.min_thr_num < p.live_thr_num) × (contents p' ≡ contents p)
Calm p (takes t p') = (p.shutdown ≡ false) × (p'.shutdown ≡ false)

pub worker_test-Calm : (p : Pool) → Calm p (worker_test p)
unfolding worker_test dequeue
worker_test-Calm p = ground arith

wait_exit-Calm :
    (p : Pool) (n : ℕ) (o : Outcome) → Calm (record p { wait_exit_thr_num = n }) o → Calm p o
wait_exit-Calm p n (waits p') c = c
wait_exit-Calm p n (stops p') c = c
wait_exit-Calm p n (retires p') c = c
wait_exit-Calm p n (takes t p') c = c

pub worker_wake-Calm : (p : Pool) → Calm p (worker_wake p)
unfolding worker_wake
worker_wake-Calm p = ground (
  arith,
  worker_test-Calm p,
  wait_exit-Calm p (p.wait_exit_thr_num - 1) _
      (worker_test-Calm (record p { wait_exit_thr_num = p.wait_exit_thr_num - 1 })),
)
