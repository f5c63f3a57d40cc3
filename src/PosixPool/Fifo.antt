-- ===== src/PosixPool/Fifo.antt =====
-- `task_queue` of socket/thread_Pool/main.cpp as a first-in first-out queue.
use native.Mathlib.Nat.{mod-add-mod, mod-eq_of_lt, mod-eq-sub-mod, mod-lt, lt_of_lt_of_le}
use native.Mathlib.Numerals.{add-one}
use codespaces_blank.Prelude.{
  ℕ, zero, suc, ◌+◌, ◌-◌, ◌%◌, ◌≤◌, ◌<◌, ◌≡◌, ◌≢◌, refl, sym, ap, ap₂, ◌∙◌, List, [], ◌∷◌, ◌++◌,
  arith, length, get_or, set, get_or-set_self, get_or-set_ne, set-set, dec_lt, ◌==◌, true, false,
  inl, inr, ◌⊎◌, Bool, if◌then◌else◌, ltb, ◌&&◌,
}
use codespaces_blank.PosixPool.{
  Task, no_task, Pool, clear_arg, insert_task, threadpool_add, AddResult, blocked, refused, queued,
  Outcome, waits, retires, stops, takes, dequeue, worker_test, worker_wake,
}
use codespaces_blank.PosixPool.Valid.{IsValid, wait_exit-IsValid}

-- The `n` tasks from offset `i` behind the front `f` of a circle of `m` slots.
abbrev pub items : List Task → ℕ → ℕ → ℕ → ℕ → List Task
items q m f i zero = []
items q m f i (suc n) = get_or q ((f + i) % m) no_task ∷ items q m f (i + 1) n

-- The tasks that wait, the oldest first.
abbrev pub contents : Pool → List Task
contents p = items p.task_queue p.queue_max_size p.queue_front 0 p.queue_size

pub length-items : (q : List Task) (m f i n : ℕ) → length (items q m f i n) ≡ n
length-items q m f i zero = refl
length-items q m f i (suc n) = ap suc (length-items q m f (i + 1) n)

once_round : (x m : ℕ) → x < m + m → ((x < m) × (x % m ≡ x)) ⊎ ((m ≤ x) × (x % m ≡ x - m))
once_round x m h = elim (dec_lt x m) [
  | yes p ↦ inl (p, mod-eq_of_lt p)
  | no p ↦ inr (omega arith, mod-eq-sub-mod (omega arith) ∙ mod-eq_of_lt (omega arith))
]

-- Two offsets less than a round apart are two slots.
slot-ne : {m f a b : ℕ} → f < m → a < b → b < m → (f + a) % m ≢ (f + b) % m
slot-ne {m} {f} {a} {b} h p q =
    ground (arith, once_round (f + a) m (omega arith), once_round (f + b) m (omega arith))

-- The queue with one task more in the slot behind its end.
items-set :
    (q : List Task) (m f : ℕ) (t : Task) (i n s : ℕ)
    → f < m
    → m ≤ length q
    → i + n ≡ s
    → s < m
    → items (set q ((f + s) % m) t) m f i (suc n) ≡ items q m f i n ++ (t ∷ [])
items-set q m f t i zero s h l e b =
    ap (λ k. k ∷ [])
      (ap (λ k. get_or (set q ((f + s) % m) t) ((f + k) % m) no_task) (omega arith)
        ∙ get_or-set_self q ((f + s) % m) t no_task
            (lt_of_lt_of_le (mod-lt (f + s) (omega arith)) l))
items-set q m f t i (suc n) s h l e b =
    ap₂ ◌∷◌ (get_or-set_ne q t no_task (λ c. slot-ne h (omega arith) b (sym c)))
      (items-set q m f t (i + 1) n s h l (omega arith) b)

-- After a dequeue the queue is counted from the next slot.
items-front : (q : List Task) (m f i n : ℕ) → items q m ((f + 1) % m) i n ≡ items q m f (i + 1) n
items-front q m f i zero = refl
items-front q m f i (suc n) =
    ap₂ ◌∷◌ (ap (λ k. get_or q k no_task) (mod-add-mod (f + 1) m i ∙ ap (λ k. k % m) (omega arith)))
      (items-front q m f (i + 1) n)

items_of_ne_zero :
    (q : List Task) (m f i n : ℕ)
    → n ≢ 0
    → items q m f i n ≡ get_or q ((f + i) % m) no_task ∷ items q m f (i + 1) (n - 1)
items_of_ne_zero q m f i zero h = absurd (h refl)
items_of_ne_zero q m f i (suc n) h = ap (λ k. items q m f i (suc k)) (omega arith)

-- The clearing of the slot is overwritten.
set-clear_arg : (q : List Task) (i : ℕ) (t : Task) → set (clear_arg q i) i t ≡ set q i t
unfolding clear_arg
set-clear_arg q i t =
    ground (arith, set-set q i (record { function = (get_or q i no_task).function; arg = 0 }) t)

pub contents-insert_task :
    {p : Pool} (t : Task)
    → IsValid p
    → p.queue_size < p.queue_max_size
    → contents (insert_task p t) ≡ contents p ++ (t ∷ [])
unfolding insert_task
contents-insert_task {p} t v h =
    ap (λ k. items k p.queue_max_size p.queue_front 0 (p.queue_size + 1))
      (set-clear_arg p.task_queue p.queue_rear t ∙ ap (λ k. set p.task_queue k t) v.rear_at)
    ∙ ap
        (items (set p.task_queue ((p.queue_front + p.queue_size) % p.queue_max_size) t)
          p.queue_max_size p.queue_front 0)
        (add-one p.queue_size)
    ∙ items-set p.task_queue p.queue_max_size p.queue_front t 0 p.queue_size p.queue_size v.front_in
        (omega arith) (omega arith) h

-- What a dequeue leaves, one slot on, is the rest of the queue.
pub contents-dequeue :
    {p : Pool}
    → IsValid p
    → p.queue_size ≢ 0
    → contents p
      ≡ get_or p.task_queue p.queue_front no_task
        ∷ items p.task_queue p.queue_max_size
            ((p.queue_front + 1) % p.queue_max_size)
            0
            (p.queue_size - 1)
contents-dequeue {p} v h =
    items_of_ne_zero p.task_queue p.queue_max_size p.queue_front 0 p.queue_size h
    ∙ ap₂ ◌∷◌
        (ap (λ k. get_or p.task_queue k no_task)
          (ap (λ k. k % p.queue_max_size) (omega arith) ∙ mod-eq_of_lt v.front_in))
        (sym (items-front p.task_queue p.queue_max_size p.queue_front 0 (p.queue_size - 1)))

-- A bounded queue of tasks with a flag that closes it, and nothing else.
pub data Reply : Type 0 where
  wait : List Task → Reply
  retire : List Task → Reply
  stop : List Task → Reply
  take : Task → List Task → Reply

pub data Answer : Type 0 where
  full : Answer
  closed : Answer
  accepted : List Task → Answer

abbrev pub spec_take : Bool → List Task → Reply
spec_take true q = stop q
spec_take false [] = wait []
spec_take false (t ∷ q) = take t q

abbrev pub spec_add : ℕ → Bool → List Task → Task → Answer
spec_add m true q t = closed
spec_add m false q t = if length q == m then full else accepted (q ++ (t ∷ []))

-- What a worker, and a caller of `threadpool_add`, can tell of an outcome.
abbrev pub seen : Outcome → Reply
seen (waits p) = wait (contents p)
seen (retires p) = retire (contents p)
seen (stops p) = stop (contents p)
seen (takes t p) = take t (contents p)

abbrev pub answer : AddResult → Answer
answer blocked = full
answer refused = closed
answer (queued p) = accepted (contents p)

threadpool_add-spec_add :
    {p : Pool} (t : Task)
    → IsValid p
    → answer (threadpool_add p t) ≡ spec_add p.queue_max_size p.shutdown (contents p) t
unfolding threadpool_add
threadpool_add-spec_add {p} t v = ground (
  arith,
  length-items p.task_queue p.queue_max_size p.queue_front 0 p.queue_size,
  contents-insert_task t v,
)

worker_test-spec_take :
    {p : Pool} → IsValid p → seen (worker_test p) ≡ spec_take p.shutdown (contents p)
unfolding worker_test dequeue
worker_test-spec_take {p} v = ground (
  arith,
  contents-dequeue v,
  length-items p.task_queue p.queue_max_size p.queue_front 0 p.queue_size,
)

-- A valid pool is the bounded queue of its waiting tasks. `threadpool_add` waits exactly when the
-- queue is full and open, is turned away exactly when it is closed, and else puts the task behind all
-- that wait. A worker that holds the lock waits exactly when the queue is empty and open, stops
-- exactly when it is closed, and else takes the oldest task and leaves the others in their order. A
-- worker that wakes up retires exactly when the manager wants fewer threads and there are more than
-- `min_thr_num`, whatever waits in the queue; else it goes on as one that has just locked.
pub pool_refines :
    {p : Pool} (t : Task)
    → IsValid p
    → (answer (threadpool_add p t) ≡ spec_add p.queue_max_size p.shutdown (contents p) t)
      × (seen (worker_test p) ≡ spec_take p.shutdown (contents p))
      × (seen (worker_wake p) ≡ (
          if ltb 0 p.wait_exit_thr_num && ltb p.min_thr_num p.live_thr_num
          then retire (contents p)
          else spec_take p.shutdown (contents p)))
unfolding worker_wake
pool_refines {p} t v =
    let now = worker_test-spec_take v in
    let later = worker_test-spec_take (wait_exit-IsValid (p.wait_exit_thr_num - 1) v) in
    (threadpool_add-spec_add t v, now, ground (arith, now, later))
