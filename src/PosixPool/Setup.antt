-- ===== src/PosixPool/Setup.antt =====
-- `threadpool_create`, `threadpool_free` and `threadpool_destory` of socket/thread_Pool/main.cpp.
use codespaces_blank.Prelude.{
  ℕ, zero, suc, ◌+◌, ◌<◌, ◌^◌, ◌≡◌, refl, ◌∙◌, Bool, true, false, ◌&&◌, List, [], ◌∷◌, ◌++◌, Option,
  none, some, arith, not, append-nil, append_assoc, ap, take, drop, ◌≤◌, ◌==◌, if◌then◌else◌,
  length, replicate, get_or, set, length-set, length-replicate,
}
use native.Mathlib.Numerals.{add-one}
use codespaces_blank.PosixPool.{Task, Pool}
use codespaces_blank.PosixPool.Valid.{IsValid}

-- What the calls of `threadpool_create` give: whether each `malloc` succeeds, what the four
-- `pthread_…_init` return, the ids of the threads, and what the new `task_queue` holds.
pub record Resources : Type 0 where
  pub pool_memory : Bool
  pub threads_memory : Bool
  pub queue_memory : Bool
  pub lock_init : ℕ
  pub counter_init : ℕ
  pub not_full_init : ℕ
  pub not_empty_init : ℕ
  pub tid : ℕ → ℕ
  pub starts : ℕ → Bool
  pub manager_tid : ℕ
  pub queue_contents : List Task

-- A pointer field of the pool: NULL, an allocated block, or what happened to be in its memory.
pub data Pointer : Type 0 where
  null block wild : Pointer

-- The calls that `threadpool_free` and `threadpool_destory` make.
pub data Call : Type 0 where
  delete_task_queue delete_threads delete_pool : Pointer → Call
  lock_lock destroy_lock lock_counter destroy_counter destroy_not_empty destroy_not_full : Call
  join : ℕ → Call
  broadcast_not_empty : Call

-- The `int` result: -1 or 0.
pub data Status : Type 0 where
  minus_one ok : Status

is_null : Pointer → Bool
is_null null = true
is_null _ = false

-- `threadpool_free`, on NULL or on a pool with its pointers `task_queue` and `threads`.
pub threadpool_free : Option (Pointer × Pointer) → Status × List Call
threadpool_free none = (minus_one, [])
threadpool_free (some (task_queue, threads)) = (
  ok,
  (if is_null task_queue then [] else delete_task_queue task_queue ∷ [])
      ++ (if is_null threads
          then []
          else delete_threads threads
            ∷ lock_lock
            ∷ destroy_lock
            ∷ lock_counter
            ∷ destroy_counter
            ∷ destroy_not_empty
            ∷ destroy_not_full
            ∷ [])
      ++ delete_pool block ∷ [],
)

-- The loop that starts the `n` workers from slot `i`.
pub start_workers : (ℕ → ℕ) → ℕ → ℕ → List ℕ → List ℕ
start_workers tid zero i threads = threads
start_workers tid (suc n) i threads = start_workers tid n (i + 1) (set threads i (tid i))

-- The pool that `threadpool_create` returns.
unfoldable pub initial : Resources → (min_thr_num max_thr_num queue_max_size : ℕ) → Pool
initial r min_thr_num max_thr_num queue_max_size = record {
  threads = start_workers r.tid min_thr_num 0 (replicate max_thr_num 0);
  adjust_tid = r.manager_tid;
  task_queue = r.queue_contents;
  min_thr_num = min_thr_num;
  max_thr_num = max_thr_num;
  live_thr_num = min_thr_num;
  busy_thr_num = 0;
  wait_exit_thr_num = 0;
  queue_front = 0;
  queue_rear = 0;
  queue_size = 0;
  queue_max_size = queue_max_size;
  shutdown = false;
}

-- The pool, or NULL after the calls that clean up.
pub data Created : Type 0 where
  created : Pool → Created
  failed : List Call → Created

-- `threadpool_create`. The memory of the pool is not cleared before its pointers are set.
unfoldable pub threadpool_create :
    Resources → (min_thr_num max_thr_num queue_max_size : ℕ) → Created
threadpool_create r min_thr_num max_thr_num queue_max_size =
    if r.pool_memory
    then if r.threads_memory
      then if r.queue_memory
        then if (r.lock_init == 0)
            && (r.counter_init == 0)
            && (r.not_full_init == 0)
            && (r.not_empty_init == 0)
          then created (initial r min_thr_num max_thr_num queue_max_size)
          else failed (threadpool_free (some (block, block))).1
        else failed (threadpool_free (some (null, block))).1
      else failed (threadpool_free (some (wild, null))).1
    else failed (threadpool_free none).1

joins : List ℕ → ℕ → ℕ → List Call
joins threads i zero = []
joins threads i (suc n) = join (get_or threads i 0) ∷ joins threads (i + 1) n

-- `threadpool_destory`, with the pool as it is once the manager is joined, where no thread
-- retires during the loops: both read `live_thr_num` again in each round.
pub threadpool_destory : Option Pool → Status × List Call
threadpool_destory none = (minus_one, [])
threadpool_destory (some p) = (
  ok,
  join p.adjust_tid ∷ replicate p.live_thr_num broadcast_not_empty
      ++ joins p.threads 0 p.live_thr_num
      ++ (threadpool_free (some (block, block))).1,
)

length-start_workers :
    (tid : ℕ → ℕ) (n i : ℕ) (l : List ℕ) → length (start_workers tid n i l) ≡ length l
unfolding start_workers
length-start_workers tid zero i l = refl
length-start_workers tid (suc n) i l =
    length-start_workers tid n (i + 1) (set l i (tid i)) ∙ length-set l i (tid i)

pub length-threads-initial : (r : Resources) (lo hi m : ℕ) → length (initial r lo hi m).threads ≡ hi
unfolding initial
length-threads-initial r lo hi m =
    length-start_workers r.tid lo 0 (replicate hi 0) ∙ length-replicate hi 0

-- A new pool with a queue of `m` slots is valid, and nothing waits in it.
pub initial-IsValid :
    (r : Resources) (lo hi m : ℕ)
    → length r.queue_contents ≡ m
    → 0 < m
    → m < 2 ^ 31
    → IsValid (initial r lo hi m)
unfolding initial
initial-IsValid r lo hi m h a b = record {
  storage = h;
  int_range = b;
  front_in = a;
  size_in = omega arith;
  rear_at = omega arith;
}

-- The ids that are joined.
abbrev pub joined : List Call → List ℕ
joined [] = []
joined (join tid ∷ l) = tid ∷ joined l
joined (_ ∷ l) = joined l

-- Whether a pointer is deleted that was never set.
abbrev pub deletes_wild : Created → Bool
deletes_wild (created p) = false
deletes_wild (failed l) = any_wild l
  where
    any_wild : List Call → Bool
    any_wild [] = false
    any_wild (delete_task_queue wild ∷ l) = true
    any_wild (delete_threads wild ∷ l) = true
    any_wild (_ ∷ l) = any_wild l

-- `threadpool_create` deletes a pointer that was never set exactly when there is memory for the
-- pool and none for its `threads`.
pub create_deletes_wild :
    (r : Resources) (lo hi m : ℕ)
    → deletes_wild (threadpool_create r lo hi m) ≡ (r.pool_memory && not r.threads_memory)
unfolding threadpool_create threadpool_free is_null
create_deletes_wild r lo hi m = ground arith

-- Where `threadpool_create` returns a pool, every allocation and every initialisation has
-- succeeded, and the pool is a valid empty queue that is not shut down, with `min_thr_num` live
-- threads, if the storage for `queue_max_size` tasks, at least one, was allocated as asked.
pub create_succeeds :
    (r : Resources) (lo hi m : ℕ)
    → length r.queue_contents ≡ m
    → 0 < m
    → m < 2 ^ 31
    → {p : Pool} → threadpool_create r lo hi m ≡ created p
    → (r.pool_memory && r.threads_memory && r.queue_memory ≡ true)
      × (r.lock_init ≡ 0)
      × (r.counter_init ≡ 0)
      × (r.not_full_init ≡ 0)
      × (r.not_empty_init ≡ 0)
      × IsValid p
      × (p.queue_size ≡ 0)
      × (p.shutdown ≡ false)
      × (p.live_thr_num ≡ lo)
unfolding threadpool_create initial
create_succeeds r lo hi m h a b e = ground (arith, initial-IsValid r lo hi m h a b)

drop-suc : (l : List ℕ) (i : ℕ) → i < length l → drop i l ≡ get_or l i 0 ∷ drop (suc i) l
drop-suc [] i h = absurd (omega arith)
drop-suc (x ∷ l) zero h = refl
drop-suc (x ∷ l) (suc i) h = drop-suc l i (omega arith)

joined-broadcasts :
    (n : ℕ) (l : List Call) → joined (replicate n broadcast_not_empty ++ l) ≡ joined l
joined-broadcasts zero l = refl
joined-broadcasts (suc n) l = joined-broadcasts n l

joined-joins :
    (threads : List ℕ) (i n : ℕ) (l : List Call)
    → i + n ≤ length threads
    → joined (joins threads i n ++ l) ≡ take n (drop i threads) ++ joined l
unfolding joins
joined-joins threads i zero l h = refl
joined-joins threads i (suc n) l h =
    rw (drop-suc threads i (omega arith), ← add-one i)
      (ap (λ k. get_or threads i 0 ∷ k) (joined-joins threads (i + 1) n l (omega arith)))

-- Where there are at least `live_thr_num` slots, `threadpool_destory` joins the manager and then the threads of the first `live_thr_num` slots, in
-- the order of the slots and whether or not these are the threads that live.
pub destory_joins_slots :
    (p : Pool)
    → p.live_thr_num ≤ length p.threads
    → joined (threadpool_destory (some p)).1 ≡ p.adjust_tid ∷ take p.live_thr_num p.threads
unfolding threadpool_destory threadpool_free is_null
destory_joins_slots p h =
    let freed = (threadpool_free (some (block, block))).1 in
    ap (λ k. p.adjust_tid ∷ k)
      (ap joined (
          append_assoc (replicate p.live_thr_num broadcast_not_empty)
            (joins p.threads 0 p.live_thr_num) freed)
        ∙ joined-broadcasts p.live_thr_num (joins p.threads 0 p.live_thr_num ++ freed)
        ∙ joined-joins p.threads 0 p.live_thr_num freed (omega (arith, h))
        ∙ append-nil (take p.live_thr_num p.threads))
