-- ===== src/PosixPool/System.antt =====
-- The threads of socket/thread_Pool/main.cpp (and of socket/Server/Thread.cpp) in any order.
-- A step is one passage through a lock, or one access outside a lock. `pthread_cond_wait` may
-- return at any time, as POSIX allows, and a signal wakes one thread that waits, whichever.
pub mod Passage
pub mod Sound
pub mod Invariant
pub mod Closed
pub mod Wakeups
pub mod Stuck
pub mod Progress
pub mod Leaving
pub mod Shutdown
use codespaces_blank.Prelude.{
  ℕ, zero, suc, ◌+◌, ◌≡◌, Bool, true, false, List, [], ◌∷◌, ◌++◌, some, get_elem?, set,
  if◌then◌else◌, ◌<◌,
}
use codespaces_blank.PosixPool.{
  Task, Pool, threadpool_add, queued, refused, Outcome, waits, retires, stops, takes, worker_test,
  worker_wake, work_begins, work_ends,
}
use codespaces_blank.PosixPool.Manager.{Kernel, adjust_grow, adjust_shrink}
use codespaces_blank.PosixPool.Setup.{Resources, initial}

-- Where a thread in `threadpool_thread` stands.
pub data Worker : Type 0 where
  ready : Worker  -- at the head of its loop
  waiting : Worker  -- in `pthread_cond_wait`
  woken : Worker  -- about to return from there
  holding : Task → Worker  -- with a task, before `busy_thr_num++`
  running : Task → Worker  -- in the task's function, before `busy_thr_num--`
  retired : Worker  -- ended as surplus
  stopped : Worker  -- ended by the shutdown
  missing : Worker  -- its `pthread_create` has failed

-- Where the thread in `adjust_thread` stands, with what it has read.
pub data Manager : Type 0 where
  head : Manager
  asleep : Manager
  counted : (queue_size live_thr_num : ℕ) → Manager
  sampled : (queue_size live_thr_num busy_thr_num : ℕ) → Manager
  grown : (live_thr_num busy_thr_num : ℕ) → Manager
  signalling : ℕ → Manager
  gone : Manager

-- `added` and `taken` record the tasks that went in and out, in their order.
pub record System : Type 0 where
  pub pool : Pool
  pub workers : List Worker
  pub manager : Manager
  pub added : List Task
  pub taken : List Task

-- `pthread_cond_signal(&queue_not_empty)`: nobody waits, or a thread that waits is woken.
pub data Signal (ws : List Worker) : List Worker → Type 0 where
  unheard : ((i : ℕ) → get_elem? ws i ≡ some waiting → ⊥) → Signal ws ws
  heard : (i : ℕ) → get_elem? ws i ≡ some waiting → Signal ws (set ws i woken)

abbrev pub rouse : Worker → Worker
rouse waiting = woken
rouse w = w

-- `pthread_cond_broadcast(&queue_not_empty)`
abbrev pub rouse_all : List Worker → List Worker
rouse_all [] = []
rouse_all (w ∷ ws) = rouse w ∷ rouse_all ws

-- Worker `i` ends its passage through the lock.
abbrev pub pass : ℕ → Outcome → System → System
pass i (waits p) s = record s { pool = p; workers = set s.workers i waiting }
pass i (retires p) s = record s { pool = p; workers = set s.workers i retired }
pass i (stops p) s = record s { pool = p; workers = set s.workers i stopped }
pass i (takes t p) s = record s {
  pool = p;
  workers = set s.workers i (holding t);
  taken = s.taken ++ (t ∷ []);
}

-- `n` calls of `pthread_create` from number `i` on, whose result the code does not look at.
abbrev pub launch : (starts : ℕ → Bool) → (i n : ℕ) → List Worker
launch starts i zero = []
launch starts i (suc n) = (if starts i then ready else missing) ∷ launch starts (i + 1) n

-- The manager's creation of threads, and its order to end some.
abbrev pub enlarge : (ℕ → Bool) → ℕ × Pool → (live_thr_num busy_thr_num : ℕ) → System → System
enlarge starts (n, p) l b s = record s {
  pool = p;
  workers = s.workers ++ launch starts 0 n;
  manager = grown l b;
}

abbrev pub reduce : ℕ × Pool → System → System
reduce (n, p) s = record s { pool = p; manager = signalling n }

pub data Step (s : System) : System → Type 0 where
  -- `threadpool_add`
  submit :
      (t : Task) {p : Pool} {ws : List Worker}
      → threadpool_add s.pool t ≡ queued p
      → Signal s.workers ws
      → Step s (record s { pool = p; workers = ws; added = s.added ++ (t ∷ []) })
  submit_closed :
      (t : Task)
      → threadpool_add s.pool t ≡ refused
      → Step s (record s { workers = rouse_all s.workers })
  -- `threadpool_thread`
  lock : (i : ℕ) → get_elem? s.workers i ≡ some ready → Step s (pass i (worker_test s.pool) s)
  relock : (i : ℕ) → get_elem? s.workers i ≡ some woken → Step s (pass i (worker_wake s.pool) s)
  spurious :
      (i : ℕ)
      → get_elem? s.workers i ≡ some waiting
      → Step s (record s { workers = set s.workers i woken })
  begin :
      (i : ℕ) (t : Task)
      → get_elem? s.workers i ≡ some (holding t)
      → Step s (record s { pool = work_begins s.pool; workers = set s.workers i (running t) })
  finish :
      (i : ℕ) (t : Task)
      → get_elem? s.workers i ≡ some (running t)
      → Step s (record s { pool = work_ends s.pool; workers = set s.workers i ready })
  -- `adjust_thread`
  go_on : s.manager ≡ head → s.pool.shutdown ≡ false → Step s (record s { manager = asleep })
  leave : s.manager ≡ head → s.pool.shutdown ≡ true → Step s (record s { manager = gone })
  count :
      s.manager ≡ asleep
      → Step s (record s { manager = counted s.pool.queue_size s.pool.live_thr_num })
  sample :
      {q l : ℕ}
      → s.manager ≡ counted q l
      → Step s (record s { manager = sampled q l s.pool.busy_thr_num })
  grow :
      (k : Kernel) {q l b : ℕ}
      → s.manager ≡ sampled q l b
      → Step s (enlarge k.starts (adjust_grow k q l s.pool) l b s)
  shrink : {l b : ℕ} → s.manager ≡ grown l b → Step s (reduce (adjust_shrink b l s.pool) s)
  signal_one :
      {n : ℕ} {ws : List Worker}
      → s.manager ≡ signalling (suc n)
      → Signal s.workers ws
      → Step s (record s { workers = ws; manager = signalling n })
  signalled : s.manager ≡ signalling 0 → Step s (record s { manager = head })
  -- `threadpool_destory`: the broadcasts come behind the join of the manager, while a thread is counted.
  shut : Step s (record s { pool = record (s.pool) { shutdown = true } })
  rouse_idle :
      s.manager ≡ gone
      → 0 < s.pool.live_thr_num
      → s.pool.shutdown ≡ true
      → Step s (record s { workers = rouse_all s.workers })

-- What `threadpool_create(min_thr_num, max_thr_num, queue_max_size)` starts. The creation of a worker
-- may fail unnoticed; that of the manager is taken to succeed.
abbrev pub start : Resources → (min_thr_num max_thr_num queue_max_size : ℕ) → System
start r lo hi m = record {
  pool = initial r lo hi m;
  workers = launch r.starts 0 lo;
  manager = head;
  added = [];
  taken = [];
}

pub data Reach (s : System) : System → Type 0 where
  here : Reach s s
  next : {t u : System} → Reach s t → Step t u → Reach s u

-- A run of steps of one kind.
pub data RunBy (P : (s t : System) → Step s t → Type 0) (s : System) : System → Type 0 where
  at_rest : RunBy P s s
  moves : {t u : System} → RunBy P s t → (x : Step t u) → P t u x → RunBy P s u
