-- ===== src/TaskPool.antt =====
-- ThreadPool.h under socket/thread_Pool, the pool of the C++11 version: `std::thread`s with a queue of
-- closures.
-- A step is one passage through `queue_mutex`, or what happens outside it.
pub mod Invariant
pub mod Drain
pub mod Queue
mod Tests
use codespaces_blank.Prelude.{
  ℕ, suc, ◌+◌, ◌≡◌, Bool, true, false, not, ◌&&◌, ◌||◌, List, [], ◌∷◌, ◌++◌, some, if◌then◌else◌,
  get_elem?, get_or, set, replicate,
}

-- `tasks` and `stop`. A task is a number that stands for the closure.
pub record ThreadPool : Type 0 where
  pub tasks : List ℕ
  pub stop : Bool

abbrev pub is_empty : List ℕ → Bool
is_empty [] = true
is_empty (t ∷ ts) = false

-- `enqueue` in its lock: it throws `runtime_error`, or the task is behind the others, and the call of
-- `notify_one` is still to come.
pub data Enqueued : Type 0 where
  thrown : Enqueued
  enqueued : ThreadPool → Enqueued

pub enqueue : ThreadPool → ℕ → Enqueued
enqueue p t = if p.stop then thrown else enqueued (record p { tasks = p.tasks ++ (t ∷ []) })

-- How a worker ends its passage through the lock: in `condition.wait`, by its `return`, or with a
-- task.
pub data Outcome : Type 0 where
  waits : Outcome
  returns : Outcome
  takes : ℕ → ThreadPool → Outcome

abbrev pub tail : List ℕ → List ℕ
tail [] = []
tail (t ∷ ts) = ts

-- `task = std::move(tasks.front()); tasks.pop();`, which is reached only where there is a task
-- (`Invariant.worker_pass-Good`).
pub pop : ThreadPool → Outcome
pop p = takes (get_or p.tasks 0 0) (record p { tasks = tail p.tasks })

-- The lambda of the constructor, from its lock to the end of that scope.
pub worker_pass : ThreadPool → Outcome
worker_pass p =
    if p.stop || not (is_empty p.tasks)
    then if p.stop && is_empty p.tasks then returns else pop p
    else waits

-- Where a worker stands.
pub data Worker : Type 0 where
  ready : Worker  -- at the head of its loop
  waiting : Worker  -- in `condition.wait`
  woken : Worker  -- about to lock again in `condition.wait`
  running : ℕ → Worker  -- in `task()`
  returned : Worker

-- `notifying` is how many callers of `enqueue` have left its lock and not yet called `notify_one`.
-- `queued`, `started` and `finished` record the tasks in the order in which that happened.
pub record System : Type 0 where
  pub pool : ThreadPool
  pub notifying : ℕ
  pub workers : List Worker
  pub queued : List ℕ
  pub started : List ℕ
  pub finished : List ℕ

-- `condition.notify_one()`: nobody waits, or a thread that waits is woken.
pub data Notify (ws : List Worker) : List Worker → Type 0 where
  unheard : ((i : ℕ) → get_elem? ws i ≡ some waiting → ⊥) → Notify ws ws
  heard : (i : ℕ) → get_elem? ws i ≡ some waiting → Notify ws (set ws i woken)

abbrev pub rouse : Worker → Worker
rouse waiting = woken
rouse w = w

-- `condition.notify_all()`
abbrev pub notify_all : List Worker → List Worker
notify_all [] = []
notify_all (w ∷ ws) = rouse w ∷ notify_all ws

abbrev pub pass : ℕ → Outcome → System → System
pass i waits s = record s { workers = set s.workers i waiting }
pass i returns s = record s { workers = set s.workers i returned }
pass i (takes t p) s = record s {
  pool = p;
  workers = set s.workers i (running t);
  started = s.started ++ (t ∷ []);
}

pub data Step (s : System) : System → Type 0 where
  -- `enqueue`: its lock, and behind it its `notify_one`
  submit :
      (t : ℕ) {p : ThreadPool}
      → enqueue s.pool t ≡ enqueued p
      → Step s (record s { pool = p; notifying = s.notifying + 1; queued = s.queued ++ (t ∷ []) })
  notify :
      (n : ℕ) {ws : List Worker}
      → s.notifying ≡ suc n
      → Notify s.workers ws
      → Step s (record s { notifying = n; workers = ws })
  lock : (i : ℕ) → get_elem? s.workers i ≡ some ready → Step s (pass i (worker_pass s.pool) s)
  relock : (i : ℕ) → get_elem? s.workers i ≡ some woken → Step s (pass i (worker_pass s.pool) s)
  spurious :
      (i : ℕ)
      → get_elem? s.workers i ≡ some waiting
      → Step s (record s { workers = set s.workers i woken })
  finish :
      (i : ℕ) (t : ℕ)
      → get_elem? s.workers i ≡ some (running t)
      → Step s (record s { workers = set s.workers i ready; finished = s.finished ++ (t ∷ []) })
  -- The destructor: `stop = true` under the lock, and later `notify_all`.
  stop : Step s (record s { pool = record (s.pool) { stop = true } })
  wake_all : s.pool.stop ≡ true → Step s (record s { workers = notify_all s.workers })

-- `ThreadPool(n)`
abbrev pub start : ℕ → System
start n = record {
  pool = record { tasks = []; stop = false };
  notifying = 0;
  workers = replicate n ready;
  queued = [];
  started = [];
  finished = [];
}

pub data Reach (s : System) : System → Type 0 where
  here : Reach s s
  next : {t u : System} → Reach s t → Step t u → Reach s u
