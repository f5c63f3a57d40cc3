-- ===== src/PosixPool/System/Progress.antt =====
-- A task that waits in socket/thread_Pool/main.cpp can always be taken.
use codespaces_blank.Prelude.{
  some_of_total, ℕ, ◌+◌, ◌-◌, ◌%◌, ◌≤◌, ◌<◌, ◌≡◌, ◌^◌, refl, false, true, [], ◌∷◌, ◌++◌, some,
  arith, get_elem?, get_elem?-set_self, get_or, set, length, Bool-cases, inl, inr, ltb,
}
use codespaces_blank.PosixPool.{
  Task, no_task, Pool, Outcome, takes, dequeue, worker_test, worker_wake, work_begins, work_ends,
}
use codespaces_blank.PosixPool.Valid.{IsValid, wait_exit-IsValid}
use codespaces_blank.PosixPool.Fifo.{contents, contents-dequeue}
use codespaces_blank.PosixPool.Setup.{Resources}
use codespaces_blank.PosixPool.System.Invariant.{Reach-IsSound, start-IsSound}
use codespaces_blank.PosixPool.System.Wakeups.{comes, no_lost_wakeup}
use codespaces_blank.PosixPool.System.{
  Worker, ready, waiting, woken, holding, running, retired, stopped, missing, System, pass, start,
  Step, lock, relock, begin, finish, Reach, RunBy, at_rest, moves,
}

pub RunBy-trans :
    {P : (s t : System) → Step s t → Type 0} {s t u : System}
    → RunBy P s t
    → RunBy P t u
    → RunBy P s u
RunBy-trans r at_rest = r
RunBy-trans r (moves q st p) = moves (RunBy-trans r q) st p

-- A step that worker `i` takes by itself.
abbrev pub IsOf : ℕ → (s t : System) → Step s t → Type 0
IsOf i s t (lock j _) = j ≡ i
IsOf i s t (relock j _) = j ≡ i
IsOf i s t (begin j _ _) = j ≡ i
IsOf i s t (finish j _ _) = j ≡ i
IsOf i s t _ = ⊥

-- A thread takes the oldest task, and the others stay as they are.
abbrev pub IsServed : System → System → Type 0
IsServed s t =
    (x : Task) × (t.taken ≡ s.taken ++ (x ∷ [])) × (contents s.pool ≡ x ∷ contents t.pool)

-- The pool is open and has a task.
record HasTask (p : Pool) : Type 0 where
  valid : IsValid p
  open_ : p.shutdown ≡ false
  some_task : 0 < p.queue_size

abbrev Takes : Pool → Outcome → Type 0
Takes p o = (x : Task) × (p' : Pool) × (o ≡ takes x p') × (contents p ≡ x ∷ contents p')

worker_test-Takes : (p : Pool) → HasTask p → Takes p (worker_test p)
unfolding worker_test dequeue
worker_test-Takes p h = (
  get_or p.task_queue p.queue_front no_task,
  record p { queue_front = (p.queue_front + 1) % p.queue_max_size; queue_size = p.queue_size - 1 },
  ground (arith, h.open_, h.some_task),
  contents-dequeue h.valid (omega (arith, h.some_task)),
)

worker_wake-Takes :
    (p : Pool) → HasTask p → p.live_thr_num ≤ p.min_thr_num → Takes p (worker_wake p)
unfolding worker_wake
worker_wake-Takes p h few = elim (Bool-cases (ltb 0 p.wait_exit_thr_num)) [
  | inr none_wanted ↦ rw none_wanted (worker_test-Takes p h)
  | inl wanted ↦
      let small : ltb p.min_thr_num p.live_thr_num ≡ false = ground arith in
      rw (wanted, small)
        (worker_test-Takes (record p { wait_exit_thr_num = p.wait_exit_thr_num - 1 })
          (record {
            valid = wait_exit-IsValid (p.wait_exit_thr_num - 1) h.valid;
            open_ = h.open_;
            some_task = h.some_task;
          }))
]

pass-IsServed : (s : System) (i : ℕ) {o : Outcome} → Takes s.pool o → IsServed s (pass i o s)
pass-IsServed s i (x, p', e, c) = rw e (x, refl, c)

-- The steps of a thread that comes, up to its taking of a task.
module _ (s : System) (i : ℕ) (h : HasTask s.pool) where
  ready-serves :
      get_elem? s.workers i ≡ some ready → (t : System) × RunBy (IsOf i) s t × IsServed s t
  ready-serves e = (
    pass i (worker_test s.pool) s,
    moves at_rest (lock i e) refl,
    pass-IsServed s i (worker_test-Takes s.pool h),
  )

  woken-serves :
      s.pool.live_thr_num ≤ s.pool.min_thr_num
      → get_elem? s.workers i ≡ some woken
      → (t : System) × RunBy (IsOf i) s t × IsServed s t
  woken-serves few e = (
    pass i (worker_wake s.pool) s,
    moves at_rest (relock i e) refl,
    pass-IsServed s i (worker_wake-Takes s.pool h few),
  )

busy-IsValid : {p : Pool} (n : ℕ) → IsValid p → IsValid (record p { busy_thr_num = n })
busy-IsValid n v = omega arith

busy-HasTask : {p : Pool} (n : ℕ) → HasTask p → HasTask (record p { busy_thr_num = n })
busy-HasTask n h = record {
  valid = busy-IsValid n h.valid;
  open_ = h.open_;
  some_task = h.some_task;
}

running-serves :
    (s : System) (i : ℕ) (x : Task)
    → HasTask s.pool
    → get_elem? s.workers i ≡ some (running x)
    → (t : System) × RunBy (IsOf i) s t × IsServed s t
unfolding work_ends
running-serves s i x h e =
    let u : System = record s { pool = work_ends s.pool; workers = set s.workers i ready } in
    let (t, r, served) =
      ready-serves u i (busy-HasTask (s.pool.busy_thr_num - 1) h)
        (get_elem?-set_self s.workers i ready e) in
    (t, RunBy-trans (moves at_rest (finish i x e) refl) r, served)

holding-serves :
    (s : System) (i : ℕ) (x : Task)
    → HasTask s.pool
    → get_elem? s.workers i ≡ some (holding x)
    → (t : System) × RunBy (IsOf i) s t × IsServed s t
unfolding work_begins
holding-serves s i x h e =
    let u : System = record s {
      pool = work_begins s.pool;
      workers = set s.workers i (running x);
    } in
    let (t, r, served) =
      running-serves u i x (busy-HasTask (s.pool.busy_thr_num + 1) h)
        (get_elem?-set_self s.workers i (running x) e) in
    (t, RunBy-trans (moves at_rest (begin i x e) refl) r, served)

serves :
    (s : System) (i : ℕ) (w : Worker)
    → HasTask s.pool
    → s.pool.live_thr_num ≤ s.pool.min_thr_num
    → get_elem? s.workers i ≡ some w
    → 0 < comes w
    → (t : System) × RunBy (IsOf i) s t × IsServed s t
serves s i ready h few e c = ready-serves s i h e
serves s i woken h few e c = woken-serves s i h few e
serves s i (holding x) h few e c = holding-serves s i x h e
serves s i (running x) h few e c = running-serves s i x h e
serves s i waiting h few e c = absurd (omega arith)
serves s i retired h few e c = absurd (omega arith)
serves s i stopped h few e c = absurd (omega arith)
serves s i missing h few e c = absurd (omega arith)

-- Every task can be reached by a thread: in a pool whose `min_thr_num` and `max_thr_num` are one
-- positive number, where the creation of these threads succeeds, with storage for a queue of 1 to
-- 2 ^ 31 - 1 slots, in every reachable state that is not shut down and where a task waits, there is a
-- thread that is awake and whose own steps, without a step of anyone else, lead to a state in which
-- the oldest task has been taken, and the others wait as before.
pub task_can_be_taken :
    {lo : ℕ} (r : Resources) (m : ℕ)
    → 0 < lo
    → ((i : ℕ) → i < lo → r.starts i ≡ true)
    → length r.queue_contents ≡ m
    → 0 < m
    → m < 2 ^ 31
    → {s : System} → Reach (start r lo lo m) s
    → s.pool.shutdown ≡ false
    → 0 < s.pool.queue_size
    → (i : ℕ) × (w : Worker) × (get_elem? s.workers i ≡ some w)
      × (0 < comes w)
      × ((t : System) × RunBy (IsOf i) s t × IsServed s t)
task_can_be_taken {lo} r m some_thread made storage room range {s} reach open_ waits_ =
    let v = Reach-IsSound (start-IsSound r lo lo m (omega arith) storage room range) reach in
    let (i, w, e, c) =
      some_of_total comes s.workers
        (no_lost_wakeup some_thread r m made storage room range reach open_ waits_) in
    (
      i,
      w,
      e,
      c,
      serves s i w (record { valid = v.valid; open_ = open_; some_task = waits_ })
          (omega (arith, v)) e c,
    )
