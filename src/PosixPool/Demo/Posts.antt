-- ===== src/PosixPool/Demo/Posts.antt =====
-- The tasks of `main` of socket/thread_Pool/main.cpp.
use codespaces_blank.Prelude.{
  ℕ, zero, suc, ◌+◌, ◌-◌, ◌<◌, ◌≤◌, ◌≡◌, ◌≢◌, ◌⊎◌, inl, inr, refl, ap, ◌∙◌, false, true, Bool, List,
  [], ◌∷◌, ◌++◌, arith, length, length-append, dec_lt,
}
use codespaces_blank.PosixPool.{
  Task, Pool, Outcome, waits, retires, stops, takes, threadpool_add, queued, insert_task, dequeue,
  worker_test, worker_wake, work_begins, work_ends,
}
use codespaces_blank.PosixPool.Valid.{Leaves}
use codespaces_blank.PosixPool.Fifo.{contents, length-items}
use codespaces_blank.PosixPool.Manager.{adjust_grow-rest, adjust_shrink}
use codespaces_blank.PosixPool.Setup.{Resources, initial}
use codespaces_blank.PosixPool.System.{
  System, pass, Step, submit, submit_closed, lock, relock, spurious, begin, finish, go_on, leave,
  count, sample, grow, shrink, signal_one, signalled, shut, rouse_idle, gone,
}
use codespaces_blank.PosixPool.System.Sound.{IsSound}
use codespaces_blank.PosixPool.System.Invariant.{Step-IsSound, start-IsSound}
use codespaces_blank.PosixPool.Demo.{Demo, created, IsOwn, Move, adds, works, Run, begins, goes_on}

-- The first `n` tasks.
abbrev pub tasks : (process n : ℕ) → List Task
tasks process zero = []
tasks process (suc n) = tasks process n ++ (record { function = process; arg = n } ∷ [])

length-tasks : (process n : ℕ) → length (tasks process n) ≡ n
length-tasks process zero = refl
length-tasks process (suc n) = omega (
  arith,
  length-append (tasks process n) (record { function = process; arg = n } ∷ []),
  length-tasks process n,
)

-- Of the size of the queue and the end of the pool.
abbrev Keeps : Pool → Pool → Type 0
Keeps p p' = (p'.queue_max_size ≡ p.queue_max_size) × (p'.shutdown ≡ p.shutdown)

worker_test-Keeps : (p : Pool) → Leaves (Keeps p) (worker_test p)
unfolding worker_test dequeue
worker_test-Keeps p = ground arith

worker_wake-Keeps : (p : Pool) → Leaves (Keeps p) (worker_wake p)
unfolding worker_wake
worker_wake-Keeps p = ground (
  arith,
  worker_test-Keeps p,
  worker_test-Keeps (record p { wait_exit_thr_num = p.wait_exit_thr_num - 1 }),
)

threadpool_add-Keeps :
    (p : Pool) (t : Task) {p' : Pool} → threadpool_add p t ≡ queued p' → Keeps p p'
unfolding threadpool_add insert_task
threadpool_add-Keeps p t e = ground arith

-- Where the queue has room and is open, a task goes in.
threadpool_add_fits :
    (p : Pool) (t : Task)
    → p.shutdown ≡ false
    → p.queue_size < p.queue_max_size
    → threadpool_add p t ≡ queued (insert_task p t)
unfolding threadpool_add
threadpool_add_fits p t o h = ground arith

-- The pool is open, with its 100 slots, and has a manager.
record IsRunning (s : System) : Type 0 where
  slots : s.pool.queue_max_size ≡ 100
  open_ : s.pool.shutdown ≡ false
  managed : s.manager ≢ gone

-- What a step of the pool's own threads leaves.
record Leads (s t : System) : Type 0 where
  still : IsRunning t
  same_added : t.added ≡ s.added

kept-Leads :
    {s t : System}
    → IsRunning s
    → Keeps s.pool t.pool
    → t.manager ≢ gone
    → t.added ≡ s.added
    → Leads s t
kept-Leads v k m e = record {
  still = record { slots = k.0 ∙ v.slots; open_ = k.1 ∙ v.open_; managed = m };
  same_added = e;
}

pass-Leads :
    (s : System) (i : ℕ) (o : Outcome)
    → IsRunning s
    → Leaves (Keeps s.pool) o
    → Leads s (pass i o s)
pass-Leads s i (waits p) v k = kept-Leads v k v.managed refl
pass-Leads s i (retires p) v k = kept-Leads v k v.managed refl
pass-Leads s i (stops p) v k = kept-Leads v k v.managed refl
pass-Leads s i (takes t p) v k = kept-Leads v k v.managed refl

Step-Leads : {s t : System} (x : Step s t) → IsOwn x → IsRunning s → Leads s t
unfolding work_begins work_ends adjust_shrink
Step-Leads (submit t e g) own v = absurd own
Step-Leads (submit_closed t e) own v = absurd own
Step-Leads {s} (lock i e) own v = pass-Leads s i (worker_test s.pool) v (worker_test-Keeps s.pool)
Step-Leads {s} (relock i e) own v = pass-Leads s i (worker_wake s.pool) v (worker_wake-Keeps s.pool)
Step-Leads (spurious i e) own v = kept-Leads v (refl, refl) v.managed refl
Step-Leads (begin i t e) own v = kept-Leads v (refl, refl) v.managed refl
Step-Leads (finish i t e) own v = kept-Leads v (refl, refl) v.managed refl
Step-Leads (go_on e f) own v = kept-Leads v (refl, refl) (λ c. absurd cc) refl
Step-Leads (leave e f) own v = absurd (open_pool v.open_ f)
  where
    open_pool : {b : Bool} → b ≡ false → b ≡ true → ⊥
    open_pool e f = cc
Step-Leads (count e) own v = kept-Leads v (refl, refl) (λ c. absurd cc) refl
Step-Leads (sample e) own v = kept-Leads v (refl, refl) (λ c. absurd cc) refl
Step-Leads {s} (grow k {q} {l} e) own v =
    let rest = adjust_grow-rest k q l s.pool in
    kept-Leads v (ap (λ (x : Pool). x.queue_max_size) rest, ap (λ (x : Pool). x.shutdown) rest)
      (λ c. absurd cc) refl
Step-Leads {s} (shrink {l} {b} e) own v = kept-Leads v (ground arith) (λ c. absurd cc) refl
Step-Leads (signal_one e g) own v = kept-Leads v (refl, refl) (λ c. absurd cc) refl
Step-Leads (signalled e) own v = kept-Leads v (refl, refl) (λ c. absurd cc) refl
Step-Leads shut own v = absurd own
Step-Leads (rouse_idle e f g) own v = absurd own

record Inv (process : ℕ) (d : Demo) : Type 0 where
  sound : IsSound 10 100 d.system
  running : IsRunning d.system
  posted : d.system.added ≡ tasks process d.i
  bound : d.i ≤ 40

move-Inv : {process : ℕ} {d e : Demo} → Inv process d → Move process d e → Inv process e
move-Inv {process} {d} v (adds h e g) =
    let k = threadpool_add-Keeps d.system.pool (record { function = process; arg = d.i }) e in
    let r = v.running in
    let later : suc d.i ≡ d.i + 1 = omega arith in
    record {
      sound =
          Step-IsSound {s = d.system} (submit (record { function = process; arg = d.i }) e g)
            v.sound;
      running = record { slots = k.0 ∙ r.slots; open_ = k.1 ∙ r.open_; managed = r.managed };
      posted =
          ap (λ l. l ++ (record { function = process; arg = d.i } ∷ [])) v.posted
          ∙ ap (tasks process) later;
      bound = omega arith;
    }
move-Inv {process} {d} v (works x own) =
    let l = Step-Leads x own v.running in
    record {
      sound = Step-IsSound x v.sound;
      running = l.still;
      posted = l.same_added ∙ v.posted;
      bound = v.bound;
    }

created-Inv :
    (process : ℕ) (r : Resources) → length r.queue_contents ≡ 100 → Inv process (created r)
unfolding initial
created-Inv process r e = record {
  sound = start-IsSound r 10 100 100 (omega arith) e (omega arith) (omega arith);
  running = record { slots = refl; open_ = refl; managed = λ c. absurd cc };
  posted = refl;
  bound = omega arith;
}

Run-Inv :
    {process : ℕ} (r : Resources) {d : Demo}
    → length r.queue_contents ≡ 100
    → Run process (created r) d
    → Inv process d
Run-Inv {process} r e begins = created-Inv process r e
Run-Inv r e (goes_on x m) = move-Inv (Run-Inv r e x) m

room : {process : ℕ} {d : Demo} → Inv process d → d.system.pool.queue_size ≤ d.i
room {process} {d} v =
    let p = d.system.pool in
    omega (
      arith,
      ap length v.sound.history,
      length-append d.system.taken (contents p),
      length-items p.task_queue p.queue_max_size p.queue_front 0 p.queue_size,
      ap length v.posted,
      length-tasks process d.i,
    )

-- However `main` and the threads of its pool take turns, with storage for the 100 slots: the tasks
-- that were taken, followed by those that wait, are those of the turns that `main` has made, in their
-- order and with the number of the turn as argument; `main` has made all 40 turns, or its next call
-- of `threadpool_add` goes through at once; and the pool is never shut down, nor does its manager
-- ever leave.
pub main_posts_all :
    (process : ℕ) (r : Resources) {d : Demo}
    → length r.queue_contents ≡ 100
    → Run process (created r) d
    → (d.system.taken ++ contents d.system.pool ≡ tasks process d.i)
      × ((d.i ≡ 40)
          ⊎ ((p : Pool) × (threadpool_add d.system.pool (record { function = process; arg = d.i })
                ≡ queued p)))
      × (d.system.pool.shutdown ≡ false)
      × (d.system.manager ≢ gone)
main_posts_all process r {d} e x =
    let v = Run-Inv r e x in
    (
      v.sound.history ∙ v.posted,
      elim (dec_lt d.i 40) [
        | yes h ↦ inr (
          _,
          threadpool_add_fits d.system.pool _ v.running.open_
              (omega (arith, room v, v.running.slots)),
        )
        | no h ↦ inl (omega (arith, v.bound))
      ],
      v.running.open_,
      v.running.managed,
    )
