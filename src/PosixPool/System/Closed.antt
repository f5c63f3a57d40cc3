-- ===== src/PosixPool/System/Closed.antt =====
-- What `threadpool_destory` of socket/thread_Pool/main.cpp does to the tasks that still wait.
use codespaces_blank.Prelude.{ℕ, ◌≡◌, refl, ◌∙◌, ap, sym, true, arith}
use mathlib.Core.Bool.{false≢true}
use codespaces_blank.PosixPool.{
  Task, Pool, Outcome, waits, retires, stops, takes, worker_test, worker_wake, threadpool_add,
  queued, work_begins, work_ends,
}
use codespaces_blank.PosixPool.Fifo.{contents}
use codespaces_blank.PosixPool.Manager.{adjust_grow-rest, adjust_shrink}
use codespaces_blank.PosixPool.System.Passage.{Calm, worker_test-Calm, worker_wake-Calm}
use codespaces_blank.PosixPool.System.{
  System, pass, Step, submit, submit_closed, lock, relock, spurious, begin, finish, go_on, leave,
  count, sample, grow, shrink, signal_one, signalled, shut, rouse_idle, Reach, here, next,
}

-- The pool is shut down, and its tasks are those of `s`.
record Frozen (s t : System) : Type 0 where
  closed : t.pool.shutdown ≡ true
  taken : t.taken ≡ s.taken
  added : t.added ≡ s.added
  left : contents t.pool ≡ contents s.pool

closed-add :
    (p : Pool) (t : Task) {p' : Pool} → p.shutdown ≡ true → threadpool_add p t ≡ queued p' → ⊥
unfolding threadpool_add
closed-add p t h e = ground arith

pass-Frozen :
    (s : System) (i : ℕ) (o : Outcome)
    → s.pool.shutdown ≡ true
    → Calm s.pool o
    → Frozen s (pass i o s)
pass-Frozen s i (waits p') h c = absurd (false≢true (sym c.0 ∙ h))
pass-Frozen s i (stops p') h c = record { closed = c.1; taken = refl; added = refl; left = c.2 }
pass-Frozen s i (retires p') h c = record {
  closed = c.0 ∙ h;
  taken = refl;
  added = refl;
  left = c.2;
}
pass-Frozen s i (takes t p') h c = absurd (false≢true (sym c.0 ∙ h))

same-Frozen :
    {s t : System}
    → s.pool.shutdown ≡ true
    → t.pool.shutdown ≡ s.pool.shutdown
    → t.taken ≡ s.taken
    → t.added ≡ s.added
    → contents t.pool ≡ contents s.pool
    → Frozen s t
same-Frozen h a b c d = record { closed = a ∙ h; taken = b; added = c; left = d }

Step-Frozen : {s t : System} → Step s t → s.pool.shutdown ≡ true → Frozen s t
unfolding work_begins work_ends adjust_shrink
Step-Frozen {s} (submit t e g) h = absurd (closed-add s.pool t h e)
Step-Frozen (submit_closed t e) h = same-Frozen h refl refl refl refl
Step-Frozen {s} (lock i e) h = pass-Frozen s i (worker_test s.pool) h (worker_test-Calm s.pool)
Step-Frozen {s} (relock i e) h = pass-Frozen s i (worker_wake s.pool) h (worker_wake-Calm s.pool)
Step-Frozen (spurious i e) h = same-Frozen h refl refl refl refl
Step-Frozen (begin i t e) h = same-Frozen h refl refl refl refl
Step-Frozen (finish i t e) h = same-Frozen h refl refl refl refl
Step-Frozen (go_on e f) h = same-Frozen h refl refl refl refl
Step-Frozen (leave e f) h = same-Frozen h refl refl refl refl
Step-Frozen (count e) h = same-Frozen h refl refl refl refl
Step-Frozen (sample e) h = same-Frozen h refl refl refl refl
Step-Frozen {s} (grow k {q} {l} e) h =
    let rest = adjust_grow-rest k q l s.pool in
    same-Frozen h (ap (λ (x : Pool). x.shutdown) rest) refl refl (ap contents rest)
Step-Frozen (shrink e) h = ground arith
Step-Frozen (signal_one e g) h = same-Frozen h refl refl refl refl
Step-Frozen (signalled e) h = same-Frozen h refl refl refl refl
Step-Frozen shut h = same-Frozen h (sym h) refl refl refl
Step-Frozen (rouse_idle e f g) h = same-Frozen h refl refl refl refl

Reach-Frozen : {s t : System} → Reach s t → s.pool.shutdown ≡ true → Frozen s t
Reach-Frozen here h = same-Frozen h refl refl refl refl
Reach-Frozen (next r st) h =
    let before = Reach-Frozen r h in
    let after = Step-Frozen st before.closed in
    record {
      closed = after.closed;
      taken = after.taken ∙ before.taken;
      added = after.added ∙ before.added;
      left = after.left ∙ before.left;
    }

-- Once `shutdown` is set it stays set, and then, whatever the threads do, no task is accepted and
-- none is taken: the tasks that wait at that moment are never run.
pub shutdown_drops_tasks :
    {s t : System}
    → Reach s t
    → s.pool.shutdown ≡ true
    → (t.pool.shutdown ≡ true)
      × (t.taken ≡ s.taken)
      × (t.added ≡ s.added)
      × (contents t.pool ≡ contents s.pool)
shutdown_drops_tasks r h = let f = Reach-Frozen r h in (f.closed, f.taken, f.added, f.left)
