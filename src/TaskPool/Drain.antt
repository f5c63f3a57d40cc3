-- ===== src/TaskPool/Drain.antt =====
-- What the users of ThreadPool.h under socket/thread_Pool rely on, its destructor among them.
use mathlib.Core.Bool.{false≢true}
use codespaces_blank.Prelude.{
  ℕ, ◌+◌, ◌<◌, ◌≡◌, ◌≢◌, refl, sym, ap, ◌∙◌, true, List, [], ◌∷◌, ◌++◌, some, arith, append-nil,
  ◌⊎◌, inl, inr, ◌≤◌, get_elem?, length, total, total-set, le-total,
}
use codespaces_blank.TaskPool.{
  Outcome, waits, returns, takes, worker_pass, Worker, waiting, ready, running, returned, System,
  rouse, notify_all, pass, Step, unheard, heard, submit, notify, lock, relock, spurious, finish,
  stop, wake_all, start, Reach, here, next,
}
use codespaces_blank.TaskPool.Invariant.{
  comes, stays, ends, is, runs, Reach-Inv, start-Inv, enqueue-lem, worker_pass-Good, Good,
}

runs-ends-le : (x : ℕ) (ws : List Worker) → total (runs x) ws + total ends ws ≤ length ws
runs-ends-le x [] = omega arith
runs-ends-le x (w ∷ ws) = omega (arith, one w, runs-ends-le x ws)
  where
    one : (w : Worker) → runs x w + ends w ≤ 1
    one w = ground arith

module _ (n : ℕ) (some_worker : 0 < n) where
  -- In every state that a pool of at least one worker can reach, the tasks that were started,
  -- followed by those in the queue, are the tasks that were enqueued, in that order; and while the
  -- queue is not empty, some worker is neither asleep in `wait` nor has returned, or a caller of
  -- `enqueue` has still to call `notify_one`, also after the destructor has set `stop`.
  pub tasks_in_order :
      {s : System}
      → Reach (start n) s
      → (s.started ++ s.pool.tasks ≡ s.queued)
        × (s.pool.tasks ≡ [] ⊎ (0 < total comes s.workers + s.notifying))
  tasks_in_order {s} r =
      let v = Reach-Inv some_worker (start-Inv n) r in (v.history, split s.pool.tasks v.served)
    where
      split :
          (l : List ℕ)
          → (l ≢ [] → 0 < total comes s.workers + s.notifying)
          → l ≡ [] ⊎ (0 < total comes s.workers + s.notifying)
      split [] h = inl refl
      split (t ∷ l) h = inr (h (λ e. cc))

  -- When all the workers of a pool of at least one have returned, which is what the destructor
  -- waits for, the queue is empty, every enqueued task has been started in its order, and every
  -- task has been run to its end as often as it was enqueued.
  pub destructor_drains :
      {s : System}
      → Reach (start n) s
      → total ends s.workers ≡ length s.workers
      → (s.pool.tasks ≡ [])
        × (s.started ≡ s.queued)
        × ((x : ℕ) → total (is x) s.finished ≡ total (is x) s.queued)
  destructor_drains {s} r all =
      let v = Reach-Inv some_worker (start-Inv n) r in
      let empty = (v.ended (omega (arith, v.workers))).1 in
      let same = sym (append-nil s.started) ∙ ap (λ q. s.started ++ q) (sym empty) ∙ v.history in
      (
        empty,
        same,
        λ x. omega (arith, v.doing x, ap (λ q. total (is x) q) same, runs-ends-le x s.workers, all),
      )

-- The pool is stopping, no worker is asleep, and `queued` is what was enqueued.
record IsClosing (queued : List ℕ) (s : System) : Type 0 where
  closed : s.pool.stop ≡ true
  awake : total stays s.workers ≡ 0
  same : s.queued ≡ queued

pass-IsClosing :
    {q : List ℕ} (s : System) (i : ℕ) {w : Worker}
    → IsClosing q s
    → get_elem? s.workers i ≡ some w
    → stays w ≡ 0
    → (o : Outcome) → Good s.pool o
    → IsClosing q (pass i o s)
pass-IsClosing s i v e a waits g = absurd (false≢true (sym g.0 ∙ v.closed))
pass-IsClosing s i v e a returns g = record {
  closed = v.closed;
  awake = omega (arith, v.awake, total-set stays s.workers i returned e);
  same = v.same;
}
pass-IsClosing s i v e a (takes t p) g = record {
  closed = g.1 ∙ v.closed;
  awake = omega (arith, v.awake, total-set stays s.workers i (running t) e);
  same = v.same;
}

notify_all-stays : (ws : List Worker) → total stays (notify_all ws) ≡ 0
notify_all-stays [] = refl
notify_all-stays (w ∷ ws) = omega (arith, one w, notify_all-stays ws)
  where
    one : (w : Worker) → stays (rouse w) ≡ 0
    one w = ground arith

nobody_waits : (ws : List Worker) (i : ℕ) → total stays ws ≡ 0 → get_elem? ws i ≡ some waiting → ⊥
nobody_waits ws i h e = omega (arith, le-total stays ws i e)

Step-IsClosing : {q : List ℕ} {s t : System} → Step s t → IsClosing q s → IsClosing q t
Step-IsClosing {s} (submit t e) v = absurd (false≢true (sym (enqueue-lem s.pool t e).0 ∙ v.closed))
Step-IsClosing {s} (notify n e (unheard none)) v = record {
  closed = v.closed;
  awake = v.awake;
  same = v.same;
}
Step-IsClosing {s} (notify n e (heard i h)) v = absurd (nobody_waits s.workers i v.awake h)
Step-IsClosing {s} (lock i e) v =
    pass-IsClosing s i v e refl (worker_pass s.pool) (worker_pass-Good s.pool)
Step-IsClosing {s} (relock i e) v =
    pass-IsClosing s i v e refl (worker_pass s.pool) (worker_pass-Good s.pool)
Step-IsClosing {s} (spurious i e) v = absurd (nobody_waits s.workers i v.awake e)
Step-IsClosing {s} (finish i t e) v = record {
  closed = v.closed;
  awake = omega (arith, v.awake, total-set stays s.workers i ready e);
  same = v.same;
}
Step-IsClosing stop v = record { closed = refl; awake = v.awake; same = v.same }
Step-IsClosing {s} (wake_all e) v = record {
  closed = v.closed;
  awake = notify_all-stays s.workers;
  same = v.same;
}

Reach-IsClosing : {q : List ℕ} {s t : System} → IsClosing q s → Reach s t → IsClosing q t
Reach-IsClosing v here = v
Reach-IsClosing v (next r st) = Step-IsClosing st (Reach-IsClosing v r)

-- The destructor leaves nobody asleep: from its `notify_all` on, in every state that follows, the
-- pool stays stopped, no worker is in `wait`, and no further task has been enqueued.
pub destructor_wakes_all :
    (s : System) {t : System}
    → s.pool.stop ≡ true
    → Reach (record s { workers = notify_all s.workers }) t
    → (t.pool.stop ≡ true) × (total stays t.workers ≡ 0) × (t.queued ≡ s.queued)
destructor_wakes_all s h r =
    let v =
      Reach-IsClosing (record { closed = h; awake = notify_all-stays s.workers; same = refl }) r in
    (v.closed, v.awake, v.same)
