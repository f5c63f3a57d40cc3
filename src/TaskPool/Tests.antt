-- ===== src/TaskPool/Tests.antt =====
-- Runs of the pool of ThreadPool.h under socket/thread_Pool on small inputs.
use codespaces_blank.Prelude.{ℕ, ◌+◌, ◌<◌, ◌≡◌, ◌⊎◌, refl, true, [], ◌∷◌, ◌++◌, arith, total}
use codespaces_blank.TaskPool.{
  enqueue, worker_pass, pop, System, woken, returned, start, submit, notify, heard, lock, relock,
  finish, stop, Reach, here, next,
}
use codespaces_blank.TaskPool.Invariant.{comes, is}
use codespaces_blank.TaskPool.Drain.{tasks_in_order, destructor_drains}

-- One worker sleeps, a task comes, and the destructor stops the pool while the task waits.
abbrev stopping : System
stopping = record (start 1) {
  pool = record { tasks = 5 ∷ []; stop = true };
  workers = woken ∷ [];
  queued = 5 ∷ [];
}

Reach-stopping : Reach (start 1) stopping
unfolding enqueue worker_pass
Reach-stopping =
    next (next (next (next here (lock 0 refl)) (submit 5 refl)) (notify 0 refl (heard 0 refl))) stop

-- The worker runs the task and returns.
abbrev drained : System
drained = record stopping {
  pool = record { tasks = []; stop = true };
  workers = returned ∷ [];
  started = 5 ∷ [];
  finished = 5 ∷ [];
}

Reach-drained : Reach (start 1) drained
unfolding worker_pass pop
Reach-drained = next (next (next Reach-stopping (relock 0 refl)) (finish 0 5 refl)) (lock 0 refl)

tasks_in_order_example :
    (stopping.started ++ stopping.pool.tasks ≡ stopping.queued)
    × (stopping.pool.tasks ≡ [] ⊎ (0 < total comes stopping.workers + stopping.notifying))
tasks_in_order_example = tasks_in_order 1 (omega arith) Reach-stopping

destructor_drains_example :
    (drained.pool.tasks ≡ [])
    × (drained.started ≡ drained.queued)
    × ((x : ℕ) → total (is x) drained.finished ≡ total (is x) drained.queued)
destructor_drains_example = destructor_drains 1 (omega arith) Reach-drained refl
