-- ===== src/TaskPool/Queue.antt =====
-- The pool of ThreadPool.h under socket/thread_Pool as a queue of tasks: `enqueue`, and a worker
-- in its lock.
use codespaces_blank.Prelude.{ℕ, ◌≡◌, ◌≢◌, false, [], ◌∷◌, ◌++◌, Option, none, some, arith}
use codespaces_blank.TaskQueue.{Operations, TaskQueue, Posting, refuses, accepts, blocks}
use codespaces_blank.TaskPool.{
  ThreadPool, Enqueued, thrown, enqueued, enqueue, Outcome, takes, pop, worker_pass,
}

abbrev pub posting : Enqueued → Posting ThreadPool
posting thrown = refuses
posting (enqueued p) = accepts p

abbrev pub taken : Outcome → Option (ℕ × ThreadPool)
taken (takes t p) = some (t, p)
taken _ = none

abbrev pub IsOpen : ThreadPool → Type 0
IsOpen p = p.stop ≡ false

pub add-accepts :
    (p : ThreadPool) (t : ℕ) {u : ThreadPool}
    → IsOpen p
    → posting (enqueue p t) ≡ accepts u
    → IsOpen u × (u.tasks ≡ p.tasks ++ (t ∷ []))
unfolding enqueue
add-accepts p t v e = ground arith

pub add-refuses : (p : ThreadPool) (t : ℕ) → IsOpen p → posting (enqueue p t) ≢ refuses
unfolding enqueue
add-refuses p t v e = ground arith

pub add-blocks : (p : ThreadPool) (t : ℕ) → IsOpen p → posting (enqueue p t) ≡ blocks → p.tasks ≢ []
unfolding enqueue
add-blocks p t v e = ground arith

pub take-some :
    (p : ThreadPool) {t : ℕ} {u : ThreadPool}
    → IsOpen p
    → taken (worker_pass p) ≡ some (t, u)
    → IsOpen u × (p.tasks ≡ t ∷ u.tasks)
unfolding worker_pass pop
take-some p v e = ground arith

pub take-none : (p : ThreadPool) → IsOpen p → taken (worker_pass p) ≡ none → p.tasks ≡ []
unfolding worker_pass pop
take-none p v e = ground arith

abbrev pub closure_operations : Operations ThreadPool ℕ
closure_operations = record {
  add = λ t p. posting (enqueue p t);
  take = λ p. taken (worker_pass p);
}

abbrev pub closure_queue : TaskQueue ℕ
closure_queue = record {
  State = ThreadPool;
  IsOpen = IsOpen;
  pending = λ p. p.tasks;
  operations = closure_operations;
  add-accepts = add-accepts;
  add-refuses = add-refuses;
  add-blocks = add-blocks;
  take-some = take-some;
  take-none = take-none;
}
