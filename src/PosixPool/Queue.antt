-- ===== src/PosixPool/Queue.antt =====
-- The pool of socket/thread_Pool/main.cpp, and so that of socket/Server/ThreadPoll.cpp, as a queue
-- of tasks: `threadpool_add`, and a worker that has just locked.
use codespaces_blank.Prelude.{◌≡◌, ◌≢◌, false, [], ◌∷◌, ◌++◌, Option, none, some, arith}
use codespaces_blank.TaskQueue.{Operations, TaskQueue, Posting, blocks, refuses, accepts}
use codespaces_blank.PosixPool.{
  Task, Pool, AddResult, blocked, refused, queued, threadpool_add, insert_task, Outcome, takes,
  worker_test, dequeue,
}
use codespaces_blank.PosixPool.Valid.{IsValid, insert_task-IsValid, dequeue-IsValid}
use codespaces_blank.PosixPool.System.Stuck.{IsEmpty}
use codespaces_blank.PosixPool.Fifo.{contents, contents-insert_task, contents-dequeue}

abbrev pub posting : AddResult → Posting Pool
posting blocked = blocks
posting refused = refuses
posting (queued p) = accepts p

abbrev pub taken : Outcome → Option (Task × Pool)
taken (takes t p) = some (t, p)
taken _ = none

-- A pool that works and is not shut down.
pub record IsOpen (p : Pool) : Type 0 where
  pub valid : IsValid p
  pub open_ : p.shutdown ≡ false

pub add-accepts :
    (p : Pool) (t : Task) {u : Pool}
    → IsOpen p
    → posting (threadpool_add p t) ≡ accepts u
    → IsOpen u × (contents u ≡ contents p ++ (t ∷ []))
unfolding threadpool_add insert_task
add-accepts p t v e = ground (arith, contents-insert_task t v.valid, insert_task-IsValid t v.valid)

pub add-refuses : (p : Pool) (t : Task) → IsOpen p → posting (threadpool_add p t) ≢ refuses
unfolding threadpool_add
add-refuses p t v e = ground (arith, v)

pub add-blocks :
    (p : Pool) (t : Task) → IsOpen p → posting (threadpool_add p t) ≡ blocks → contents p ≢ []
unfolding threadpool_add
add-blocks p t v e = ground (arith, v, contents-dequeue v.valid)

pub take-some :
    (p : Pool) {t : Task} {u : Pool}
    → IsOpen p
    → taken (worker_test p) ≡ some (t, u)
    → IsOpen u × (contents p ≡ t ∷ contents u)
unfolding worker_test dequeue
take-some p v e = ground (arith, contents-dequeue v.valid, dequeue-IsValid v.valid)

pub take-none : (p : Pool) → IsOpen p → taken (worker_test p) ≡ none → contents p ≡ []
unfolding worker_test dequeue
take-none p v e = ground (arith, v)

abbrev pub posix_operations : Operations Pool Task
posix_operations = record {
  add = λ t p. posting (threadpool_add p t);
  take = λ p. taken (worker_test p);
}

abbrev pub posix_queue : TaskQueue Task
posix_queue = record {
  State = Pool;
  IsOpen = IsOpen;
  pending = contents;
  operations = posix_operations;
  add-accepts = add-accepts;
  add-refuses = add-refuses;
  add-blocks = add-blocks;
  take-some = take-some;
  take-none = take-none;
}

-- A pool whose queue has no slots.
pub empty-stalled :
    (p : Pool)
    → IsEmpty p
    → p.shutdown ≡ false
    → ((t : Task) → posting (threadpool_add p t) ≡ blocks) × (taken (worker_test p) ≡ none)
unfolding threadpool_add worker_test
empty-stalled p h o = (λ t. ground arith, ground arith)
