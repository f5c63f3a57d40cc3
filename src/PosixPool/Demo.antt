-- ===== src/PosixPool/Demo.antt =====
-- `main` of socket/thread_Pool/main.cpp, with the threads of its pool. The creation of the pool is
-- taken to succeed, and its steps happen before the threads' first ones.
pub mod Posts
use codespaces_blank.Prelude.{ℕ, zero, suc, ◌+◌, ◌<◌, ◌≡◌, List, [], ◌∷◌, ◌++◌}
use codespaces_blank.PosixPool.{Task, Pool, threadpool_add, queued}
use codespaces_blank.PosixPool.Setup.{Resources}
use codespaces_blank.PosixPool.System.{
  System, Worker, Signal, Step, start, submit, submit_closed, shut, rouse_idle,
}

-- `i` of the loop, and the threads.
pub record Demo : Type 0 where
  pub i : ℕ
  pub system : System

-- `threadpool_create(10, 100, 100)`
abbrev pub created : Resources → Demo
created r = record { i = 0; system = start r 10 100 100 }

-- A step of the pool's own threads, and none of a caller.
abbrev pub IsOwn : {s t : System} → Step s t → Type 0
IsOwn (submit _ _ _) = ⊥
IsOwn (submit_closed _ _) = ⊥
IsOwn shut = ⊥
IsOwn (rouse_idle _ _ _) = ⊥
IsOwn _ = Unit

-- A turn of the loop, whose call of `threadpool_add` has returned, or a step of the pool. Behind the
-- loop `main` sleeps for ever. `process` is the address of the function.
pub data Move (process : ℕ) (d : Demo) : Demo → Type 0 where
  adds :
      {p : Pool} {ws : List Worker}
      → d.i < 40
      → threadpool_add d.system.pool (record { function = process; arg = d.i }) ≡ queued p
      → Signal d.system.workers ws
      → Move process d (record {
        i = d.i + 1;
        system = record (d.system) {
          pool = p;
          workers = ws;
          added = d.system.added ++ (record { function = process; arg = d.i } ∷ []);
        };
      })
  works : {t : System} (x : Step d.system t) → IsOwn x → Move process d (record d { system = t })

pub data Run (process : ℕ) (d : Demo) : Demo → Type 0 where
  begins : Run process d d
  goes_on : {e f : Demo} → Run process d e → Move process e f → Run process d f
