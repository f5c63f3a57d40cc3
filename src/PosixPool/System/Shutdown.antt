-- ===== src/PosixPool/System/Shutdown.antt =====
-- How the threads of socket/thread_Pool/main.cpp come to their end after a shutdown.
use codespaces_blank.Prelude.{ℕ, ◌≡◌, set}
use codespaces_blank.PosixPool.System.{Worker, retired, stopped, missing, System}
use codespaces_blank.PosixPool.System.Leaving.{sleeps, Later}

-- Whether a thread has not ended.
abbrev pub alive : Worker → ℕ
alive retired = 0
alive stopped = 0
alive missing = 0
alive _ = 1

-- Worker `i` is at its end, the others and the manager are as they were.
record Ended (s : System) (i : ℕ) (t : System) : Type 0 where
  later : Later s t
  same : t.manager ≡ s.manager
  end : Worker
  workers : t.workers ≡ set s.workers i end
  over : alive end ≡ 0
  still : sleeps end ≡ 0
