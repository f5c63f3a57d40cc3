-- ===== src/PosixPool/System/Invariant.antt =====
-- What holds in every state that the threads of socket/thread_Pool/main.cpp can reach.
use codespaces_blank.Prelude.{
  ℕ, ◌+◌, ◌^◌, ◌≤◌, ◌<◌, ◌≡◌, refl, ◌++◌, arith, length, total, total-set, total_mono,
}
use codespaces_blank.PosixPool.{worker_test, worker_wake, work_begins, work_ends}
use codespaces_blank.PosixPool.Valid.{in_bounds}
use codespaces_blank.PosixPool.Fifo.{contents}
use codespaces_blank.PosixPool.Setup.{Resources, initial}
use codespaces_blank.PosixPool.System.Passage.{
  worker_test-Good, worker_wake-Good, threadpool_add-Same,
}
use codespaces_blank.PosixPool.Manager.{adjust_shrink}
use codespaces_blank.PosixPool.Setup.{length-threads-initial, initial-IsValid}
use codespaces_blank.PosixPool.System.{
  submit, submit_closed, lock, relock, spurious, begin, finish, go_on, leave, count, sample, grow,
  shrink, signal_one, signalled, shut, rouse_idle, Worker, ready, woken, running, System, Step,
  start, Reach, here, next,
}
use codespaces_blank.PosixPool.System.Sound.{
  counts, runs, IsSound, pass-IsSound, Signal-counts, Signal-runs, rouse_all-total, enlarge-IsSound,
  queued-Inv, roused, launch-counts, launch-runs,
}

-- Every step keeps the invariant.
pub Step-IsSound : {lo hi : ℕ} {s t : System} → Step s t → IsSound lo hi s → IsSound lo hi t
unfolding work_begins work_ends adjust_shrink
Step-IsSound {s} (submit t e g) v =
    let (same, live, size, behind) = threadpool_add-Same t v.valid e in
    roused (queued-Inv t v same live behind) (Signal-counts g) (Signal-runs g)
Step-IsSound {s} (submit_closed t e) v =
    roused v (rouse_all-total counts refl s.workers) (rouse_all-total runs refl s.workers)
Step-IsSound {s} (lock i e) v =
    pass-IsSound s i v e refl refl (worker_test s.pool) (worker_test-Good v.valid)
Step-IsSound {s} (relock i e) v =
    pass-IsSound s i v e refl refl (worker_wake s.pool) (worker_wake-Good v.valid)
Step-IsSound {s} (spurious i e) v =
    roused v (omega (arith, total-set counts s.workers i woken e))
      (omega (arith, total-set runs s.workers i woken e))
Step-IsSound {s} (begin i t e) v =
    ground (
      arith,
      v,
      total-set counts s.workers i (running t) e,
      total-set runs s.workers i (running t) e,
    )
Step-IsSound {s} (finish i t e) v =
    ground (arith, v, total-set counts s.workers i ready e, total-set runs s.workers i ready e)
Step-IsSound (go_on e f) v = v
Step-IsSound (leave e f) v = v
Step-IsSound (count e) v = v
Step-IsSound (sample e) v = v
Step-IsSound {s} (grow k {q} {l} {b} e) v = enlarge-IsSound k q l b s v
Step-IsSound {s} (shrink {l} {b} e) v = ground (arith, v)
Step-IsSound (signal_one e g) v = roused v (Signal-counts g) (Signal-runs g)
Step-IsSound (signalled e) v = v
Step-IsSound shut v = ground (arith, v)
Step-IsSound {s} (rouse_idle e f g) v =
    roused v (rouse_all-total counts refl s.workers) (rouse_all-total runs refl s.workers)

pub start-IsSound :
    (r : Resources) (lo hi m : ℕ)
    → lo ≤ hi
    → length r.queue_contents ≡ m
    → 0 < m
    → m < 2 ^ 31
    → IsSound lo hi (start r lo hi m)
unfolding initial
start-IsSound r lo hi m h e a b = record {
  valid = initial-IsValid r lo hi m e a b;
  low = refl;
  high = refl;
  slots = length-threads-initial r lo hi m;
  live = omega (arith, launch-counts r.starts 0 lo);
  busy = omega (arith, launch-runs r.starts 0 lo);
  least = omega arith;
  most = h;
  history = refl;
}

pub Reach-IsSound : {lo hi : ℕ} {s t : System} → IsSound lo hi s → Reach s t → IsSound lo hi t
Reach-IsSound v here = v
Reach-IsSound v (next r st) = Step-IsSound st (Reach-IsSound v r)

runs-le-counts : (w : Worker) → runs w ≤ counts w
runs-le-counts w = ground arith

-- `threadpool_create` with `lo` to `hi` threads and a queue of `m` slots, and then any steps.
module _ (r : Resources) (lo hi m : ℕ) (ordered : lo ≤ hi) (storage : length r.queue_contents ≡ m)
    (room : 0 < m) (range : m < 2 ^ 31) where
  -- In every reachable state of a pool created with `min_thr_num` at most `max_thr_num` and the
  -- storage for a queue of 1 to 2 ^ 31 - 1 slots, the tasks that workers have taken, followed by
  -- those that wait in the queue, are the tasks that `threadpool_add` has accepted, in the order
  -- of acceptance: none is lost, none is run twice, none overtakes another.
  pub each_task_once :
      {s : System} → Reach (start r lo hi m) s → s.taken ++ contents s.pool ≡ s.added
  each_task_once reach =
      (Reach-IsSound (start-IsSound r lo hi m ordered storage room range) reach).history

  -- In every reachable state of a pool created with `min_thr_num` at most `max_thr_num` and the
  -- storage for a queue of 1 to 2 ^ 31 - 1 slots, `live_thr_num` lies between the two limits and
  -- is the number of threads that were asked for and have not retired, those whose creation failed
  -- among them; `busy_thr_num` is the number of those that
  -- are in a task's function, and so at most `live_thr_num`.
  pub thread_counts :
      {s : System}
      → Reach (start r lo hi m) s
      → (lo ≤ s.pool.live_thr_num)
        × (s.pool.live_thr_num ≤ hi)
        × (s.pool.live_thr_num ≡ total counts s.workers)
        × (s.pool.busy_thr_num ≡ total runs s.workers)
        × (s.pool.busy_thr_num ≤ s.pool.live_thr_num)
  thread_counts {s} reach =
      let v = Reach-IsSound (start-IsSound r lo hi m ordered storage room range) reach in
      (
        v.least,
        v.most,
        v.live,
        v.busy,
        omega (arith, v.live, v.busy, total_mono runs counts runs-le-counts s.workers),
      )

  -- In every reachable state of a pool created with `min_thr_num` at most `max_thr_num` and the
  -- storage for a queue of 1 to 2 ^ 31 - 1 slots, the queue holds at most `queue_max_size` tasks,
  -- and the indices that the code reads and writes next lie inside `task_queue` and below 2 ^ 31.
  pub queue_in_bounds :
      {s : System}
      → Reach (start r lo hi m) s
      → (s.pool.queue_size ≤ s.pool.queue_max_size)
        × (s.pool.queue_front < length s.pool.task_queue)
        × (s.pool.queue_rear < length s.pool.task_queue)
        × (s.pool.queue_front + 1 < 2 ^ 31)
        × (s.pool.queue_rear + 1 < 2 ^ 31)
  queue_in_bounds reach =
      let v = (Reach-IsSound (start-IsSound r lo hi m ordered storage room range) reach).valid in
      (v.size_in, (in_bounds v).0, (in_bounds v).1, (in_bounds v).2, (in_bounds v).3)
