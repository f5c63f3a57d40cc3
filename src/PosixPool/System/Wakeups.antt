-- ===== src/PosixPool/System/Wakeups.antt =====
-- When a task that waits in socket/thread_Pool/main.cpp has a thread that will come for it.
use mathlib.Core.Bool.{false≢true}
use codespaces_blank.Prelude.{
  ℕ, zero, suc, Bool, ◌+◌, ◌≤◌, ◌<◌, ◌≡◌, ◌^◌, refl, sym, ◌∙◌, ap, true, false, List, [], ◌∷◌, some,
  arith, get_elem?, length, total, total-append, total-set, le-total,
}
use codespaces_blank.PosixPool.{
  Task, Pool, Outcome, waits, retires, stops, takes, worker_test, worker_wake, threadpool_add,
  queued, work_begins, work_ends,
}
use codespaces_blank.PosixPool.Manager.{
  adjust_grow, adjust_grow-rest, adjust_grow_counts, adjust_shrink,
}
use codespaces_blank.PosixPool.Setup.{Resources, initial}
use codespaces_blank.PosixPool.System.Passage.{Calm, worker_test-Calm, worker_wake-Calm}
use codespaces_blank.PosixPool.System.Sound.{counts, IsSound}
use codespaces_blank.PosixPool.System.Invariant.{Reach-IsSound, start-IsSound}
use codespaces_blank.PosixPool.System.{
  Worker, ready, waiting, woken, holding, running, retired, stopped, missing, launch, System,
  Signal, unheard, heard, rouse, rouse_all, pass, start, Step, submit, submit_closed, lock, relock,
  spurious, begin, finish, go_on, leave, count, sample, grow, shrink, signal_one, signalled, shut,
  rouse_idle, Reach, here, next,
}

-- Threads that come back to the lock by themselves.
abbrev pub comes : Worker → ℕ
comes waiting = 0
comes retired = 0
comes stopped = 0
comes missing = 0
comes _ = 1

abbrev stays : Worker → ℕ
stays waiting = 1
stays _ = 0

-- Threads that will never come.
abbrev ends : Worker → ℕ
ends stopped = 1
ends missing = 1
ends _ = 0

record IsAwake (s : System) : Type 0 where
  on : s.pool.shutdown ≡ false → total ends s.workers ≡ 0
  served : s.pool.shutdown ≡ false → 0 < s.pool.queue_size → 0 < total comes s.workers

total-kinds : (ws : List Worker) → total counts ws ≡ total comes ws + total stays ws + total ends ws
total-kinds [] = refl
total-kinds (w ∷ ws) = omega (arith, kinds w, total-kinds ws)
  where
    kinds : (w : Worker) → counts w ≡ comes w + stays w + ends w
    kinds w = ground arith

none_stays : (ws : List Worker) → ((i : ℕ) → get_elem? ws i ≡ some waiting → ⊥) → total stays ws ≡ 0
none_stays [] h = refl
none_stays (w ∷ ws) h = omega (arith, first w (h 0), none_stays ws (λ i. h (suc i)))
  where
    first : (w : Worker) → (some w ≡ some waiting → ⊥) → stays w ≡ 0
    first waiting q = absurd (q refl)
    first _ q = refl

-- A signal in a pool of live threads leaves one that comes.
Signal-comes :
    {ws ws' : List Worker}
    → Signal ws ws'
    → 0 < total counts ws
    → total ends ws ≡ 0
    → 0 < total comes ws'
Signal-comes {ws} (unheard none) l e = omega (arith, none_stays ws none, total-kinds ws)
Signal-comes {ws} (heard i h) l e = omega (arith, total-set comes ws i woken h)

Signal-ends : {ws ws' : List Worker} → Signal ws ws' → total ends ws' ≡ total ends ws
Signal-ends (unheard none) = refl
Signal-ends {ws} (heard i h) = omega (arith, total-set ends ws i woken h)

Signal-more : {ws ws' : List Worker} → Signal ws ws' → total comes ws ≤ total comes ws'
Signal-more (unheard none) = omega arith
Signal-more {ws} (heard i h) = omega (arith, total-set comes ws i woken h)

rouse_all-kinds :
    (ws : List Worker)
    → (total ends (rouse_all ws) ≡ total ends ws) × (total comes ws ≤ total comes (rouse_all ws))
rouse_all-kinds [] = (refl, omega arith)
rouse_all-kinds (w ∷ ws) = omega (arith, one w, rouse_all-kinds ws)
  where
    one : (w : Worker) → (ends (rouse w) ≡ ends w) × (comes w ≤ comes (rouse w))
    one w = ground arith

pass-IsAwake :
    (s : System) (i : ℕ) {w : Worker}
    → IsAwake s
    → get_elem? s.workers i ≡ some w
    → comes w ≡ 1
    → ends w ≡ 0
    → s.pool.live_thr_num ≤ s.pool.min_thr_num
    → (o : Outcome) → Calm s.pool o
    → IsAwake (pass i o s)
pass-IsAwake s i v e a b small (waits p') c = record {
  on = λ h. omega (arith, total-set ends s.workers i waiting e, v.on c.0);
  served = λ h q. absurd (omega (arith, c.2));
}
pass-IsAwake s i v e a b small (stops p') c = record {
  on = λ h. absurd (false≢true (sym h ∙ c.1));
  served = λ h q. absurd (false≢true (sym h ∙ c.1));
}
pass-IsAwake s i v e a b small (retires p') c = absurd (omega (arith, c.1))
pass-IsAwake s i v e a b small (takes t p') c = record {
  on = λ h. omega (arith, total-set ends s.workers i (holding t) e, v.on c.0);
  served =
      λ h q. omega (arith, total-set comes s.workers i (holding t) e, le-total comes s.workers i e);
}

-- The queue and the shutdown stay, and no thread that comes is lost.
kept-IsAwake :
    {s t : System}
    → IsAwake s
    → t.pool.shutdown ≡ s.pool.shutdown
    → t.pool.queue_size ≡ s.pool.queue_size
    → total ends t.workers ≡ total ends s.workers
    → total comes s.workers ≤ total comes t.workers
    → IsAwake t
kept-IsAwake {s} v a b c d = record {
  on = λ h. c ∙ v.on (sym a ∙ h);
  served = λ h q. omega (arith, v.served (sym a ∙ h) (omega arith));
}

closed-IsAwake : {s : System} → s.pool.shutdown ≡ true → IsAwake s
closed-IsAwake c = record {
  on = λ h. absurd (false≢true (sym h ∙ c));
  served = λ h q. absurd (false≢true (sym h ∙ c));
}

add-shutdown :
    (p : Pool) (t : Task) {p' : Pool} → threadpool_add p t ≡ queued p' → p.shutdown ≡ false
unfolding threadpool_add
add-shutdown p t e = ground arith

launch-none : (b : ℕ → Bool) → total ends (launch b 0 0) ≡ 0
launch-none b = refl

-- Where all are created, none is missing.
launch-all :
    (b : ℕ → Bool) (i n : ℕ) → ((j : ℕ) → j < i + n → b j ≡ true) → total ends (launch b i n) ≡ 0
launch-all b i zero h = refl
launch-all b i (suc n) h =
    rw (h i (omega arith)) (omega (arith, launch-all b (i + 1) n (λ j p. h j (omega arith))))

module _ {lo : ℕ} (some_thread : 0 < lo) where
  Step-IsAwake : {s t : System} → Step s t → IsSound lo lo s → IsAwake s → IsAwake t
  unfolding work_begins work_ends adjust_shrink
  Step-IsAwake {s} (submit t e g) m v = record {
    on = λ h. Signal-ends g ∙ v.on (add-shutdown s.pool t e);
    served =
        λ h q. Signal-comes g (omega (arith, m.live, m.least)) (v.on (add-shutdown s.pool t e));
  }
  Step-IsAwake {s} (submit_closed t e) m v =
      let (a, b) = rouse_all-kinds s.workers in kept-IsAwake v refl refl a b
  Step-IsAwake {s} (lock i e) m v =
      pass-IsAwake s i v e refl refl (omega arith) (worker_test s.pool) (worker_test-Calm s.pool)
  Step-IsAwake {s} (relock i e) m v =
      pass-IsAwake s i v e refl refl (omega arith) (worker_wake s.pool) (worker_wake-Calm s.pool)
  Step-IsAwake {s} (spurious i e) m v =
      kept-IsAwake v refl refl (omega (arith, total-set ends s.workers i woken e))
        (omega (arith, total-set comes s.workers i woken e))
  Step-IsAwake {s} (begin i t e) m v =
      kept-IsAwake v refl refl (omega (arith, total-set ends s.workers i (running t) e))
        (omega (arith, total-set comes s.workers i (running t) e))
  Step-IsAwake {s} (finish i t e) m v =
      kept-IsAwake v refl refl (omega (arith, total-set ends s.workers i ready e))
        (omega (arith, total-set comes s.workers i ready e))
  Step-IsAwake (go_on e f) m v = kept-IsAwake v refl refl refl (omega arith)
  Step-IsAwake (leave e f) m v = kept-IsAwake v refl refl refl (omega arith)
  Step-IsAwake (count e) m v = kept-IsAwake v refl refl refl (omega arith)
  Step-IsAwake (sample e) m v = kept-IsAwake v refl refl refl (omega arith)
  Step-IsAwake {s} (grow k {q} {l} e) m v =
      let rest = adjust_grow-rest k q l s.pool in
      let n = (adjust_grow k q l s.pool).0 in
      let (few, live, most, slots, same) =
        adjust_grow_counts k q l s.pool (omega (arith, m)) (omega (arith, m)) in
      let none_more : n ≡ 0 = omega (arith, m.least, m.high) in
      kept-IsAwake v (ap (λ (x : Pool). x.shutdown) rest) (ap (λ (x : Pool). x.queue_size) rest)
        (omega (
          arith,
          total-append ends s.workers (launch k.starts 0 n),
          ap (λ x. total ends (launch k.starts 0 x)) none_more,
          launch-none k.starts,
        ))
        (omega (arith, total-append comes s.workers (launch k.starts 0 n)))
  Step-IsAwake {s} (shrink {l} {b} e) m v =
      kept-IsAwake v (ground arith) (ground arith) refl (omega arith)
  Step-IsAwake (signal_one e g) m v = kept-IsAwake v refl refl (Signal-ends g) (Signal-more g)
  Step-IsAwake (signalled e) m v = kept-IsAwake v refl refl refl (omega arith)
  Step-IsAwake shut m v = closed-IsAwake refl
  Step-IsAwake {s} (rouse_idle e f g) m v =
      let (a, b) = rouse_all-kinds s.workers in kept-IsAwake v refl refl a b

  Reach-IsAwake : {s t : System} → IsSound lo lo s → IsAwake s → Reach s t → IsAwake t
  Reach-IsAwake m v here = v
  Reach-IsAwake m v (next r st) = Step-IsAwake st (Reach-IsSound m r) (Reach-IsAwake m v r)

  start-IsAwake :
      (r : Resources) (m : ℕ) → ((i : ℕ) → i < lo → r.starts i ≡ true) → IsAwake (start r lo lo m)
  unfolding initial
  start-IsAwake r m made = record {
    on = λ h. launch-all r.starts 0 lo (λ j p. made j (omega arith));
    served = λ h q. absurd (omega arith);
  }

  -- No wake-up is lost in a pool of one fixed size: where `min_thr_num` and `max_thr_num` are one
  -- positive number, the creation of these threads succeeds, and there is storage for a queue of 1 to
  -- 2 ^ 31 - 1 slots, then in every reachable state that is not shut down, while a task waits some
  -- thread is not asleep in `pthread_cond_wait` and has not ended, so it comes back to the queue.
  pub no_lost_wakeup :
      (r : Resources) (m : ℕ)
      → ((i : ℕ) → i < lo → r.starts i ≡ true)
      → length r.queue_contents ≡ m
      → 0 < m
      → m < 2 ^ 31
      → {s : System} → Reach (start r lo lo m) s
      → s.pool.shutdown ≡ false
      → 0 < s.pool.queue_size
      → 0 < total comes s.workers
  no_lost_wakeup r m made e a b reach open_ waits_ =
      let v =
        Reach-IsAwake (start-IsSound r lo lo m (omega arith) e a b) (start-IsAwake r m made)
          reach in
      v.served open_ waits_
