-- ===== src/PosixPool/System/Leaving.antt =====
-- How the manager of socket/thread_Pool/main.cpp leaves its loop after a shutdown.
use codespaces_blank.Prelude.{
  dec_lt, le-total, ℕ, zero, suc, ◌<◌, ◌≡◌, refl, ap, ◌∙◌, true, List, some, arith, set, total,
  some_of_total,
}
use codespaces_blank.PosixPool.{Pool}
use codespaces_blank.PosixPool.Manager.{Kernel, adjust_grow, adjust_grow-rest, adjust_shrink}
use codespaces_blank.PosixPool.System.Progress.{RunBy-trans}
use codespaces_blank.PosixPool.System.{
  Worker, ready, waiting, woken, holding, running, retired, stopped, missing, Manager, head, asleep,
  counted, sampled, grown, signalling, gone, System, Signal, unheard, heard, enlarge, reduce, Step,
  leave, count, sample, grow, shrink, signal_one, signalled, submit, submit_closed, spurious, shut,
  RunBy, at_rest, moves,
}

-- Whether a thread waits.
abbrev pub sleeps : Worker → ℕ
sleeps waiting = 1
sleeps _ = 0

-- A step of the pool's threads, or a broadcast of `threadpool_destory`: no call of `threadpool_add`, and
-- no return from `pthread_cond_wait` without a cause.
abbrev pub IsDue : (s t : System) → Step s t → Type 0
IsDue s t (submit _ _ _) = ⊥
IsDue s t (submit_closed _ _) = ⊥
IsDue s t (spurious _ _) = ⊥
IsDue s t shut = ⊥
IsDue s t _ = Unit

-- A state that is shut down and can be reached from `s` by such steps.
pub record Later (s t : System) : Type 0 where
  pub reach : RunBy IsDue s t
  pub closed : t.pool.shutdown ≡ true

pub Later-trans : {s t u : System} → Later s t → Later t u → Later s u
Later-trans a b = record { reach = RunBy-trans a.reach b.reach; closed = b.closed }

pub one_step : {s t : System} (x : Step s t) → IsDue s t x → t.pool.shutdown ≡ true → Later s t
one_step st d c = record { reach = moves at_rest st d; closed = c }

sleeps_lem : (w : Worker) → 0 < sleeps w → w ≡ waiting
sleeps_lem waiting h = refl
sleeps_lem ready h = absurd (omega arith)
sleeps_lem woken h = absurd (omega arith)
sleeps_lem (holding t) h = absurd (omega arith)
sleeps_lem (running t) h = absurd (omega arith)
sleeps_lem retired h = absurd (omega arith)
sleeps_lem stopped h = absurd (omega arith)
sleeps_lem missing h = absurd (omega arith)

some_Signal : (ws : List Worker) → (vs : List Worker) × Signal ws vs
some_Signal ws = elim (dec_lt 0 (total sleeps ws)) [
  | yes p ↦
      let (i, w, e, q) = some_of_total sleeps ws p in
      (set ws i woken, heard i (e ∙ ap some (sleeps_lem w q)))
  | no n ↦ (ws, unheard (λ i e. omega (arith, le-total sleeps ws i e)))
]

-- The manager has left.
abbrev pub Left : System → Type 0
Left s = (t : System) × Later s t × (t.manager ≡ gone)

then-Left : {s t : System} → Later s t → Left t → Left s
then-Left a (u, b, e) = (u, Later-trans a b, e)

head-leaves : (s : System) → s.pool.shutdown ≡ true → s.manager ≡ head → Left s
head-leaves s c e = (record s { manager = gone }, one_step (leave e c) tt c, refl)

signalling-leaves :
    (n : ℕ) (s : System) → s.pool.shutdown ≡ true → s.manager ≡ signalling n → Left s
signalling-leaves zero s c e =
    then-Left (one_step (signalled e) tt c) (head-leaves (record s { manager = head }) c refl)
signalling-leaves (suc n) s c e =
    let (ws, g) = some_Signal s.workers in
    then-Left (one_step (signal_one e g) tt c)
      (signalling-leaves n (record s { workers = ws; manager = signalling n }) c refl)

grown-leaves : (l b : ℕ) (s : System) → s.pool.shutdown ≡ true → s.manager ≡ grown l b → Left s
unfolding adjust_shrink
grown-leaves l b s c e =
    let r = adjust_shrink b l s.pool in
    let open_ : r.1.shutdown ≡ true = ground arith in
    then-Left (one_step (shrink e) tt open_) (signalling-leaves r.0 (reduce r s) open_ refl)

-- Whatever the thread library answers.
some_Kernel : Kernel
some_Kernel = record {
  esrch = 0;
  pthread_kill = λ t. 0;
  pthread_create = λ i. 0;
  starts = λ i. true;
}

sampled-leaves :
    (q l b : ℕ) (s : System) → s.pool.shutdown ≡ true → s.manager ≡ sampled q l b → Left s
sampled-leaves q l b s c e =
    let rest = adjust_grow-rest some_Kernel q l s.pool in
    let r = adjust_grow some_Kernel q l s.pool in
    let open_ : r.1.shutdown ≡ true = ap (λ (x : Pool). x.shutdown) rest ∙ c in
    then-Left (one_step (grow some_Kernel e) tt open_)
      (grown-leaves l b (enlarge some_Kernel.starts r l b s) open_ refl)

counted-leaves : (q l : ℕ) (s : System) → s.pool.shutdown ≡ true → s.manager ≡ counted q l → Left s
counted-leaves q l s c e =
    let b = s.pool.busy_thr_num in
    then-Left (one_step (sample e) tt c)
      (sampled-leaves q l b (record s { manager = sampled q l b }) c refl)

pub manager-leaves : (s : System) → s.pool.shutdown ≡ true → Left s
manager-leaves s c = from s.manager refl
  where
    from : (m : Manager) → s.manager ≡ m → Left s
    from head e = head-leaves s c e
    from asleep e =
        let q = s.pool.queue_size in
        let l = s.pool.live_thr_num in
        then-Left (one_step (count e) tt c)
          (counted-leaves q l (record s { manager = counted q l }) c refl)
    from (counted q l) e = counted-leaves q l s c e
    from (sampled q l b) e = sampled-leaves q l b s c e
    from (grown l b) e = grown-leaves l b s c e
    from (signalling n) e = signalling-leaves n s c e
    from gone e = (s, record { reach = at_rest; closed = c }, e)
