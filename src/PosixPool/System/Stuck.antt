-- ===== src/PosixPool/System/Stuck.antt =====
-- The code of socket/thread_Pool/main.cpp on a queue of no slots.
use codespaces_blank.Prelude.{ℕ, ◌-◌, ◌≡◌, refl, ◌∙◌, ap, [], arith, if◌then◌else◌}
use codespaces_blank.PosixPool.{
  Task, Pool, Outcome, waits, retires, stops, takes, worker_test, worker_wake, threadpool_add,
  queued, refused, blocked, work_begins, work_ends,
}
use codespaces_blank.PosixPool.Manager.{adjust_grow-rest, adjust_shrink}
use codespaces_blank.PosixPool.System.{
  System, pass, Step, submit, submit_closed, lock, relock, spurious, begin, finish, go_on, leave,
  count, sample, grow, shrink, signal_one, signalled, shut, rouse_idle, Reach, here, next,
}

abbrev pub IsEmpty : Pool → Type 0
IsEmpty p = (p.queue_size ≡ 0) × (p.queue_max_size ≡ 0)

-- No task has come or gone, and there is no room for one.
pub record IsStuck (s : System) : Type 0 where
  pub none_fits : IsEmpty s.pool
  pub none_added : s.added ≡ []
  pub none_taken : s.taken ≡ []

abbrev Idles : Outcome → Type 0
Idles (waits p) = IsEmpty p
Idles (retires p) = IsEmpty p
Idles (stops p) = IsEmpty p
Idles (takes t p) = ⊥

worker_test-Idles : (p : Pool) → IsEmpty p → Idles (worker_test p)
unfolding worker_test
worker_test-Idles p h = ground arith

worker_wake-Idles : (p : Pool) → IsEmpty p → Idles (worker_wake p)
unfolding worker_wake
worker_wake-Idles p h = ground (
  arith,
  worker_test-Idles p h,
  worker_test-Idles (record p { wait_exit_thr_num = p.wait_exit_thr_num - 1 }) h,
)

-- On such a queue a caller is turned away or waits.
pub threadpool_add-stuck :
    (p : Pool) (t : Task)
    → IsEmpty p
    → threadpool_add p t ≡ (if p.shutdown then refused else blocked)
unfolding threadpool_add
threadpool_add-stuck p t h = ground arith

never_queued : (p : Pool) (t : Task) {p' : Pool} → IsEmpty p → threadpool_add p t ≡ queued p' → ⊥
unfolding threadpool_add
never_queued p t h e = ground arith

pass-IsStuck : (s : System) (i : ℕ) (o : Outcome) → IsStuck s → Idles o → IsStuck (pass i o s)
pass-IsStuck s i (waits p) v h = record {
  none_fits = h;
  none_added = v.none_added;
  none_taken = v.none_taken;
}
pass-IsStuck s i (retires p) v h = record {
  none_fits = h;
  none_added = v.none_added;
  none_taken = v.none_taken;
}
pass-IsStuck s i (stops p) v h = record {
  none_fits = h;
  none_added = v.none_added;
  none_taken = v.none_taken;
}
pass-IsStuck s i (takes t p) v h = absurd h

same-IsStuck :
    {s t : System} → IsStuck s → IsEmpty t.pool → t.added ≡ s.added → t.taken ≡ s.taken → IsStuck t
same-IsStuck v h a b = record {
  none_fits = h;
  none_added = a ∙ v.none_added;
  none_taken = b ∙ v.none_taken;
}

Step-IsStuck : {s t : System} → Step s t → IsStuck s → IsStuck t
unfolding work_begins work_ends adjust_shrink
Step-IsStuck {s} (submit t e g) v = absurd (never_queued s.pool t v.none_fits e)
Step-IsStuck (submit_closed t e) v = same-IsStuck v v.none_fits refl refl
Step-IsStuck {s} (lock i e) v =
    pass-IsStuck s i (worker_test s.pool) v (worker_test-Idles s.pool v.none_fits)
Step-IsStuck {s} (relock i e) v =
    pass-IsStuck s i (worker_wake s.pool) v (worker_wake-Idles s.pool v.none_fits)
Step-IsStuck (spurious i e) v = same-IsStuck v v.none_fits refl refl
Step-IsStuck (begin i t e) v = same-IsStuck v v.none_fits refl refl
Step-IsStuck (finish i t e) v = same-IsStuck v v.none_fits refl refl
Step-IsStuck (go_on e f) v = same-IsStuck v v.none_fits refl refl
Step-IsStuck (leave e f) v = same-IsStuck v v.none_fits refl refl
Step-IsStuck (count e) v = same-IsStuck v v.none_fits refl refl
Step-IsStuck (sample e) v = same-IsStuck v v.none_fits refl refl
Step-IsStuck {s} (grow k {q} {l} e) v =
    let rest = adjust_grow-rest k q l s.pool in
    same-IsStuck v
      (
        ap (λ (x : Pool). x.queue_size) rest ∙ v.none_fits.0,
        ap (λ (x : Pool). x.queue_max_size) rest ∙ v.none_fits.1,
      )
      refl refl
Step-IsStuck (shrink e) v = ground arith
Step-IsStuck (signal_one e g) v = same-IsStuck v v.none_fits refl refl
Step-IsStuck (signalled e) v = same-IsStuck v v.none_fits refl refl
Step-IsStuck shut v = same-IsStuck v v.none_fits refl refl
Step-IsStuck (rouse_idle e f g) v = same-IsStuck v v.none_fits refl refl

pub Reach-IsStuck : {s t : System} → IsStuck s → Reach s t → IsStuck t
Reach-IsStuck v here = v
Reach-IsStuck v (next r st) = Step-IsStuck st (Reach-IsStuck v r)
