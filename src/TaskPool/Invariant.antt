-- ===== src/TaskPool/Invariant.antt =====
-- What holds in every state that the threads of ThreadPool.h under socket/thread_Pool can reach.
use mathlib.Core.Bool.{false≢true}
use codespaces_blank.Prelude.{
  ℕ, suc, ◌+◌, ◌≤◌, ◌<◌, ◌≡◌, ◌≢◌, refl, sym, ap, ◌∙◌, true, false, List, [], ◌∷◌, ◌++◌, some,
  arith, append_assoc, get_elem?, set, length, total, total-replicate, total-set, le-total,
  length-set, total-append, dec_lt, if◌then◌else◌, ◌==◌, length-replicate,
}
use codespaces_blank.TaskPool.{
  ThreadPool, enqueue, enqueued, Outcome, waits, returns, takes, pop, worker_pass, Worker, ready,
  waiting, woken, running, returned, System, Notify, unheard, heard, rouse, notify_all, pass, Step,
  submit, notify, lock, relock, spurious, finish, stop, wake_all, start, Reach, here, next,
}

abbrev pub comes : Worker → ℕ
comes waiting = 0
comes returned = 0
comes _ = 1

abbrev pub stays : Worker → ℕ
stays waiting = 1
stays _ = 0

abbrev pub ends : Worker → ℕ
ends returned = 1
ends _ = 0

-- How often task `x` is `t`; how often a worker runs it.
abbrev pub is : ℕ → ℕ → ℕ
is x t = if x == t then 1 else 0

abbrev pub runs : ℕ → Worker → ℕ
runs x (running t) = is x t
runs x _ = 0

-- `n` is the number of workers.
pub record Inv (n : ℕ) (s : System) : Type 0 where
  pub workers : length s.workers ≡ n
  pub history : s.started ++ s.pool.tasks ≡ s.queued
  pub ended : 0 < total ends s.workers → (s.pool.stop ≡ true) × (s.pool.tasks ≡ [])
  pub served : s.pool.tasks ≢ [] → 0 < total comes s.workers + s.notifying
  pub doing : (x : ℕ) → total (is x) s.started ≡ total (is x) s.finished + total (runs x) s.workers

-- Each outcome of a passage is right for the pool that it finds.
abbrev pub Good : ThreadPool → Outcome → Type 0
Good p waits = (p.stop ≡ false) × (p.tasks ≡ [])
Good p returns = (p.stop ≡ true) × (p.tasks ≡ [])
Good p (takes t p') = (p.tasks ≡ t ∷ p'.tasks) × (p'.stop ≡ p.stop)

pub worker_pass-Good : (p : ThreadPool) → Good p (worker_pass p)
unfolding worker_pass pop
worker_pass-Good p = ground arith

pub enqueue-lem :
    (p : ThreadPool) (t : ℕ) {p' : ThreadPool}
    → enqueue p t ≡ enqueued p'
    → (p.stop ≡ false) × (p'.stop ≡ false) × (p'.tasks ≡ p.tasks ++ (t ∷ []))
unfolding enqueue
enqueue-lem p t e = ground arith

total-kinds : (ws : List Worker) → length ws ≡ total comes ws + total stays ws + total ends ws
total-kinds [] = refl
total-kinds (w ∷ ws) = omega (arith, kinds w, total-kinds ws)
  where
    kinds : (w : Worker) → comes w + stays w + ends w ≡ 1
    kinds w = ground arith

none_stays : (ws : List Worker) → ((i : ℕ) → get_elem? ws i ≡ some waiting → ⊥) → total stays ws ≡ 0
none_stays [] h = refl
none_stays (w ∷ ws) h = omega (arith, first w (h 0), none_stays ws (λ i. h (suc i)))
  where
    first : (w : Worker) → (some w ≡ some waiting → ⊥) → stays w ≡ 0
    first waiting q = absurd (q refl)
    first _ q = refl

-- A change that only wakes threads up.
record Wakes (ws ws' : List Worker) : Type 0 where
  same : length ws' ≡ length ws
  ended : total ends ws' ≡ total ends ws
  same_work : (x : ℕ) → total (runs x) ws' ≡ total (runs x) ws
  more : total comes ws ≤ total comes ws'

one_woken : (ws : List Worker) (i : ℕ) → get_elem? ws i ≡ some waiting → Wakes ws (set ws i woken)
one_woken ws i e = record {
  same = length-set ws i woken;
  ended = omega (arith, total-set ends ws i woken e);
  same_work = λ x. omega (arith, total-set (runs x) ws i woken e);
  more = omega (arith, total-set comes ws i woken e);
}

Notify-Wakes : {ws ws' : List Worker} → Notify ws ws' → Wakes ws ws'
Notify-Wakes (unheard none) = record {
  same = refl;
  ended = refl;
  same_work = λ x. refl;
  more = omega arith;
}
Notify-Wakes {ws} (heard i e) = one_woken ws i e

notify_all-Wakes : (ws : List Worker) → Wakes ws (notify_all ws)
notify_all-Wakes [] = record {
  same = refl;
  ended = refl;
  same_work = λ x. refl;
  more = omega arith;
}
notify_all-Wakes (w ∷ ws) =
    let rest = notify_all-Wakes ws in
    record {
      same = omega (arith, rest.same);
      ended = omega (arith, one w, rest.ended);
      same_work = λ x. omega (arith, same x w, rest.same_work x);
      more = omega (arith, one w, rest.more);
    }
  where
    one : (w : Worker) → (ends (rouse w) ≡ ends w) × (comes w ≤ comes (rouse w))
    one w = ground arith

    same : (x : ℕ) (w : Worker) → runs x (rouse w) ≡ runs x w
    same x waiting = refl
    same x _ = refl

-- A notification among threads that have not returned leaves one that comes.
Notify-comes :
    {ws ws' : List Worker} → Notify ws ws' → 0 < length ws → total ends ws ≡ 0 → 0 < total comes ws'
Notify-comes {ws} (unheard none) l e = omega (arith, none_stays ws none, total-kinds ws)
Notify-comes {ws} (heard i h) l e = omega (arith, total-set comes ws i woken h)

module _ {n : ℕ} where
  woken-Inv :
      (s : System) {ws : List Worker}
      → Inv n s
      → Wakes s.workers ws
      → Inv n (record s { workers = ws })
  woken-Inv s v w = record {
    workers = w.same ∙ v.workers;
    history = v.history;
    ended = λ h. v.ended (omega (arith, w.ended));
    served = λ h. omega (arith, v.served h, w.more);
    doing = λ x. v.doing x ∙ ap (λ k. total (is x) s.finished + k) (sym (w.same_work x));
  }

  pass-Inv :
      (s : System) (i : ℕ) {w : Worker}
      → Inv n s
      → get_elem? s.workers i ≡ some w
      → comes w ≡ 1
      → ends w ≡ 0
      → ((x : ℕ) → runs x w ≡ 0)
      → (o : Outcome) → Good s.pool o
      → Inv n (pass i o s)
  pass-Inv s i v e a b c waits g = record {
    workers = length-set s.workers i waiting ∙ v.workers;
    history = v.history;
    ended = λ h. v.ended (omega (arith, total-set ends s.workers i waiting e));
    served = λ h. absurd (h g.1);
    doing = λ x. omega (arith, v.doing x, c x, total-set (runs x) s.workers i waiting e);
  }
  pass-Inv s i v e a b c returns g = record {
    workers = length-set s.workers i returned ∙ v.workers;
    history = v.history;
    ended = λ h. g;
    served = λ h. absurd (h g.1);
    doing = λ x. omega (arith, v.doing x, c x, total-set (runs x) s.workers i returned e);
  }
  pass-Inv s i v e a b c (takes t p') g = record {
    workers = length-set s.workers i (running t) ∙ v.workers;
    history =
        append_assoc s.started (t ∷ []) p'.tasks ∙ ap (λ q. s.started ++ q) (sym g.0) ∙ v.history;
    ended = λ h. absurd (
        cons-ne-nil
          (sym g.0 ∙ (v.ended (omega (arith, total-set ends s.workers i (running t) e))).1));
    served =
        λ h. omega (arith, total-set comes s.workers i (running t) e, le-total comes s.workers i e);
    doing = λ x. omega (
      arith,
      v.doing x,
      c x,
      total-set (runs x) s.workers i (running t) e,
      total-append (is x) s.started (t ∷ []),
    );
  }
    where
      cons-ne-nil : {x : ℕ} {xs : List ℕ} → x ∷ xs ≡ [] → ⊥
      cons-ne-nil q = cc

  -- Every step keeps the invariant of a pool with at least one worker.
  Step-Inv : {s t : System} → 0 < n → Step s t → Inv n s → Inv n t
  Step-Inv {s} pos (submit t e) v =
      let (open_, still_open, tasks) = enqueue-lem s.pool t e in
      record {
        workers = v.workers;
        history =
            ap (λ q. s.started ++ q) tasks
            ∙ sym (append_assoc s.started s.pool.tasks (t ∷ []))
            ∙ ap (λ q. q ++ (t ∷ [])) v.history;
        ended = λ h. absurd (false≢true (sym open_ ∙ (v.ended h).0));
        served = λ h. omega arith;
        doing = v.doing;
      }
  Step-Inv {s} pos (notify k e g) v =
      let w = Notify-Wakes g in
      record {
        workers = w.same ∙ v.workers;
        history = v.history;
        ended = λ h. v.ended (omega (arith, w.ended));
        served = λ h. elim (dec_lt 0 (total ends s.workers)) [
          | yes over ↦ absurd (h (v.ended over).1)
          | no on ↦ omega (arith, Notify-comes g (omega (arith, v.workers)) (omega arith))
        ];
        doing = λ x. v.doing x ∙ ap (λ k. total (is x) s.finished + k) (sym (w.same_work x));
      }
  Step-Inv {s} pos (lock i e) v =
      pass-Inv s i v e refl refl (λ x. refl) (worker_pass s.pool) (worker_pass-Good s.pool)
  Step-Inv {s} pos (relock i e) v =
      pass-Inv s i v e refl refl (λ x. refl) (worker_pass s.pool) (worker_pass-Good s.pool)
  Step-Inv {s} pos (spurious i e) v = woken-Inv s v (one_woken s.workers i e)
  Step-Inv {s} pos (finish i t e) v = record {
    workers = length-set s.workers i ready ∙ v.workers;
    history = v.history;
    ended = λ h. v.ended (omega (arith, total-set ends s.workers i ready e));
    served = λ h. omega (arith, v.served h, total-set comes s.workers i ready e);
    doing = λ x. omega (
      arith,
      v.doing x,
      total-set (runs x) s.workers i ready e,
      total-append (is x) s.finished (t ∷ []),
    );
  }
  Step-Inv {s} pos stop v = record {
    workers = v.workers;
    history = v.history;
    ended = λ h. (refl, (v.ended h).1);
    served = v.served;
    doing = v.doing;
  }
  Step-Inv {s} pos (wake_all e) v = woken-Inv s v (notify_all-Wakes s.workers)

  pub Reach-Inv : {s t : System} → 0 < n → Inv n s → Reach s t → Inv n t
  Reach-Inv pos v here = v
  Reach-Inv pos v (next r st) = Step-Inv pos st (Reach-Inv pos v r)

pub start-Inv : (n : ℕ) → Inv n (start n)
start-Inv n = record {
  workers = length-replicate n ready;
  history = refl;
  ended = λ h. absurd (omega (arith, total-replicate ends n ready));
  served = λ h. absurd (h refl);
  doing = λ x. omega (arith, total-replicate (runs x) n ready);
}
