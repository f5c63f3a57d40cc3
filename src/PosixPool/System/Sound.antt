-- ===== src/PosixPool/System/Sound.antt =====
-- The invariant of the threads of socket/thread_Pool/main.cpp, and what one thread does to it.
use codespaces_blank.Prelude.{
  ℕ, ◌+◌, ◌≤◌, ◌≡◌, refl, ap, ap₂, ◌∙◌, sym, List, [], ◌∷◌, ◌++◌, some, arith, append_assoc, zero,
  suc, Bool, Bool-cases, inl, inr, get_elem?, set, length, total, total-append, total-set,
}
use codespaces_blank.PosixPool.{Task, Pool, Outcome, waits, retires, stops, takes}
use codespaces_blank.PosixPool.Valid.{IsValid}
use codespaces_blank.PosixPool.Fifo.{contents}
use codespaces_blank.PosixPool.System.Passage.{Same, Good}
use codespaces_blank.PosixPool.Manager.{Kernel, adjust_grow, adjust_grow_counts}
use codespaces_blank.PosixPool.System.{
  unheard, heard, Worker, waiting, woken, holding, running, retired, stopped, launch, System,
  Signal, rouse, rouse_all, pass, enlarge,
}

-- The threads that `live_thr_num` counts: all but those that ended as surplus. A thread whose creation
-- has failed is counted too.
abbrev pub counts : Worker → ℕ
counts retired = 0
counts _ = 1

abbrev pub runs : Worker → ℕ
runs (running _) = 1
runs _ = 0

pub launch-counts : (b : ℕ → Bool) (i n : ℕ) → total counts (launch b i n) ≡ n
launch-counts b i zero = refl
launch-counts b i (suc n) = elim (Bool-cases (b i)) [
  | inl made ↦ rw made (omega (arith, launch-counts b (i + 1) n))
  | inr not_made ↦ rw not_made (omega (arith, launch-counts b (i + 1) n))
]

pub launch-runs : (b : ℕ → Bool) (i n : ℕ) → total runs (launch b i n) ≡ 0
launch-runs b i zero = refl
launch-runs b i (suc n) = elim (Bool-cases (b i)) [
  | inl made ↦ rw made (omega (arith, launch-runs b (i + 1) n))
  | inr not_made ↦ rw not_made (omega (arith, launch-runs b (i + 1) n))
]

-- The limits `lo` and `hi` are the arguments of `threadpool_create`.
pub record Inv (lo hi : ℕ) (p : Pool) (ws : List Worker) (added taken : List Task) : Type 0 where
  pub valid : IsValid p
  pub low : p.min_thr_num ≡ lo
  pub high : p.max_thr_num ≡ hi
  pub slots : length p.threads ≡ hi
  pub live : p.live_thr_num ≡ total counts ws
  pub busy : p.busy_thr_num ≡ total runs ws
  pub least : lo ≤ p.live_thr_num
  pub most : p.live_thr_num ≤ hi
  pub history : taken ++ contents p ≡ added

abbrev pub IsSound : (lo hi : ℕ) → System → Type 0
IsSound lo hi s = Inv lo hi s.pool s.workers s.added s.taken

module _ {lo hi : ℕ} {p : Pool} {ws : List Worker} {added : List Task} where
  -- Worker `i` goes from `w` to `w'`, neither in a task's function.
  pub moved :
      {taken : List Task} (i : ℕ) {w : Worker} (w' : Worker) (taken' : List Task) {p' : Pool}
      → Inv lo hi p ws added taken
      → get_elem? ws i ≡ some w
      → runs w ≡ runs w'
      → Same p p'
      → p'.live_thr_num + counts w ≡ p.live_thr_num + counts w'
      → lo ≤ p'.live_thr_num
      → p'.live_thr_num ≤ p.live_thr_num
      → taken' ++ contents p' ≡ added
      → Inv lo hi p' (set ws i w') added taken'
  moved i w' taken' v e r g l least most h = record {
    valid = g.valid;
    low = g.low ∙ v.low;
    high = g.high ∙ v.high;
    slots = g.threads ∙ v.slots;
    live = omega (arith, total-set counts ws i w' e, v.live);
    busy = omega (arith, total-set runs ws i w' e, v.busy, g.busy);
    least = least;
    most = omega (arith, v.most);
    history = h;
  }

  -- `n` new threads start.
  pub more-Inv :
      {taken : List Task} (n : ℕ) (b : ℕ → Bool) {p' : Pool}
      → Inv lo hi p ws added taken
      → p'.live_thr_num ≡ p.live_thr_num + n
      → p'.live_thr_num ≤ hi
      → length p'.threads ≡ length p.threads
      → p' ≡ record p { threads = p'.threads; live_thr_num = p'.live_thr_num }
      → Inv lo hi p' (ws ++ launch b 0 n) added taken
  more-Inv {taken} n b {p'} v l most t rest = record {
    valid = rw rest unchanged;
    low = ap (λ (x : Pool). x.min_thr_num) rest ∙ v.low;
    high = ap (λ (x : Pool). x.max_thr_num) rest ∙ v.high;
    slots = t ∙ v.slots;
    live = omega (arith, total-append counts ws (launch b 0 n), launch-counts b 0 n, v.live, l);
    busy =
        ap (λ (x : Pool). x.busy_thr_num) rest
        ∙ omega (arith, total-append runs ws (launch b 0 n), launch-runs b 0 n, v.busy);
    least = omega (arith, v.least);
    most = most;
    history = ap (λ x. taken ++ contents x) rest ∙ v.history;
  }
    where
      unchanged : IsValid (record p { threads = p'.threads; live_thr_num = p'.live_thr_num })
      unchanged = omega arith

  -- A task goes in.
  pub queued-Inv :
      {taken : List Task} (t : Task) {p' : Pool}
      → Inv lo hi p ws added taken
      → Same p p'
      → p'.live_thr_num ≡ p.live_thr_num
      → contents p' ≡ contents p ++ (t ∷ [])
      → Inv lo hi p' ws (added ++ (t ∷ [])) taken
  queued-Inv {taken} t {p'} v g l h = record {
    valid = g.valid;
    low = g.low ∙ v.low;
    high = g.high ∙ v.high;
    slots = g.threads ∙ v.slots;
    live = l ∙ v.live;
    busy = g.busy ∙ v.busy;
    least = omega (arith, v.least);
    most = omega (arith, v.most);
    history =
        ap (λ q. taken ++ q) h
        ∙ sym (append_assoc taken (contents p) (t ∷ []))
        ∙ ap (λ q. q ++ (t ∷ [])) v.history;
  }

  -- Only the threads that wait or are woken change.
  pub roused :
      {taken : List Task} {ws' : List Worker}
      → Inv lo hi p ws added taken
      → total counts ws' ≡ total counts ws
      → total runs ws' ≡ total runs ws
      → Inv lo hi p ws' added taken
  roused v c r = ground arith

-- Worker `i` passes through the lock.
pub pass-IsSound :
    {lo hi : ℕ} (s : System) (i : ℕ) {w : Worker}
    → IsSound lo hi s
    → get_elem? s.workers i ≡ some w
    → counts w ≡ 1
    → runs w ≡ 0
    → (o : Outcome) → Good s.pool o
    → IsSound lo hi (pass i o s)
pass-IsSound s i v e c r (waits p') (g, l, h) =
    moved i waiting s.taken v e r g (omega arith) (omega (arith, v.least)) (omega arith)
      (ap (λ q. s.taken ++ q) h ∙ v.history)
pass-IsSound s i v e c r (stops p') (g, l, h) =
    moved i stopped s.taken v e r g (omega arith) (omega (arith, v.least)) (omega arith)
      (ap (λ q. s.taken ++ q) h ∙ v.history)
pass-IsSound s i v e c r (retires p') (g, l, m, h) =
    moved i retired s.taken v e r g (omega arith) (omega (arith, v.low)) (omega arith)
      (ap (λ q. s.taken ++ q) h ∙ v.history)
pass-IsSound s i v e c r (takes t p') (g, l, h) =
    moved i (holding t) (s.taken ++ (t ∷ [])) v e r g (omega arith) (omega (arith, v.least))
      (omega arith)
      (append_assoc s.taken (t ∷ []) (contents p') ∙ ap (λ q. s.taken ++ q) (sym h) ∙ v.history)

-- Threads that wait and threads that are woken count alike.
pub Signal-counts : {ws ws' : List Worker} → Signal ws ws' → total counts ws' ≡ total counts ws
Signal-counts (unheard none_waits) = refl
Signal-counts {ws} (heard i e) = omega (arith, total-set counts ws i woken e)

pub Signal-runs : {ws ws' : List Worker} → Signal ws ws' → total runs ws' ≡ total runs ws
Signal-runs (unheard none_waits) = refl
Signal-runs {ws} (heard i e) = omega (arith, total-set runs ws i woken e)

pub rouse_all-total :
    (f : Worker → ℕ)
    → f woken ≡ f waiting
    → (ws : List Worker) → total f (rouse_all ws) ≡ total f ws
rouse_all-total f h [] = refl
rouse_all-total f h (w ∷ ws) = ap₂ ◌+◌ (rouse-same w) (rouse_all-total f h ws)
  where
    rouse-same : (w : Worker) → f (rouse w) ≡ f w
    rouse-same waiting = h
    rouse-same _ = refl

-- What `adjust_grow` and `adjust_shrink` leave.
pub enlarge-IsSound :
    {lo hi : ℕ} (k : Kernel) (q l b : ℕ) (s : System)
    → IsSound lo hi s
    → IsSound lo hi (enlarge k.starts (adjust_grow k q l s.pool) l b s)
enlarge-IsSound k q l b s v =
    let (few, live, most, slots, rest) =
      adjust_grow_counts k q l s.pool (omega arith) (omega arith) in
    more-Inv _ k.starts v live (omega arith) slots rest
