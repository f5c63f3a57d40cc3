-- ===== src/PosixPool/Manager.antt =====
-- `is_thread_alive` and the two decisions of `adjust_thread` in socket/thread_Pool/main.cpp.
use codespaces_blank.Prelude.{
  ℕ, zero, suc, ◌+◌, ◌*◌, ◌≤◌, ◌<◌, ◌≡◌, refl, Bool, true, false, ◌&&◌, ◌||◌, List, arith, ltb, leb,
  ◌==◌, if◌then◌else◌, length, get_or, set, length-set, get_or-set_self, get_or-set_ne, ap,
  ℕ_discrete, ◌≢◌, ◌∙◌, subst, Bool-cases, inl, inr,
}
use codespaces_blank.PosixPool.{Pool}

-- `MIN_WAIT_TASK_NUM` and `DEFAULT_THREAD_VARY`
abbrev pub min_wait_task_num : ℕ
min_wait_task_num = 10

abbrev pub default_thread_vary : ℕ
default_thread_vary = 10

-- The thread library: the value of ESRCH, what `pthread_kill(tid, 0)` returns, and the id that
-- `pthread_create` writes into slot `i`. Its return value is not looked at; `starts` says which of
-- the calls of one growth do start a thread.
pub record Kernel : Type 0 where
  pub esrch : ℕ
  pub pthread_kill : ℕ → ℕ
  pub pthread_create : ℕ → ℕ
  pub starts : ℕ → Bool

-- `queue_size >= MIN_WAIT_TASK_NUM && live_thr_num < pool->max_thr_num`
abbrev pub wants_more : ℕ → ℕ → Pool → Bool
wants_more queue_size live_thr_num p =
    leb min_wait_task_num queue_size && ltb live_thr_num p.max_thr_num

-- The test of the loop that creates threads, less the one on its slot.
abbrev pub grow_test : ℕ × Pool → Bool
grow_test (add, p) = ltb add default_thread_vary && ltb p.live_thr_num p.max_thr_num

module _ (k : Kernel) where
  unfoldable pub is_thread_alive : ℕ → ℕ
  is_thread_alive tid = if k.pthread_kill tid == k.esrch then 0 else 1

  -- `threads[i] == 0 || !is_thread_alive(threads[i])`
  unfoldable pub is_free : List ℕ → ℕ → Bool
  is_free threads i = get_or threads i 0 == 0 || is_thread_alive (get_or threads i 0) == 0

  -- `pthread_create(&threads[i], …); add++; live_thr_num++;`
  abbrev pub create_at : ℕ → ℕ × Pool → ℕ × Pool
  create_at i (add, p) = (
    add + 1,
    record p { threads = set p.threads i (k.pthread_create i); live_thr_num = p.live_thr_num + 1 },
  )

  -- The body of the loop that creates threads, with its count `add`.
  unfoldable pub grow_slot : ℕ → ℕ × Pool → ℕ × Pool
  grow_slot i s = if is_free s.1.threads i then create_at i s else s

  -- The loop from slot `i`, with `n` more slots below `max_thr_num`.
  unfoldable pub grow_loop : ℕ → ℕ → ℕ × Pool → ℕ × Pool
  grow_loop zero i s = s
  grow_loop (suc n) i s = if grow_test s then grow_loop n (i + 1) (grow_slot i s) else s

  -- The first decision, on a queue size and a count of threads read before: the number of
  -- threads that are created, and the pool after.
  unfoldable pub adjust_grow : (queue_size live_thr_num : ℕ) → Pool → ℕ × Pool
  adjust_grow queue_size live_thr_num p =
      if wants_more queue_size live_thr_num p then grow_loop p.max_thr_num 0 (0, p) else (0, p)

-- The second decision: `wait_exit_thr_num`, and the number of signals that follow.
unfoldable pub adjust_shrink : (busy_thr_num live_thr_num : ℕ) → Pool → ℕ × Pool
adjust_shrink busy_thr_num live_thr_num p =
    if ltb (busy_thr_num * 2) live_thr_num && ltb p.min_thr_num live_thr_num
    then (default_thread_vary, record p { wait_exit_thr_num = default_thread_vary })
    else (0, p)

-- `threadpool_all_threadnum`
pub threadpool_all_threadnum : Pool → ℕ
threadpool_all_threadnum p = p.live_thr_num

-- What the creation of threads from slot `i` on, over `n` slots, does.
pub record Grown (k : Kernel) (n i : ℕ) (s s' : ℕ × Pool) : Type 0 where
  pub slots : length s'.1.threads ≡ length s.1.threads
  pub counted : s'.1.live_thr_num + s.0 ≡ s.1.live_thr_num + s'.0
  pub more : s.0 ≤ s'.0
  pub few : s.0 ≤ default_thread_vary → s'.0 ≤ default_thread_vary
  pub room : s.1.live_thr_num ≤ s.1.max_thr_num → s'.1.live_thr_num ≤ s.1.max_thr_num
  pub below : (j : ℕ) → j < i → get_or s'.1.threads j 0 ≡ get_or s.1.threads j 0
  pub kept :
      (j : ℕ) → is_free k s.1.threads j ≡ false → get_or s'.1.threads j 0 ≡ get_or s.1.threads j 0
  pub filled :
      s'.0 < default_thread_vary
      → s'.1.live_thr_num < s.1.max_thr_num
      → (j : ℕ) → i ≤ j
      → j < i + n
      → is_free k s.1.threads j ≡ true
      → get_or s'.1.threads j 0 ≡ k.pthread_create j

module _ (k : Kernel) where
  -- The loop ends at once: no slot is left, or its test fails.
  Grown-stop :
      (n i : ℕ) (s : ℕ × Pool)
      → (s.0 < default_thread_vary → s.1.live_thr_num < s.1.max_thr_num → n ≡ 0)
      → Grown k n i s s
  Grown-stop n i s h = record {
    slots = refl;
    counted = refl;
    more = omega arith;
    few = λ q. q;
    room = λ q. q;
    below = λ j q. refl;
    kept = λ j q. refl;
    filled = λ a b j c d q. absurd (omega (arith, h a b));
  }

  -- Slot `i` is left alone.
  Grown-skip :
      {n i : ℕ} {s s' : ℕ × Pool}
      → is_free k s.1.threads i ≡ false
      → Grown k n (i + 1) s s'
      → Grown k (suc n) i s s'
  Grown-skip {n} {i} {s} {s'} taken g = record {
    slots = g.slots;
    counted = g.counted;
    more = g.more;
    few = g.few;
    room = g.room;
    below = λ j q. g.below j (omega arith);
    kept = g.kept;
    filled = λ a b j c d q. elim (ℕ_discrete j i) [
      | yes e ↦ cc (ap (is_free k s.1.threads) e)
      | no ne ↦ g.filled a b j (omega arith) (omega arith) q
    ];
  }

  is_free-set_ne : (l : List ℕ) {i j : ℕ} (v : ℕ) → i ≢ j → is_free k (set l i v) j ≡ is_free k l j
  unfolding is_free
  is_free-set_ne l v h = rw (get_or-set_ne l v 0 h)

  -- Slot `i` gets a new thread.
  Grown-take :
      {n i : ℕ} {s s' : ℕ × Pool}
      → is_free k s.1.threads i ≡ true
      → i < length s.1.threads
      → s.0 < default_thread_vary
      → s.1.live_thr_num < s.1.max_thr_num
      → Grown k n (i + 1) (create_at k i s) s'
      → Grown k (suc n) i s s'
  Grown-take {n} {i} {s} {s'} free inside a b g = record {
    slots = g.slots ∙ length-set s.1.threads i (k.pthread_create i);
    counted = omega (arith, g.counted);
    more = omega (arith, g.more);
    few = λ q. g.few (omega arith);
    room = λ q. g.room (omega arith);
    below = λ j q.
        g.below j (omega arith) ∙ get_or-set_ne s.1.threads (k.pthread_create i) 0 (omega arith);
    kept = λ j q. elim (ℕ_discrete i j) [
      | yes e ↦ cc (ap (is_free k s.1.threads) e)
      | no ne ↦
          g.kept j (is_free-set_ne s.1.threads (k.pthread_create i) ne ∙ q)
          ∙ get_or-set_ne s.1.threads (k.pthread_create i) 0 ne
    ];
    filled = λ u w j c d q. elim (ℕ_discrete i j) [
      | yes e ↦
          subst (λ m. get_or s'.1.threads m 0 ≡ k.pthread_create m) e
            (g.below i (omega arith) ∙ get_or-set_self s.1.threads i (k.pthread_create i) 0 inside)
      | no ne ↦
          g.filled u w j (omega arith) (omega arith)
            (is_free-set_ne s.1.threads (k.pthread_create i) ne ∙ q)
    ];
  }

  grow_slot-free :
      (i : ℕ) (s : ℕ × Pool) → is_free k s.1.threads i ≡ true → grow_slot k i s ≡ create_at k i s
  unfolding grow_slot
  grow_slot-free i s e = rw e

  grow_slot-taken : (i : ℕ) (s : ℕ × Pool) → is_free k s.1.threads i ≡ false → grow_slot k i s ≡ s
  unfolding grow_slot
  grow_slot-taken i s e = rw e

  pub grow_loop-Grown :
      (n i : ℕ) (s : ℕ × Pool) → i + n ≤ length s.1.threads → Grown k n i s (grow_loop k n i s)
  unfolding grow_loop
  grow_loop-Grown zero i s h = Grown-stop zero i s (λ a b. refl)
  grow_loop-Grown (suc n) i s h = elim (Bool-cases (grow_test s)) [
    | inr done ↦ rw done (Grown-stop (suc n) i s (ground arith))
    | inl goes ↦ rw goes (elim (Bool-cases (is_free k s.1.threads i)) [
      | inl free ↦ rw (grow_slot-free i s free) (
          Grown-take free (omega arith) (ground arith) (ground arith) (
            grow_loop-Grown n (i + 1) (create_at k i s)
              (omega (arith, length-set s.1.threads i (k.pthread_create i)))))
      | inr taken ↦
          rw (grow_slot-taken i s taken)
            (Grown-skip taken (grow_loop-Grown n (i + 1) s (omega arith)))
    ])
  ]

  grow_loop-rest :
      (n i : ℕ) (s : ℕ × Pool)
      → let p' = (grow_loop k n i s).1 in
        p' ≡ record (s.1) { threads = p'.threads; live_thr_num = p'.live_thr_num }
  unfolding grow_loop grow_slot
  grow_loop-rest zero i s = refl
  grow_loop-rest (suc n) i s = ground (arith, grow_loop-rest n (i + 1) (grow_slot k i s))

  -- The creation of threads changes `threads` and `live_thr_num` only.
  pub adjust_grow-rest :
      (queue_size live_thr_num : ℕ) (p : Pool)
      → let p' = (adjust_grow k queue_size live_thr_num p).1 in
        p' ≡ record p { threads = p'.threads; live_thr_num = p'.live_thr_num }
  unfolding adjust_grow
  adjust_grow-rest queue_size live_thr_num p =
      elim (Bool-cases (wants_more queue_size live_thr_num p)) [
        | inr no_need ↦ rw no_need refl
        | inl need ↦ rw need (grow_loop-rest p.max_thr_num 0 (0, p))
      ]

  module _ (queue_size live_thr_num : ℕ) (p : Pool) (room : p.max_thr_num ≤ length p.threads) where
    -- The first decision of the manager, on a pool with a slot for each of `max_thr_num` threads
    -- and no more live threads than that: it creates at most `default_thread_vary` threads and none
    -- beyond `max_thr_num`, counts each one in `live_thr_num`, and changes nothing else but
    -- `threads`, whose length it keeps.
    pub adjust_grow_counts :
        p.live_thr_num ≤ p.max_thr_num
        → let (n, p') = adjust_grow k queue_size live_thr_num p in
          (n ≤ default_thread_vary)
          × (p'.live_thr_num ≡ p.live_thr_num + n)
          × (p'.live_thr_num ≤ p.max_thr_num)
          × (length p'.threads ≡ length p.threads)
          × (p' ≡ record p { threads = p'.threads; live_thr_num = p'.live_thr_num })
    unfolding adjust_grow
    adjust_grow_counts few = elim (Bool-cases (wants_more queue_size live_thr_num p)) [
      | inr no_need ↦ rw no_need (omega arith, omega arith, few, refl, refl)
      | inl need ↦ rw need (
          let g = grow_loop-Grown p.max_thr_num 0 (0, p) (omega arith) in
          (
            g.few (omega arith),
            omega (arith, g.counted),
            g.room few,
            g.slots,
            grow_loop-rest p.max_thr_num 0 (0, p),
          ))
    ]

    -- On a pool with a slot for each of `max_thr_num` threads, the creation of threads never
    -- overwrites the id of a thread that is alive.
    pub adjust_grow-kept :
        (j : ℕ)
        → is_free k p.threads j ≡ false
        → get_or (adjust_grow k queue_size live_thr_num p).1.threads j 0 ≡ get_or p.threads j 0
    unfolding adjust_grow
    adjust_grow-kept j h = elim (Bool-cases (wants_more queue_size live_thr_num p)) [
      | inr no_need ↦ rw no_need refl
      | inl need ↦ rw need ((grow_loop-Grown p.max_thr_num 0 (0, p) (omega arith)).kept j h)
    ]

    -- On a pool with a slot for each of `max_thr_num` threads: if at least `min_wait_task_num`
    -- tasks wait and there is room for a thread, and the creation
    -- of threads ends below `default_thread_vary` new ones and below `max_thr_num` live ones, then
    -- every slot that was free holds the id of its new thread.
    pub adjust_grow-filled :
        min_wait_task_num ≤ queue_size
        → live_thr_num < p.max_thr_num
        → (adjust_grow k queue_size live_thr_num p).0 < default_thread_vary
        → (adjust_grow k queue_size live_thr_num p).1.live_thr_num < p.max_thr_num
        → (j : ℕ) → j < p.max_thr_num
        → is_free k p.threads j ≡ true
        → get_or (adjust_grow k queue_size live_thr_num p).1.threads j 0 ≡ k.pthread_create j
    unfolding adjust_grow
    adjust_grow-filled a b = rw need (λ c d j e q.
        (grow_loop-Grown p.max_thr_num 0 (0, p) (omega arith)).filled c d j (omega arith)
          (omega arith) q)
      where
        need : wants_more queue_size live_thr_num p ≡ true
        need = ground arith
