-- ===== src/SharedCounter/Exact.antt =====
-- The threads of lock/mutex.cpp and lock/mutexattr.cpp come to their end.
use codespaces_blank.Prelude.{
  some_of_total, ℕ, zero, suc, ◌+◌, ◌*◌, ◌≤◌, ◌<◌, ◌≡◌, refl, ap, false, List, [], ◌∷◌, some, arith,
  get_elem?, total, le-total, dec_lt, ◌⊎◌, inl, inr, Bool-cases,
}
use codespaces_blank.SharedCounter.{
  Phase, outside, entered, loaded, stored, Thread, Shared, start, Step, locks, loads, stores,
  unlocks, Reach,
}
use codespaces_blank.SharedCounter.Invariant.{
  taken, is_inside, inside, is_due, owed, steps_left, work, AllOutside, Inv, Reach-Inv,
  no_lost_update,
}

-- A thread that holds the mutex can take its step.
inside_steps :
    (s : Shared) (i : ℕ) (t : Thread)
    → get_elem? s.threads i ≡ some t
    → 0 < inside t
    → (u : Shared) × Step s u
inside_steps s i t at_i h = by_phase t.phase refl h
  where
    by_phase : (p : Phase) → t.phase ≡ p → 0 < is_inside p → (u : Shared) × Step s u
    by_phase outside e k = absurd (omega arith)
    by_phase entered e k = (_, loads i t at_i e)
    by_phase (loaded tem) e k = (_, stores i tem t at_i e)
    by_phase stored e k = (_, unlocks i t at_i e)

-- Where the mutex is free, a thread with work left can take it.
outside_steps :
    (s : Shared) (i : ℕ) (t : Thread)
    → s.locked ≡ false
    → get_elem? s.threads i ≡ some t
    → inside t ≡ 0
    → 0 < work t
    → (u : Shared) × Step s u
outside_steps s i t free at_i out h = by_phase t.phase t.left refl refl out h
  where
    by_phase :
        (p : Phase) (n : ℕ)
        → t.phase ≡ p
        → t.left ≡ n
        → is_inside p ≡ 0
        → 0 < 4 * n + steps_left p
        → (u : Shared) × Step s u
    by_phase outside zero e l k g = absurd (omega arith)
    by_phase outside (suc n) e l k g = (_, locks i n t at_i e l free)
    by_phase entered n e l k g = absurd (omega arith)
    by_phase (loaded tem) n e l k g = absurd (omega arith)
    by_phase stored n e l k g = absurd (omega arith)

can_step :
    {ts : List Thread} {n : ℕ} {s : Shared}
    → Inv ts n s
    → 0 < total work s.threads
    → (u : Shared) × Step s u
can_step {s = s} v h = elim (Bool-cases s.locked) [
  | inl held ↦
      let (i, t, at_i, p) =
        some_of_total inside s.threads (omega (arith, v.exclusive, ap taken held)) in
      inside_steps s i t at_i p
  | inr free ↦
      let (i, t, at_i, p) = some_of_total work s.threads h in
      outside_steps s i t free at_i
        (omega (arith, v.exclusive, ap taken free, le-total inside s.threads i at_i)) p
]

owed_bound : (l : List Thread) → total work l ≡ 0 → total owed l ≡ 0
owed_bound [] h = refl
owed_bound (t ∷ l) h =
    omega (arith, no_debt t.left t.phase t.amount (omega arith), owed_bound l (omega arith))
  where
    no_debt : (n : ℕ) (p : Phase) (a : ℕ) → 4 * n + steps_left p ≡ 0 → (n + is_due p) * a ≡ 0
    no_debt zero outside a e = omega arith
    no_debt zero entered a e = absurd (omega arith)
    no_debt zero (loaded tem) a e = absurd (omega arith)
    no_debt zero stored a e = absurd (omega arith)
    no_debt (suc n) p a e = absurd (omega arith)

-- However the threads take turns, from their start: never two of them hold the mutex; what they have
-- added to the number is what they had to add, less what they still owe, so no update is lost; and
-- every run ends after four steps for each round of each thread: before, some thread can take a step,
-- and then the number is the sum over the threads of amount times rounds.
pub counting_is_exact :
    (ts : List Thread) (n : ℕ) (s : Shared)
    → AllOutside ts
    → Reach (start ts) n s
    → (total inside s.threads ≤ 1)
      × (s.num + total owed s.threads ≡ total owed ts)
      × (n ≤ total work ts)
      × (((n ≡ total work ts) × (s.num ≡ total owed ts)) ⊎ ((u : Shared) × Step s u))
counting_is_exact ts n s h r =
    let v = Reach-Inv h r in
    let (alone, kept) = no_lost_update ts n s h r in
    (
      alone,
      kept,
      omega (arith, v.progress),
      elim (dec_lt 0 (total work s.threads)) [
        | yes more ↦ inr (can_step v more)
        | no over ↦ inl (
          omega (arith, v.progress),
          omega (arith, v.conserved, owed_bound s.threads (omega arith)),
        )
      ],
    )
