-- ===== src/SharedCounter/Invariant.antt =====
-- The threads of lock/mutex.cpp and lock/mutexattr.cpp hold the mutex one at a time and lose no update.
use codespaces_blank.Prelude.{
  ℕ, ◌+◌, ◌*◌, ◌≤◌, ◌≡◌, refl, sym, ap, Bool, true, false, ◌==◌, List, [], ◌∷◌, some, arith,
  if◌then◌else◌, get_elem?, set, total, total-set, total_mono, le-total,
}
use native.Mathlib.Nat.{add-mul}
use codespaces_blank.SharedCounter.{
  Phase, outside, entered, loaded, stored, Thread, Shared, start, Step, locks, loads, stores,
  unlocks, Reach, here, next,
}

-- The threads that hold the mutex.
abbrev pub taken : Bool → ℕ
taken true = 1
taken false = 0

-- Whether a thread holds the mutex.
abbrev pub is_inside : Phase → ℕ
is_inside outside = 0
is_inside _ = 1

abbrev pub inside : Thread → ℕ
inside t = is_inside t.phase

-- Whether a thread has a value that is not `x`.
abbrev has_other : ℕ → Phase → ℕ
has_other x (loaded tem) = if tem == x then 0 else 1
has_other x _ = 0

abbrev stale : ℕ → Thread → ℕ
stale x t = has_other x t.phase

abbrev has_value : Phase → ℕ
has_value (loaded tem) = 1
has_value _ = 0

-- Whether a thread's current round has still to add.
abbrev pub is_due : Phase → ℕ
is_due entered = 1
is_due (loaded tem) = 1
is_due _ = 0

-- What a thread has still to add.
abbrev pub owed : Thread → ℕ
owed t = (t.left + is_due t.phase) * t.amount

-- The steps of a thread to the end of its round.
abbrev pub steps_left : Phase → ℕ
steps_left outside = 0
steps_left entered = 3
steps_left (loaded tem) = 2
steps_left stored = 1

abbrev pub work : Thread → ℕ
work t = 4 * t.left + steps_left t.phase

-- A round is at its start in each thread.
abbrev pub AllOutside : List Thread → Type 0
AllOutside [] = Unit
AllOutside (t ∷ ts) = (t.phase ≡ outside) × AllOutside ts

pub record Inv (ts : List Thread) (n : ℕ) (s : Shared) : Type 0 where
  pub conserved : s.num + total owed s.threads ≡ total owed ts
  pub exclusive : total inside s.threads ≡ taken s.locked
  current : total (stale s.num) s.threads ≡ 0
  pub progress : n + total work s.threads ≡ total work ts

start-Inv : (ts : List Thread) → AllOutside ts → Inv ts 0 (start ts)
start-Inv ts h = record {
  conserved = omega arith;
  exclusive = none_inside ts h;
  current = none_stale ts h;
  progress = omega arith;
}
  where
    none_inside : (l : List Thread) → AllOutside l → total inside l ≡ 0
    none_inside [] k = refl
    none_inside (t ∷ l) k = rw (k.0) (omega (arith, none_inside l k.1))

    none_stale : (l : List Thread) → AllOutside l → total (stale 0) l ≡ 0
    none_stale [] k = refl
    none_stale (t ∷ l) k = rw (k.0) (omega (arith, none_stale l k.1))

stale_bound : (x : ℕ) (t : Thread) → stale x t ≤ has_value t.phase
stale_bound x t = by_phase t.phase
  where
    by_phase : (p : Phase) → has_other x p ≤ has_value p
    by_phase (loaded tem) = ground arith
    by_phase _ = omega arith

value_bound : (t : Thread) → has_value t.phase ≤ inside t
value_bound t = by_phase t.phase
  where
    by_phase : (p : Phase) → has_value p ≤ is_inside p
    by_phase (loaded tem) = omega arith
    by_phase _ = omega arith

lock_count : (c : Bool) → taken c ≤ 1
lock_count true = omega arith
lock_count false = omega arith

-- A step of one thread, in the weights of the invariant.
module _ {ts : List Thread} {n : ℕ} {s : Shared} (v : Inv ts n s) (i : ℕ) (t b : Thread)
    (at_i : get_elem? s.threads i ≡ some t) where
  moved :
      (num : ℕ) (locked : Bool)
      → num + owed b ≡ s.num + owed t
      → taken locked + inside t ≡ taken s.locked + inside b
      → total (stale num) (set s.threads i b) ≡ 0
      → 1 + work b ≡ work t
      → Inv ts (n + 1) (record { num = num; locked = locked; threads = set s.threads i b })
  moved num locked o l c w = record {
    conserved = omega (arith, o, v.conserved, total-set owed s.threads i b at_i);
    exclusive = omega (arith, l, v.exclusive, total-set inside s.threads i b at_i);
    current = c;
    progress = omega (arith, w, v.progress, total-set work s.threads i b at_i);
  }

  -- The number stays, and the thread has no other value.
  same-current : stale s.num b ≡ 0 → total (stale s.num) (set s.threads i b) ≡ 0
  same-current h = omega (arith, h, v.current, total-set (stale s.num) s.threads i b at_i)

  -- The thread had the only value that was read.
  store-current :
      (x : ℕ)
      → has_value t.phase ≡ 1
      → has_value b.phase ≡ 0
      → total (stale x) (set s.threads i b) ≡ 0
  store-current x h k =
      let values = λ (u : Thread). has_value u.phase in
      omega (
        arith,
        h,
        k,
        total-set values s.threads i b at_i,
        total_mono (stale x) values (stale_bound x) (set s.threads i b),
        total_mono values inside value_bound s.threads,
        v.exclusive,
        lock_count s.locked,
      )

own : (x : ℕ) → has_other x (loaded x) ≡ 0
own x = ground arith

-- What the thread owes depends on its rounds with the current one.
owed_same : (t : Thread) (k : ℕ) → t.left + is_due t.phase ≡ k → owed t ≡ k * t.amount
owed_same t k e = ap (λ m. m * t.amount) e

same_value : (tem x : ℕ) → has_other x (loaded tem) ≡ 0 → tem ≡ x
same_value tem x h = ground arith

step-Inv : {ts : List Thread} {n : ℕ} {s u : Shared} → Inv ts n s → Step s u → Inv ts (n + 1) u
step-Inv {s = s} v (locks i n t at_i out left free) =
    let b = record t { left = n; phase = entered } in
    moved v i t b at_i s.num true
      (ap (λ k. s.num + k) (sym (owed_same t (n + 1) (omega (arith, left, ap is_due out)))))
      (omega (arith, ap is_inside out, ap taken free)) (same-current v i t b at_i refl)
      (omega (arith, left, ap steps_left out))
step-Inv {s = s} v (loads i t at_i in_) =
    let b = record t { phase = loaded s.num } in
    moved v i t b at_i s.num s.locked
      (ap (λ k. s.num + k) (sym (owed_same t (t.left + 1) (omega (arith, ap is_due in_)))))
      (omega (arith, ap is_inside in_)) (same-current v i t b at_i (own s.num))
      (omega (arith, ap steps_left in_))
step-Inv {s = s} v (stores i tem t at_i has) =
    let b = record t { phase = stored } in
    let fresh = same_value tem s.num (
      omega
        (arith, v.current, le-total (stale s.num) s.threads i at_i, ap (has_other s.num) has)) in
    moved v i t b at_i (tem + t.amount) s.locked
      (omega (
        arith,
        fresh,
        owed_same t (t.left + 1) (omega (arith, ap is_due has)),
        owed_same b t.left (omega arith),
        add-mul t.left 1 t.amount,
      ))
      (omega (arith, ap is_inside has))
      (store-current v i t b at_i (tem + t.amount) (ap has_value has) refl)
      (omega (arith, ap steps_left has))
step-Inv {s = s} v (unlocks i t at_i done) =
    let b = record t { phase = outside } in
    moved v i t b at_i s.num false
      (ap (λ k. s.num + k) (sym (owed_same t (t.left + 0) (omega (arith, ap is_due done)))))
      (omega (arith, ap is_inside done, held)) (same-current v i t b at_i refl)
      (omega (arith, ap steps_left done))
  where
    held : taken s.locked ≡ 1
    held = omega (
      arith,
      lock_count s.locked,
      v.exclusive,
      le-total inside s.threads i at_i,
      ap is_inside done,
    )

pub Reach-Inv :
    {ts : List Thread} {n : ℕ} {s : Shared} → AllOutside ts → Reach (start ts) n s → Inv ts n s
Reach-Inv {ts} h here = start-Inv ts h
Reach-Inv h (next r x) = step-Inv (Reach-Inv h r) x

-- However the threads take turns, from their start: never two of them hold the mutex, and what they
-- have added to the number is what they had to add, less what they still owe. No update is lost.
pub no_lost_update :
    (ts : List Thread) (n : ℕ) (s : Shared)
    → AllOutside ts
    → Reach (start ts) n s
    → (total inside s.threads ≤ 1) × (s.num + total owed s.threads ≡ total owed ts)
no_lost_update ts n s h r =
    let v = Reach-Inv h r in (omega (arith, v.exclusive, lock_count s.locked), v.conserved)
