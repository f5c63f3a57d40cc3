-- ===== src/RwCounter/Locks.antt =====
-- The threads of lock/rwlock.cpp against their lock and the shared number.
use codespaces_blank.Prelude.{
  ℕ, zero, suc, ◌+◌, ◌-◌, ◌≤◌, ◌≡◌, refl, ◌∙◌, inl, inr, ◌⊎◌, ◌&&◌, ◌==◌, ltb, if◌then◌else◌, List,
  [], ◌∷◌, ◌++◌, some, arith, get_elem?, set, total, total-set, total_mono, le-total, total-plus,
}
use codespaces_blank.RwCounter.{
  RwLock, free, exclusive, shared, wrlock, rdlock, unlock, Thread, idle, counted, writing,
  increased, wrote, resting, reading, fetched, showed, Line, Shared,
}
use codespaces_blank.RwCounter.Replay.{replay, replay-append}

-- Whether a thread holds the lock, for writing or for reading.
abbrev pub is_writer : Thread → ℕ
is_writer (writing t) = 1
is_writer (increased t c) = 1
is_writer wrote = 1
is_writer _ = 0

abbrev pub is_reader : Thread → ℕ
is_reader reading = 1
is_reader (fetched c) = 1
is_reader showed = 1
is_reader _ = 0

abbrev pub by_writer : RwLock → ℕ
by_writer exclusive = 1
by_writer _ = 0

abbrev pub by_readers : RwLock → ℕ
by_readers (shared n) = n + 1
by_readers _ = 0

-- Whether a thread has increased the number and not yet printed it.
abbrev pub is_unprinted : Thread → ℕ
is_unprinted (increased t c) = 1
is_unprinted _ = 0

-- Whether a thread has the lock for writing and has not increased the number.
abbrev pub before : Thread → ℕ
before (writing t) = 1
before _ = 0

-- Whether a thread has a value that does not fit the number `x`.
abbrev pub wrong : ℕ → Thread → ℕ
wrong x (counted t) = if ltb t (x + 1) then 0 else 1
wrong x (writing t) = if ltb t (x + 1) then 0 else 1
wrong x (increased t c) = if (c == x) && ltb t c then 0 else 1
wrong x (fetched c) = if c == x then 0 else 1
wrong x _ = 0

pub record Inv (s : Shared) : Type 0 where
  pub by_one : total is_writer s.threads ≡ by_writer s.rwlock
  pub by_some : total is_reader s.threads ≡ by_readers s.rwlock
  pub current : total (wrong s.count) s.threads ≡ 0
  pub replayed :
      (n : ℕ) × (replay 0 s.lines ≡ some n) × (n + total is_unprinted s.threads ≡ s.count)

-- The lock, where it is given and where it is taken back.
pub wrlock_lem :
    (l : RwLock) {k : RwLock}
    → wrlock l ≡ some k
    → (by_writer l ≡ 0) × (by_readers l ≡ 0) × (by_writer k ≡ 1) × (by_readers k ≡ 0)
unfolding wrlock
wrlock_lem free e = ground arith
wrlock_lem exclusive e = absurd cc
wrlock_lem (shared n) e = absurd cc

pub rdlock_lem :
    (l : RwLock) {k : RwLock}
    → rdlock l ≡ some k
    → (by_writer l ≡ 0) × (by_writer k ≡ 0) × (by_readers k ≡ by_readers l + 1)
unfolding rdlock
rdlock_lem free e = ground arith
rdlock_lem exclusive e = absurd cc
rdlock_lem (shared n) e = ground arith

pub unlock_lem :
    (l : RwLock) → (by_writer (unlock l) ≡ 0) × (by_readers (unlock l) ≡ by_readers l - 1)
unfolding unlock
unlock_lem free = ground arith
unlock_lem exclusive = ground arith
unlock_lem (shared zero) = ground arith
unlock_lem (shared (suc n)) = (refl, omega arith)

pub apart : (l : RwLock) → (by_writer l ≡ 0) ⊎ ((by_writer l ≡ 1) × (by_readers l ≡ 0))
apart free = inl refl
apart exclusive = inr (refl, refl)
apart (shared n) = inl refl

pub wrong_next : (x : ℕ) (u : Thread) → wrong (x + 1) u ≤ wrong x u + (is_reader u + is_unprinted u)
wrong_next x (counted t) = ground arith
wrong_next x (writing t) = ground arith
wrong_next x (increased t c) = ground arith
wrong_next x (fetched c) = ground arith
wrong_next x idle = omega arith
wrong_next x wrote = omega arith
wrong_next x resting = omega arith
wrong_next x reading = omega arith
wrong_next x showed = omega arith

writer_bound : (u : Thread) → before u + is_unprinted u ≤ is_writer u
writer_bound u = ground arith

-- A step of one thread, in the weights of the invariant.
module _ {s : Shared} (v : Inv s) (i : ℕ) (a b : Thread)
    (at_i : get_elem? s.threads i ≡ some a) where
  -- The number stays.
  pub moved :
      (l : RwLock)
      → by_writer l + is_writer a ≡ by_writer s.rwlock + is_writer b
      → by_readers l + is_reader a ≡ by_readers s.rwlock + is_reader b
      → (wrong s.count a ≡ 0 → wrong s.count b ≡ 0)
      → is_unprinted a ≡ is_unprinted b
      → Inv (record s { rwlock = l; threads = set s.threads i b })
  moved l w r c u = record {
    by_one = omega (arith, w, v.by_one, total-set is_writer s.threads i b at_i);
    by_some = omega (arith, r, v.by_some, total-set is_reader s.threads i b at_i);
    current = omega (arith, c fits, v.current, total-set (wrong s.count) s.threads i b at_i);
    replayed = (
      v.replayed.0,
      v.replayed.1,
      omega (arith, u, v.replayed.2, total-set is_unprinted s.threads i b at_i),
    );
  }
    where
      fits : wrong s.count a ≡ 0
      fits = omega (arith, v.current, le-total (wrong s.count) s.threads i at_i)

  -- A line is printed that an observer of the lines before expects.
  pub printed :
      (l : Line) (m : ℕ)
      → replay v.replayed.0 (l ∷ []) ≡ some m
      → m + is_unprinted b ≡ v.replayed.0 + is_unprinted a
      → is_writer a ≡ is_writer b
      → is_reader a ≡ is_reader b
      → wrong s.count b ≡ 0
      → Inv (record s { lines = s.lines ++ (l ∷ []); threads = set s.threads i b })
  printed l m e u w r c = record {
    by_one = omega (arith, w, v.by_one, total-set is_writer s.threads i b at_i);
    by_some = omega (arith, r, v.by_some, total-set is_reader s.threads i b at_i);
    current = omega (arith, c, v.current, total-set (wrong s.count) s.threads i b at_i);
    replayed = (
      m,
      replay-append 0 s.lines l v.replayed.1 ∙ e,
      omega (arith, u, v.replayed.2, total-set is_unprinted s.threads i b at_i),
    );
  }

pub unprinted-le : (ts : List Thread) → total before ts + total is_unprinted ts ≤ total is_writer ts
unprinted-le ts = omega (
  arith,
  total-plus before is_unprinted ts,
  total_mono (λ u. before u + is_unprinted u) is_writer writer_bound ts,
)

-- A thread that holds the lock for reading keeps the writers out; one that holds it for writing
-- keeps out all others.
pub while_reading :
    {s : Shared} (i : ℕ) {a : Thread}
    → Inv s
    → get_elem? s.threads i ≡ some a
    → is_reader a ≡ 1
    → total is_writer s.threads ≡ 0
while_reading {s} i v e h =
    omega (arith, h, v.by_one, v.by_some, apart s.rwlock, le-total is_reader s.threads i e)

pub while_writing :
    {s : Shared} (i : ℕ) {a : Thread}
    → Inv s
    → get_elem? s.threads i ≡ some a
    → is_writer a ≡ 1
    → (total is_writer s.threads ≡ 1) × (total is_reader s.threads ≡ 0)
while_writing {s} i v e h =
    omega (arith, h, v.by_one, v.by_some, apart s.rwlock, le-total is_writer s.threads i e)

pub fits :
    {s : Shared} (i : ℕ) {a : Thread} → Inv s → get_elem? s.threads i ≡ some a → wrong s.count a ≡ 0
fits {s} i v e = omega (arith, v.current, le-total (wrong s.count) s.threads i e)
