-- ===== src/RwCounter/Lines.antt =====
-- What the threads of lock/rwlock.cpp print.
use codespaces_blank.Prelude.{
  ℕ, ◌+◌, ◌*◌, replicate, ◌≤◌, ◌≡◌, refl, ap, ◌∙◌, inl, inr, ◌⊎◌, [], ◌∷◌, ◌++◌, some, arith,
  get_elem?, set, total, total-set, total_mono, le-total, total-plus, total-append, total-replicate,
}
use native.Mathlib.Nat.{mul-zero}
use codespaces_blank.RwCounter.{
  unlock, Thread, idle, counted, writing, increased, wrote, resting, reading, fetched, showed,
  written, shown, Shared, start, Step, counts, write_locks, increases, writes, write_unlocks,
  read_locks, fetches, shows, read_unlocks, Reach, here, next,
}
use codespaces_blank.RwCounter.Replay.{replay}
use codespaces_blank.RwCounter.Locks.{
  is_writer, is_reader, by_writer, by_readers, is_unprinted, before, wrong, Inv, moved, printed,
  wrong_next, unprinted-le, while_reading, while_writing, fits, wrlock_lem, rdlock_lem, unlock_lem,
  apart,
}

increases-Inv :
    {s : Shared} (i t : ℕ)
    → Inv s
    → get_elem? s.threads i ≡ some (writing t)
    → Inv (record s { count = s.count + 1; threads = set s.threads i (increased t (s.count + 1)) })
increases-Inv {s} i t v e =
    let b = increased t (s.count + 1) in
    let alone = while_writing i v e refl in
    let slack = λ (u : Thread). is_reader u + is_unprinted u in
    let none_printing : total is_unprinted s.threads ≡ 0 =
      omega (arith, alone, unprinted-le s.threads, le-total before s.threads i e) in
    record {
      by_one = omega (arith, v.by_one, total-set is_writer s.threads i b e);
      by_some = omega (arith, v.by_some, total-set is_reader s.threads i b e);
      current = omega (
        arith,
        own_increase (fits i v e),
        v.current,
        none_printing,
        alone,
        total-set (wrong (s.count + 1)) s.threads i b e,
        total_mono (wrong (s.count + 1)) (λ u. wrong s.count u + slack u) (wrong_next s.count)
            s.threads,
        total-plus (wrong s.count) slack s.threads,
        total-plus is_reader is_unprinted s.threads,
      );
      replayed = (
        v.replayed.0,
        v.replayed.1,
        omega (arith, v.replayed.2, total-set is_unprinted s.threads i b e),
      );
    }
  where
    own_increase :
        wrong s.count (writing t) ≡ 0 → wrong (s.count + 1) (increased t (s.count + 1)) ≡ 0
    own_increase h = ground arith

writes-Inv :
    {s : Shared} (i t c : ℕ)
    → Inv s
    → get_elem? s.threads i ≡ some (increased t c)
    → Inv (record s { lines = s.lines ++ (written t c ∷ []); threads = set s.threads i wrote })
writes-Inv {s} i t c v e =
    let (line, now) = expected v.replayed.0 (fits i v e) last in
    printed v i (increased t c) wrote e (written t c) c line (omega (arith, last, now)) refl refl
      refl
  where
    last : v.replayed.0 + 1 ≡ s.count
    last = omega (
      arith,
      v.replayed.2,
      while_writing i v e refl,
      unprinted-le s.threads,
      le-total is_unprinted s.threads i e,
    )

    expected :
        (n : ℕ)
        → wrong s.count (increased t c) ≡ 0
        → n + 1 ≡ s.count
        → (replay n (written t c ∷ []) ≡ some c) × (c ≡ s.count)
    expected n h k = ground arith

shows-Inv :
    {s : Shared} (i c : ℕ)
    → Inv s
    → get_elem? s.threads i ≡ some (fetched c)
    → Inv (record s { lines = s.lines ++ (shown c ∷ []); threads = set s.threads i showed })
shows-Inv {s} i c v e =
    printed v i (fetched c) showed e (shown c) v.replayed.0
      (expected v.replayed.0 (fits i v e)
        (omega (arith, v.replayed.2, while_reading i v e refl, unprinted-le s.threads)))
      refl refl refl refl
  where
    expected :
        (n : ℕ) → wrong s.count (fetched c) ≡ 0 → n ≡ s.count → replay n (shown c ∷ []) ≡ some n
    expected n h k = ground arith

pub step-Inv : {s u : Shared} → Inv s → Step s u → Inv u
step-Inv {s} v (counts i e) =
    moved v i idle (counted s.count) e s.rwlock refl refl (λ h. ground arith) refl
step-Inv {s} v (write_locks i t l e k) =
    moved v i (counted t) (writing t) e l (omega (arith, wrlock_lem s.rwlock k))
      (omega (arith, wrlock_lem s.rwlock k)) (λ h. h) refl
step-Inv {s} v (increases i t e) = increases-Inv i t v e
step-Inv {s} v (writes i t c e) = writes-Inv i t c v e
step-Inv {s} v (write_unlocks i e) =
    moved v i wrote idle e (unlock s.rwlock)
      (omega (arith, unlock_lem s.rwlock, v.by_one, while_writing i v e refl))
      (omega (arith, unlock_lem s.rwlock, v.by_some, while_writing i v e refl)) (λ h. h) refl
step-Inv {s} v (read_locks i l e k) =
    moved v i resting reading e l (omega (arith, rdlock_lem s.rwlock k))
      (omega (arith, rdlock_lem s.rwlock k)) (λ h. h) refl
step-Inv {s} v (fetches i e) =
    moved v i reading (fetched s.count) e s.rwlock refl refl (λ h. ground arith) refl
step-Inv {s} v (shows i c e) = shows-Inv i c v e
step-Inv {s} v (read_unlocks i e) =
    moved v i showed resting e (unlock s.rwlock)
      (omega (arith, unlock_lem s.rwlock, v.by_one, while_reading i v e refl))
      (omega (arith, unlock_lem s.rwlock, v.by_some, le-total is_reader s.threads i e)) (λ h. h)
      refl

start-Inv : (w r : ℕ) → Inv (start w r)
start-Inv w r = record {
  by_one = none is_writer refl refl;
  by_some = none is_reader refl refl;
  current = none (wrong 0) refl refl;
  replayed = (0, refl, omega (arith, none is_unprinted refl refl));
}
  where
    none : (f : Thread → ℕ) → f idle ≡ 0 → f resting ≡ 0 → total f (start w r).threads ≡ 0
    none f h k = omega (
      arith,
      total-append f (replicate w idle) (replicate r resting),
      ap (λ n. w * n) h ∙ mul-zero w,
      ap (λ n. r * n) k ∙ mul-zero r,
      total-replicate f w idle,
      total-replicate f r resting,
    )

pub Reach-Inv : (w r : ℕ) {s : Shared} → Reach (start w r) s → Inv s
Reach-Inv w r here = start-Inv w r
Reach-Inv w r (next x st) = step-Inv (Reach-Inv w r x) st

-- However the writers and the readers take turns, from their start: at most one writer holds the
-- lock, and none beside a reader; and the printed lines count up. Each line of a writer shows as its
-- counter the number of the writers' lines up to it, and as the old one a number below that; each
-- line of a reader shows the number of the writers' lines before it. The number itself is the
-- count of these lines, and one more while a writer has increased it and not printed.
pub lines_count_up :
    (w r : ℕ) {s : Shared}
    → Reach (start w r) s
    → (total is_writer s.threads ≤ 1)
      × ((total is_writer s.threads ≡ 0) ⊎ (total is_reader s.threads ≡ 0))
      × ((n : ℕ) × (replay 0 s.lines ≡ some n) × (n + total is_unprinted s.threads ≡ s.count))
lines_count_up w r {s} x =
    let v = Reach-Inv w r x in
    (omega (arith, v.by_one, apart s.rwlock), alone (apart s.rwlock) v, v.replayed)
  where
    alone :
        (by_writer s.rwlock ≡ 0) ⊎ ((by_writer s.rwlock ≡ 1) × (by_readers s.rwlock ≡ 0))
        → Inv s
        → (total is_writer s.threads ≡ 0) ⊎ (total is_reader s.threads ≡ 0)
    alone (inl a) v = inl (v.by_one ∙ a)
    alone (inr a) v = inr (v.by_some ∙ a.1)
