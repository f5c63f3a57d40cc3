-- ===== src/RwCounter/Turns.antt =====
-- No thread of lock/rwlock.cpp is shut out for ever.
use codespaces_blank.Prelude.{
  ℕ, ◌+◌, ◌≤◌, ◌≡◌, refl, ap, List, [], ◌∷◌, ◌++◌, some, arith, get_elem?, set, total, total-plus,
  total_mono, le-total, get_elem?-set_self,
}
use codespaces_blank.RwCounter.{
  RwLock, free, exclusive, shared, wrlock, rdlock, Thread, idle, counted, writing, increased, wrote,
  resting, reading, fetched, showed, written, shown, Shared, start, Step, counts, write_locks,
  increases, writes, read_locks, fetches, shows, Reach, here, next,
}
use codespaces_blank.RwCounter.Locks.{is_writer, is_reader, by_writer, by_readers, Inv}
use codespaces_blank.RwCounter.Lines.{Reach-Inv}
use codespaces_blank.RwCounter.Holds.{to_unlock, clear, Reach-trans}

-- Where nobody holds the lock it is free.
free_lem : (l : RwLock) → by_writer l ≡ 0 → by_readers l ≡ 0 → l ≡ free
free_lem free w r = refl
free_lem exclusive w r = absurd (omega arith)
free_lem (shared n) w r = absurd (omega arith)

holds-le : (ts : List Thread) → total (λ w. is_writer w + is_reader w) ts ≤ total to_unlock ts
holds-le = total_mono (λ w. is_writer w + is_reader w) to_unlock (λ w. ground arith)

Inv-free : (s : Shared) → Inv s → total to_unlock s.threads ≡ 0 → s.rwlock ≡ free
Inv-free s v h =
    free_lem s.rwlock (omega (arith, nobody, v.by_one)) (omega (arith, nobody, v.by_some))
  where
    nobody : total is_writer s.threads + total is_reader s.threads ≡ 0
    nobody = omega (arith, h, holds-le s.threads, total-plus is_writer is_reader s.threads)

-- A `printf` of thread `i` itself.
pub data Prints (i : ℕ) (s : Shared) : Shared → Type 0 where
  written_by :
      (t c : ℕ)
      → get_elem? s.threads i ≡ some (increased t c)
      → Prints i s
          (record s { lines = s.lines ++ (written t c ∷ []); threads = set s.threads i wrote })
  shown_by :
      (c : ℕ)
      → get_elem? s.threads i ≡ some (fetched c)
      → Prints i s
          (record s { lines = s.lines ++ (shown c ∷ []); threads = set s.threads i showed })

-- Thread `i` prints in the last step.
pub record Printed (s : Shared) (i : ℕ) (t : Shared) : Type 0 where
  pub before : Shared
  pub reach : Reach s before
  pub prints : Step before t
  pub own : Prints i before t

counted_prints :
    (s : Shared) (i n : ℕ)
    → get_elem? s.threads i ≡ some (counted n)
    → s.rwlock ≡ free
    → (t : Shared) × Printed s i t
unfolding wrlock
counted_prints s i n e f =
    let ts = set s.threads i (writing n) in
    let us = set ts i (increased n (s.count + 1)) in
    let at_ts = get_elem?-set_self s.threads i (writing n) e in
    let at_us = get_elem?-set_self ts i (increased n (s.count + 1)) at_ts in
    (
      _,
      record {
        before = _;
        reach = next (next here (write_locks i n exclusive e (ap wrlock f))) (increases i n at_ts);
        prints = writes i n (s.count + 1) at_us;
        own = written_by n (s.count + 1) at_us;
      },
    )

resting_prints :
    (s : Shared) (i : ℕ)
    → get_elem? s.threads i ≡ some resting
    → s.rwlock ≡ free
    → (t : Shared) × Printed s i t
unfolding rdlock
resting_prints s i e f =
    let ts = set s.threads i reading in
    let us = set ts i (fetched s.count) in
    let at_ts = get_elem?-set_self s.threads i reading e in
    let at_us = get_elem?-set_self ts i (fetched s.count) at_ts in
    (
      _,
      record {
        before = _;
        reach = next (next here (read_locks i (shared 0) e (ap rdlock f))) (fetches i at_ts);
        prints = shows i s.count at_us;
        own = shown_by s.count at_us;
      },
    )

prints_next :
    (s : Shared) (i : ℕ) (w : Thread)
    → get_elem? s.threads i ≡ some w
    → s.rwlock ≡ free
    → to_unlock w ≡ 0
    → (t : Shared) × Printed s i t
prints_next s i idle e f h =
    let u : Shared = record s { threads = set s.threads i (counted s.count) } in
    let (t, p) = counted_prints u i s.count (get_elem?-set_self s.threads i _ e) f in
    (
      t,
      record {
        before = p.before;
        reach = Reach-trans (next here (counts i e)) p.reach;
        prints = p.prints;
        own = p.own;
      },
    )
prints_next s i (counted n) e f h = counted_prints s i n e f
prints_next s i resting e f h = resting_prints s i e f
prints_next s i (writing t) e f h = absurd (omega arith)
prints_next s i (increased t c) e f h = absurd (omega arith)
prints_next s i wrote e f h = absurd (omega arith)
prints_next s i reading e f h = absurd (omega arith)
prints_next s i (fetched c) e f h = absurd (omega arith)
prints_next s i showed e f h = absurd (omega arith)

-- No thread is shut out: from every state that the writers and the readers can reach, and for each
-- thread, whatever it and the others are about, some steps lead to one in which the thread itself
-- prints a line.
pub every_thread_prints :
    (w r i : ℕ) {s : Shared} {p : Thread}
    → Reach (start w r) s
    → get_elem? s.threads i ≡ some p
    → (t : Shared) × Printed s i t
every_thread_prints w r i {s} {p} x e =
    let c = clear (total to_unlock s.threads) s i p (Reach-Inv w r x) e (omega arith) in
    let (t, q) =
      prints_next c.then i c.place c.there (Inv-free c.then c.inv c.nobody)
        (omega (arith, c.nobody, le-total to_unlock c.then.threads i c.there)) in
    (
      t,
      record {
        before = q.before;
        reach = Reach-trans c.reach q.reach;
        prints = q.prints;
        own = q.own;
      },
    )
