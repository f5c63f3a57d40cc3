-- ===== src/RwCounter/Tests.antt =====
-- A writer and a reader of lock/rwlock.cpp, one after the other.
use codespaces_blank.Prelude.{ℕ, ◌+◌, ◌≤◌, ◌≡◌, refl, ◌⊎◌, [], ◌∷◌, some, total}
use codespaces_blank.RwCounter.{
  shared, wrlock, rdlock, unlock, idle, showed, written, shown, Shared, start, counts, write_locks,
  increases, writes, write_unlocks, read_locks, fetches, shows, Reach, here, next,
}
use codespaces_blank.RwCounter.Replay.{replay}
use codespaces_blank.RwCounter.Locks.{is_writer, is_reader, is_unprinted}
use codespaces_blank.RwCounter.Lines.{lines_count_up}
use codespaces_blank.RwCounter.Turns.{Printed, every_thread_prints}

abbrev both : Shared
both = record {
  count = 1;
  rwlock = shared 0;
  threads = idle ∷ showed ∷ [];
  lines = written 0 1 ∷ shown 1 ∷ [];
}

Reach-both : Reach (start 1 1) both
unfolding wrlock rdlock unlock
Reach-both =
    next
      (next
        (next
          (next
            (next
              (next (next (next here (counts 0 refl)) (write_locks 0 0 _ refl refl))
                (increases 0 0 refl))
              (writes 0 0 1 refl))
            (write_unlocks 0 refl))
          (read_locks 1 _ refl refl))
        (fetches 1 refl))
      (shows 1 1 refl)

lines_count_up_example :
    (total is_writer both.threads ≤ 1)
    × ((total is_writer both.threads ≡ 0) ⊎ (total is_reader both.threads ≡ 0))
    × ((n : ℕ) × (replay 0 both.lines ≡ some n)
        × (n + total is_unprinted both.threads ≡ both.count))
lines_count_up_example = lines_count_up 1 1 Reach-both

every_thread_prints_example : (t : Shared) × Printed both 0 t
every_thread_prints_example = every_thread_prints 1 1 0 Reach-both refl
