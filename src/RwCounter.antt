-- ===== src/RwCounter.antt =====
-- lock/rwlock.cpp: threads that add to a shared number under a read-write lock, and threads that
-- print it. A step is one call on the lock, one access to the number, or one `printf`.
pub mod Replay
pub mod Locks
pub mod Lines
pub mod Holds
pub mod Turns
mod Tests
use codespaces_blank.Prelude.{
  ℕ, zero, suc, ◌+◌, ◌-◌, ◌≡◌, ◌==◌, if◌then◌else◌, List, [], ◌∷◌, ◌++◌, Option, none, some,
  get_elem?, set, replicate,
}

-- `rwlock`: free, held by one thread, or shared by `more` threads and one.
pub data RwLock : Type 0 where
  free exclusive : RwLock
  shared : (more : ℕ) → RwLock

-- The lock after `pthread_rwlock_wrlock` and `pthread_rwlock_rdlock`, none while they wait, and
-- after `pthread_rwlock_unlock`.
pub wrlock : RwLock → Option RwLock
wrlock free = some exclusive
wrlock exclusive = none
wrlock (shared n) = none

pub rdlock : RwLock → Option RwLock
rdlock free = some (shared 0)
rdlock exclusive = none
rdlock (shared n) = some (shared (n + 1))

pub unlock : RwLock → RwLock
unlock free = free
unlock exclusive = free
unlock (shared zero) = free
unlock (shared (suc n)) = shared n

-- Where a thread stands in its round: first those of `fwrite`, then those of `fread`.
pub data Thread : Type 0 where
  idle : Thread
  counted : (t : ℕ) → Thread  -- behind `t = count`
  writing : (t : ℕ) → Thread  -- with the lock
  increased : (t counter : ℕ) → Thread  -- behind `++count`, with its value
  wrote : Thread  -- behind `printf`
  resting : Thread
  reading : Thread  -- with the lock
  fetched : (counter : ℕ) → Thread  -- with the value of `count`
  showed : Thread  -- behind `printf`

-- What is printed, less the number and the id of the thread.
pub data Line : Type 0 where
  written : (t counter : ℕ) → Line
  shown : (counter : ℕ) → Line

-- `count` is below 2 ^ 31 - 1 as long as the program may run.
pub record Shared : Type 0 where
  pub count : ℕ
  pub rwlock : RwLock
  pub threads : List Thread
  pub lines : List Line

abbrev pub start : (writers readers : ℕ) → Shared
start writers readers = record {
  count = 0;
  rwlock = free;
  threads = replicate writers idle ++ replicate readers resting;
  lines = [];
}

pub data Step (s : Shared) : Shared → Type 0 where
  counts :
      (i : ℕ)
      → get_elem? s.threads i ≡ some idle
      → Step s (record s { threads = set s.threads i (counted s.count) })
  write_locks :
      (i t : ℕ) (l : RwLock)
      → get_elem? s.threads i ≡ some (counted t)
      → wrlock s.rwlock ≡ some l
      → Step s (record s { rwlock = l; threads = set s.threads i (writing t) })
  increases :
      (i t : ℕ)
      → get_elem? s.threads i ≡ some (writing t)
      → Step s
          (record s { count = s.count + 1; threads = set s.threads i (increased t (s.count + 1)) })
  writes :
      (i t c : ℕ)
      → get_elem? s.threads i ≡ some (increased t c)
      → Step s (record s { lines = s.lines ++ (written t c ∷ []); threads = set s.threads i wrote })
  write_unlocks :
      (i : ℕ)
      → get_elem? s.threads i ≡ some wrote
      → Step s (record s { rwlock = unlock s.rwlock; threads = set s.threads i idle })
  read_locks :
      (i : ℕ) (l : RwLock)
      → get_elem? s.threads i ≡ some resting
      → rdlock s.rwlock ≡ some l
      → Step s (record s { rwlock = l; threads = set s.threads i reading })
  fetches :
      (i : ℕ)
      → get_elem? s.threads i ≡ some reading
      → Step s (record s { threads = set s.threads i (fetched s.count) })
  shows :
      (i c : ℕ)
      → get_elem? s.threads i ≡ some (fetched c)
      → Step s (record s { lines = s.lines ++ (shown c ∷ []); threads = set s.threads i showed })
  read_unlocks :
      (i : ℕ)
      → get_elem? s.threads i ≡ some showed
      → Step s (record s { rwlock = unlock s.rwlock; threads = set s.threads i resting })

pub data Reach (s : Shared) : Shared → Type 0 where
  here : Reach s s
  next : {t u : Shared} → Reach s t → Step t u → Reach s u
