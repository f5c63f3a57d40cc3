-- ===== src/SharedCounter.antt =====
-- lock/mutex.cpp and lock/mutexattr.cpp: threads, or a process and its child, that add to a shared
-- number under a mutex. A step is one call on the mutex, or one access to the number.
pub mod Invariant
pub mod Exact
mod Tests
use codespaces_blank.Prelude.{
  ℕ, zero, suc, ◌+◌, ◌≡◌, Bool, true, false, List, [], ◌∷◌, some, get_elem?, set,
}

-- Where a thread stands in its round: outside the mutex; behind its lock; with the number read; or
-- with the number written.
pub data Phase : Type 0 where
  outside entered : Phase
  loaded : (tem : ℕ) → Phase
  stored : Phase

-- A thread that adds `amount` in each round, with the rounds that are left after the current one.
pub record Thread : Type 0 where
  pub amount : ℕ
  pub left : ℕ
  pub phase : Phase

-- `num` is the shared number, `tickNum` in lock/mutexattr.cpp.
pub record Shared : Type 0 where
  pub num : ℕ
  pub locked : Bool
  pub threads : List Thread

-- A thread before its first round.
abbrev pub adding : (amount rounds : ℕ) → Thread
adding amount rounds = record { amount = amount; left = rounds; phase = outside }

abbrev pub start : List Thread → Shared
start ts = record { num = 0; locked = false; threads = ts }

-- `main` of lock/mutex.cpp: two threads run `fun`.
abbrev pub mutex : List Thread
mutex = adding 1 1000 ∷ adding 1 1000 ∷ []

-- The loops of lock/mutexattr.cpp in the child and in the parent; what follows them, where both destroy the
-- mutex, is not modelled. The mapping is filled with zeros.
abbrev pub mutexattr : List Thread
mutexattr = adding 1 10 ∷ adding 2 10 ∷ []

abbrev pub move : ℕ → Thread → Phase → List Thread → List Thread
move i t p ts = set ts i (record t { phase = p })

pub data Step (s : Shared) : Shared → Type 0 where
  locks :
      (i n : ℕ) (t : Thread)
      → get_elem? s.threads i ≡ some t
      → t.phase ≡ outside
      → t.left ≡ suc n
      → s.locked ≡ false
      → Step s (record s {
        locked = true;
        threads = set s.threads i (record t { left = n; phase = entered });
      })
  loads :
      (i : ℕ) (t : Thread)
      → get_elem? s.threads i ≡ some t
      → t.phase ≡ entered
      → Step s (record s { threads = move i t (loaded s.num) s.threads })
  stores :
      (i tem : ℕ) (t : Thread)
      → get_elem? s.threads i ≡ some t
      → t.phase ≡ loaded tem
      → Step s (record s { num = tem + t.amount; threads = move i t stored s.threads })
  unlocks :
      (i : ℕ) (t : Thread)
      → get_elem? s.threads i ≡ some t
      → t.phase ≡ stored
      → Step s (record s { locked = false; threads = move i t outside s.threads })

-- The states after a number of steps.
pub data Reach (s : Shared) : ℕ → Shared → Type 0 where
  here : Reach s 0 s
  next : {n : ℕ} {t u : Shared} → Reach s n t → Step t u → Reach s (n + 1) u
