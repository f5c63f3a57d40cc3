-- ===== src/SharedCounter/Tests.antt =====
-- Runs of the threads of lock/mutex.cpp and lock/mutexattr.cpp.
use codespaces_blank.Prelude.{◌+◌, ◌≡◌, ◌≤◌, ◌⊎◌, refl, true, [], ◌∷◌, total}
use codespaces_blank.SharedCounter.{
  outside, entered, Shared, mutex, mutexattr, start, Step, locks, Reach, here, next,
}
use codespaces_blank.SharedCounter.Invariant.{inside, owed, work}
use codespaces_blank.SharedCounter.Exact.{counting_is_exact}

-- The parent of lock/mutexattr.cpp has the mutex.
abbrev parent_holds : Shared
parent_holds = record {
  num = 0;
  locked = true;
  threads =
      record { amount = 1; left = 10; phase = outside }
      ∷ record { amount = 2; left = 9; phase = entered }
      ∷ [];
}

Reach-parent : Reach (start mutexattr) 1 parent_holds
Reach-parent = next here (locks 1 9 _ refl refl refl refl)

-- Two threads of 1000 rounds take 8000 steps.
work_lem : total work mutex ≡ 8000
work_lem = refl

owed_lem : total owed mutex ≡ 2000
owed_lem = refl

counting_is_exact_example :
    (total inside parent_holds.threads ≤ 1)
    × (0 + total owed parent_holds.threads ≡ total owed mutexattr)
    × (1 ≤ total work mutexattr)
    × (((1 ≡ total work mutexattr) × (0 ≡ total owed mutexattr))
        ⊎ ((u : Shared) × Step parent_holds u))
counting_is_exact_example =
    counting_is_exact mutexattr 1 parent_holds (refl, (refl, tt)) Reach-parent
