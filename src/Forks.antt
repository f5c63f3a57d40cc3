-- ===== src/Forks.antt =====
-- process_api/fork.cpp: a loop that forks, so that the child goes through what is left of the loop
-- too. Each process has its own copy of what the C library keeps of its output.
pub mod Halves
pub mod Family
mod Tests
use codespaces_blank.Prelude.{
  ℕ, ◌+◌, ◌≤◌, ◌<◌, ◌≡◌, Bool, if◌then◌else◌, List, [], ◌∷◌, ◌++◌, some, get_elem?, set,
}

-- What a process prints in round `i`, less the ids.
pub data Line : Type 0 where
  child parent : (i : ℕ) → Line

abbrev pub round : Line → ℕ
round (child i) = i
round (parent i) = i

-- A process at the head of its loop, behind `fork` with the line that it prints next, or at its end;
-- `kept` is printed and not yet written.
pub data Process : Type 0 where
  looping : (i : ℕ) (kept : List Line) → Process
  forked : (l : Line) (kept : List Line) → Process
  ended : Process

pub record System : Type 0 where
  pub processes : List Process
  pub written : List Line

abbrev pub start : System
start = record { processes = looping 0 [] ∷ []; written = [] }

-- `printf`: a terminal gets the line at once, a file when the process ends. The few lines of a
-- process fit what the C library keeps for it.
pub print : (terminal : Bool) → ℕ → Line → List Line → System → System
print terminal j l kept s =
    if terminal
    then record {
      processes = set s.processes j (looping (round l + 1) kept);
      written = s.written ++ (l ∷ []);
    }
    else record s { processes = set s.processes j (looping (round l + 1) (kept ++ (l ∷ []))) }

-- A loop of `rounds` rounds; the code has 2. `fork` is taken to succeed.
pub data Step (rounds : ℕ) (terminal : Bool) (s : System) : System → Type 0 where
  forks :
      (j i : ℕ) (kept : List Line)
      → get_elem? s.processes j ≡ some (looping i kept)
      → i < rounds
      → Step rounds terminal s (record s {
        processes = set s.processes j (forked (parent i) kept) ++ (forked (child i) kept ∷ []);
      })
  prints :
      (j : ℕ) (l : Line) (kept : List Line)
      → get_elem? s.processes j ≡ some (forked l kept)
      → Step rounds terminal s (print terminal j l kept s)
  returns :
      (j i : ℕ) (kept : List Line)
      → get_elem? s.processes j ≡ some (looping i kept)
      → rounds ≤ i
      → Step rounds terminal s
          (record { processes = set s.processes j ended; written = s.written ++ kept })

-- The states after a number of steps.
pub data Reach (rounds : ℕ) (terminal : Bool) (s : System) : ℕ → System → Type 0 where
  here : Reach rounds terminal s 0 s
  next :
      {n : ℕ} {t u : System}
      → Reach rounds terminal s n t
      → Step rounds terminal t u
      → Reach rounds terminal s (n + 1) u
