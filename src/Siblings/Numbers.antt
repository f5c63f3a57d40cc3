-- ===== src/Siblings/Numbers.antt =====
-- Who comes of the loops of process_api/subprocess.cpp and process_api/execl.cpp.
use codespaces_blank.Prelude.{
  ℕ, zero, suc, ◌+◌, ◌<◌, ◌≡◌, Bool, true, ◌&&◌, if◌then◌else◌, ◌==◌, arith, total,
}
use codespaces_blank.Siblings.{
  positive, Outcome, exits, leaves, subprocess_loop, Line, i_am_child, i_am_parent, says,
  execl_loop, Program, firefox, touch, ls, Behaviour, pauses, executes, behind_loop,
}

-- Whether all of the `n` calls of `fork` from round `i` succeed.
abbrev pub all_fork : (ℕ → Bool) → (i n : ℕ) → Bool
all_fork forks i zero = true
all_fork forks i (suc n) = forks i && all_fork forks (i + 1) n

-- Whether the process says in the end that it is child `number`, or that it is the parent.
abbrev pub is_child : (number : ℕ) → Line → ℕ
is_child number (i_am_child a) = if a == number then 1 else 0
is_child number i_am_parent = 0

abbrev pub is_parent : Line → ℕ
is_parent i_am_parent = 1
is_parent _ = 0

abbrev pub prints : (rounds : ℕ) → (Line → ℕ) → Outcome → ℕ
prints rounds w exits = 0
prints rounds w (leaves p) = w (says rounds p)

abbrev pub fails : Outcome → ℕ
fails exits = 1
fails _ = 0

module _ (forks : ℕ → Bool) (rounds : ℕ) where
  -- Later rounds make later children.
  earlier :
      (j n i : ℕ) → j < i → total (prints rounds (is_child (j + 1))) (subprocess_loop forks n i) ≡ 0
  unfolding subprocess_loop says
  earlier j zero i h = ground arith
  earlier j (suc n) i h = ground (arith, earlier j n (i + 1) (omega arith))

  child-once :
      (k n i j : ℕ)
      → i + n ≡ rounds
      → k < n
      → j ≡ i + k
      → total (prints rounds (is_child (j + 1))) (subprocess_loop forks n i)
        ≡ (if all_fork forks i (suc k) then 1 else 0)
  unfolding subprocess_loop says
  child-once k zero i j e h q = absurd (omega arith)
  child-once zero (suc n) i j e h q = ground (arith, earlier j n (i + 1) (omega arith))
  child-once (suc k) (suc n) i j e h q =
      ground (arith, child-once k n (i + 1) j (omega arith) (omega arith) (omega arith))

  parent-once :
      (n i : ℕ)
      → i + n ≡ rounds
      → (total (prints rounds is_parent) (subprocess_loop forks n i)
          ≡ (if all_fork forks i n then 1 else 0))
        × (total fails (subprocess_loop forks n i) ≡ (if all_fork forks i n then 0 else 1))
  unfolding subprocess_loop says
  parent-once zero i e = ground arith
  parent-once (suc n) i e = ground (arith, parent-once n (i + 1) (omega arith))

-- Whether a process does that behind the loop.
abbrev pub runs : Program → Behaviour → ℕ
runs firefox (executes firefox) = 1
runs touch (executes touch) = 1
runs ls (executes ls) = 1
runs _ _ = 0

abbrev pub is_pause : Behaviour → ℕ
is_pause pauses = 1
is_pause _ = 0

-- In which round its child is made.
abbrev pub round : Program → ℕ
round firefox = 0
round touch = 1
round ls = 2

execl-once :
    (forks : ℕ → Bool) (p : Program)
    → (total (λ q. runs p (behind_loop q)) (execl_loop forks 3 0 positive)
        ≡ (if forks (round p) then 1 else 0))
      × (total (λ q. is_pause (behind_loop q)) (execl_loop forks 3 0 positive)
          ≡ (if forks 2 then 1 else 0))
unfolding execl_loop behind_loop
execl-once forks firefox = ground arith
execl-once forks touch = ground arith
execl-once forks ls = ground arith

-- Whichever calls of `fork` succeed. In process_api/subprocess.cpp, for `n` rounds, there is one
-- process that says it is child `k + 1` if the calls up to that round succeed, and else none; and
-- there is one that says it is the parent if all calls succeed, and else one that exits instead. In
-- process_api/execl.cpp one process runs each program if the call of its own round succeeds, and
-- else none; and one pauses if the last call succeeds, and else none does.
pub each_role_once :
    (forks : ℕ → Bool) (n k : ℕ) (p : Program)
    → k < n
    → (total (prints n (is_child (k + 1))) (subprocess_loop forks n 0)
        ≡ (if all_fork forks 0 (suc k) then 1 else 0))
      × (total (prints n is_parent) (subprocess_loop forks n 0)
          ≡ (if all_fork forks 0 n then 1 else 0))
      × (total fails (subprocess_loop forks n 0) ≡ (if all_fork forks 0 n then 0 else 1))
      × (total (λ q. runs p (behind_loop q)) (execl_loop forks 3 0 positive)
          ≡ (if forks (round p) then 1 else 0))
      × (total (λ q. is_pause (behind_loop q)) (execl_loop forks 3 0 positive)
          ≡ (if forks 2 then 1 else 0))
each_role_once forks n k p h =
    let (parent, failure) = parent-once forks n n 0 (omega arith) in
    let (program, pause) = execl-once forks p in
    (child-once forks n k n 0 k (omega arith) h (omega arith), parent, failure, program, pause)
