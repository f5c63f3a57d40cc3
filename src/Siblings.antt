-- ===== src/Siblings.antt =====
-- process_api/subprocess.cpp and process_api/execl.cpp: loops in which the parent alone forks, as a
-- child leaves the loop.
pub mod Numbers
mod Tests
use codespaces_blank.Prelude.{ℕ, zero, suc, ◌+◌, Bool, List, [], ◌∷◌, if◌then◌else◌, ltb, ◌==◌}

-- The last result of `fork`: -1, 0, or the id of a child.
pub data Pid : Type 0 where
  failed zero_ positive : Pid

-- A process behind the loop.
pub record Process : Type 0 where
  pub pid : Pid
  pub i : ℕ

-- What a process comes to: the `exit(1)` of a failed `fork`, or the end of the loop.
pub data Outcome : Type 0 where
  exits : Outcome
  leaves : Process → Outcome

-- The loop of process_api/subprocess.cpp from round `i` with `left` rounds to go, and `forks` telling
-- in which rounds `fork` succeeds: all processes that come of it, the parent last. The code has 6
-- rounds.
pub subprocess_loop : (forks : ℕ → Bool) (left i : ℕ) → List Outcome
subprocess_loop forks zero i = leaves (record { pid = positive; i = i }) ∷ []
subprocess_loop forks (suc n) i =
    let rest = subprocess_loop forks n (i + 1) in
    if forks i then leaves (record { pid = zero_; i = i }) ∷ rest else exits ∷ []

-- What is printed in the end: `I am %d child`, or `I am parent`.
pub data Line : Type 0 where
  i_am_child : (number : ℕ) → Line
  i_am_parent : Line

pub says : (rounds : ℕ) → Process → Line
says rounds p = if ltb p.i rounds then i_am_child (p.i + 1) else i_am_parent

-- The loop of process_api/execl.cpp, which goes on where `fork` fails; `pid` is the last result. The
-- code has 3 rounds.
pub execl_loop : (forks : ℕ → Bool) (left i : ℕ) → Pid → List Process
execl_loop forks zero i pid = record { pid = pid; i = i } ∷ []
execl_loop forks (suc n) i pid =
    let made = execl_loop forks n (i + 1) positive in
    let not_made = execl_loop forks n (i + 1) failed in
    if forks i then record { pid = zero_; i = i } ∷ made else not_made

-- What a process does behind it: the parent pauses for ever, a child runs one of the programs (`execl`
-- is taken to succeed), and any other returns.
pub data Program : Type 0 where
  firefox touch ls : Program

pub data Behaviour : Type 0 where
  pauses : Behaviour
  executes : Program → Behaviour
  returns : Behaviour

pub behind_loop : Process → Behaviour
behind_loop p = elim (p.pid) [
  | positive ↦ pauses
  | zero_ ↦
      if p.i == 0
      then executes firefox
      else if p.i == 1
      then executes touch
      else if p.i == 2
      then executes ls
      else returns
  | failed ↦ returns
]
