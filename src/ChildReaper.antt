-- ===== src/ChildReaper.antt =====
-- signal/recovery.cpp and signal/r2.cpp: a parent forks ten children and collects the dead ones in
-- a handler of SIGCHLD. A step is one system call of the parent, or the exit of a child.
pub mod Collects
pub mod Misses
mod Tests
use codespaces_blank.Prelude.{
  ℕ, ◌≡◌, ◌+◌, Bool, true, false, ◌||◌, List, [], ◌∷◌, ◌++◌, some, if◌then◌else◌, get_elem?, set,
  replicate, total,
}

-- A process that `fork` made: it runs, or has exited and was not waited for, or was.
pub data Child : Type 0 where
  alive zombie collected : Child

-- What `main` has still to do before its endless loop. `fork` is the call of signal/recovery.cpp,
-- which goes on where it fails, and `fork_or_exit` that of signal/r2.cpp.
pub data Action : Type 0 where
  block fork fork_or_exit install unblock : Action

-- Where the handler stands: it does not run; or it is at its call of `waitpid`; or that has found
-- no dead child.
pub data Handler : Type 0 where
  idle waiting returning : Handler

-- `pending` is whether SIGCHLD waits for the parent: one signal, however many children have exited.
pub record Family : Type 0 where
  pub todo : List Action
  pub children : List Child
  pub blocked : Bool
  pub installed : Bool
  pub pending : Bool
  pub handler : Handler

-- `main` of signal/recovery.cpp and of signal/r2.cpp, for `n` children.
abbrev pub recovery : ℕ → List Action
recovery n = block ∷ (replicate n fork ++ (install ∷ unblock ∷ []))

abbrev pub r2 : ℕ → List Action
r2 n = replicate n fork_or_exit ++ (block ∷ install ∷ unblock ∷ [])

abbrev pub start : List Action → Family
start program = record {
  todo = program;
  children = [];
  blocked = false;
  installed = false;
  pending = false;
  handler = idle;
}

abbrev pub is_idle : Handler → Bool
is_idle idle = true
is_idle _ = false

-- SIGCHLD comes. It waits where it is blocked, as it also is while its handler runs; else it starts
-- the handler, or is dropped where there is none, as its default says.
pub raise : Family → Family
raise s =
    if s.blocked
    then record s { pending = true }
    else if is_idle s.handler
    then (if s.installed
        then record s { pending = false; handler = waiting }
        else record s { pending = false })
    else record s { pending = true }

pub data Step (s : Family) : Family → Type 0 where
  -- `main`, while the handler does not run
  blocks :
      (rest : List Action)
      → s.handler ≡ idle
      → s.todo ≡ block ∷ rest
      → Step s (record s { todo = rest; blocked = true })
  forks :
      (rest : List Action)
      → s.handler ≡ idle
      → s.todo ≡ fork ∷ rest
      → Step s (record s { todo = rest; children = s.children ++ (alive ∷ []) })
  fork_fails :
      (rest : List Action)
      → s.handler ≡ idle
      → s.todo ≡ fork ∷ rest
      → Step s (record s { todo = rest })
  forks_or_exits :
      (rest : List Action)
      → s.handler ≡ idle
      → s.todo ≡ fork_or_exit ∷ rest
      → Step s (record s { todo = rest; children = s.children ++ (alive ∷ []) })
  installs :
      (rest : List Action)
      → s.handler ≡ idle
      → s.todo ≡ install ∷ rest
      → Step s (record s { todo = rest; installed = true })
  unblocks :
      (rest : List Action)
      → s.handler ≡ idle
      → s.todo ≡ unblock ∷ rest
      → Step s (record s { todo = rest; blocked = false })
  -- a child
  exits :
      (i : ℕ)
      → get_elem? s.children i ≡ some alive
      → Step s (raise (record s { children = set s.children i zombie }))
  -- the kernel gives the parent the signal that waits
  delivers : s.pending ≡ true → s.blocked ≡ false → s.handler ≡ idle → Step s (raise s)
  -- the handler
  collects :
      (i : ℕ)
      → s.handler ≡ waiting
      → get_elem? s.children i ≡ some zombie
      → Step s (record s { children = set s.children i collected })
  finds_none :
      s.handler ≡ waiting
      → ((i : ℕ) → get_elem? s.children i ≡ some zombie → ⊥)
      → Step s (record s { handler = returning })
  returns : s.handler ≡ returning → Step s (record s { handler = idle })

pub data Reach (s : Family) : Family → Type 0 where
  here : Reach s s
  next : {t u : Family} → Reach s t → Step t u → Reach s u

abbrev pub is_zombie : Child → ℕ
is_zombie zombie = 1
is_zombie _ = 0

-- The dead children that were not waited for.
abbrev pub zombies : Family → ℕ
zombies s = total is_zombie s.children
