-- ===== src/WordCount.antt =====
-- IPC/mywc.cpp: `ls | wc -l` from two processes, by a pipe and `dup2`. The descriptors decide whether
-- `wc` ever comes to the end of its input.
pub mod Stages
pub mod Ends
mod Tests
use codespaces_blank.Prelude.{
  ℕ, ◌+◌, ◌<◌, ◌≡◌, Bool, true, false, List, [], ◌∷◌, ◌++◌, get_or, set, total, length,
}

-- What a descriptor stands for.
pub data File : Type 0 where
  closed terminal read_end write_end : File

-- The descriptors of a process, from 0 on.
abbrev pub file : List File → ℕ → File
file t d = get_or t d closed

-- What a process does before it runs its program.
pub data Action : Type 0 where
  closes : (d : ℕ) → Action
  dups : (d e : ℕ) → Action

-- `close(d)`, and `dup2(d, e)` where `d` is open, as it is here.
pub act : Action → List File → List File
act (closes d) t = set t d closed
act (dups d e) t = set t e (file t d)

-- `fd[0]` is 3 and `fd[1]` is 4, the lowest that are free.
abbrev pub forked : List File
forked = terminal ∷ terminal ∷ terminal ∷ read_end ∷ write_end ∷ []

-- The child, which becomes `wc -l`, and the parent, which becomes `ls`.
abbrev pub child_actions : List Action
child_actions = closes 4 ∷ dups 3 0 ∷ []

abbrev pub parent_actions : List Action
parent_actions = closes 3 ∷ dups 4 1 ∷ []

-- `unwritten` is what `ls` has still to write, and `counted` what `wc` has read.
pub record System : Type 0 where
  pub parent_todo : List Action
  pub parent : List File
  pub unwritten : List ℕ
  pub child_todo : List Action
  pub child : List File
  pub counted : List ℕ
  pub done : Bool
  pub pipe : List ℕ

abbrev pub start : List ℕ → System
start output = record {
  parent_todo = parent_actions;
  parent = forked;
  unwritten = output;
  child_todo = child_actions;
  child = forked;
  counted = [];
  done = false;
  pipe = [];
}

abbrev pub is_reader : File → ℕ
is_reader read_end = 1
is_reader _ = 0

abbrev pub is_writer : File → ℕ
is_writer write_end = 1
is_writer _ = 0

-- How many descriptors of both processes there are for an end of the pipe.
abbrev pub holders : (File → ℕ) → System → ℕ
holders f s = total f s.parent + total f s.child

-- The pipe takes up to `capacity` bytes.
pub data Step (capacity : ℕ) (s : System) : System → Type 0 where
  parent_acts :
      (a : Action) (rest : List Action)
      → s.parent_todo ≡ a ∷ rest
      → Step capacity s (record s { parent_todo = rest; parent = act a s.parent })
  child_acts :
      (a : Action) (rest : List Action)
      → s.child_todo ≡ a ∷ rest
      → Step capacity s (record s { child_todo = rest; child = act a s.child })
  -- `ls` writes a byte to its standard output, where that is the pipe; or it is ended by SIGPIPE,
  -- as nobody can read; or it is over.
  writes :
      (b : ℕ) (rest : List ℕ)
      → s.parent_todo ≡ []
      → file s.parent 1 ≡ write_end
      → s.unwritten ≡ b ∷ rest
      → 0 < holders is_reader s
      → length s.pipe < capacity
      → Step capacity s (record s { unwritten = rest; pipe = s.pipe ++ (b ∷ []) })
  breaks :
      s.parent_todo ≡ []
      → file s.parent 1 ≡ write_end
      → holders is_reader s ≡ 0
      → Step capacity s (record s { unwritten = []; parent = [] })
  ends : s.parent_todo ≡ [] → s.unwritten ≡ [] → Step capacity s (record s { parent = [] })
  -- `wc` reads a byte from its standard input, where that is the pipe; or it reads the end of its
  -- input, as nobody can write any more.
  reads :
      (b : ℕ) (rest : List ℕ)
      → s.child_todo ≡ []
      → file s.child 0 ≡ read_end
      → s.pipe ≡ b ∷ rest
      → Step capacity s (record s { pipe = rest; counted = s.counted ++ (b ∷ []) })
  reads_end :
      s.child_todo ≡ []
      → file s.child 0 ≡ read_end
      → s.pipe ≡ []
      → holders is_writer s ≡ 0
      → Step capacity s (record s { done = true; child = [] })

pub data Reach (capacity : ℕ) (s : System) : System → Type 0 where
  here : Reach capacity s s
  next : {t u : System} → Reach capacity s t → Step capacity t u → Reach capacity s u
