-- ===== src/PipeEcho.antt =====
-- IPC/PIPE.cpp: the parent reads a line from the terminal and sends its buffer through a pipe, and the
-- child prints it.
pub mod Discloses
mod Tests
use mathlib.Core.Option
use codespaces_blank.Prelude.{
  ℕ, Bool, List, [], ◌∷◌, ◌++◌, Option, none, some, ◌==◌, if◌then◌else◌, length, drop,
}

-- The bytes of an array before its first 0; none where `strlen` runs behind its end.
pub until_zero : List ℕ → Option (List ℕ)
until_zero [] = none
until_zero (b ∷ bs) =
    let rest = Option.map (λ t. b ∷ t) (until_zero bs) in if b == 0 then some [] else rest

-- `read` into `buf`, which gives a number of bytes, or fails.
pub read_into : List ℕ → Option (List ℕ) → List ℕ
read_into buf none = buf
read_into buf (some bytes) = bytes ++ drop (length bytes) buf

-- Both processes: what was in `buf` of the parent and of the child, and what the terminal gives. The
-- parent sends all of its buffer. What the child prints, none where it reads behind its array.
pub pipe_echo : (parent_buf child_buf : List ℕ) → Option (List ℕ) → Option (List ℕ)
pipe_echo parent_buf child_buf line =
    until_zero (read_into child_buf (some (read_into parent_buf line)))
