-- ===== src/PipeLines.antt =====
-- socket/epoll/pipe/pipe.cpp: a child writes two lines at a time into a pipe, and its parent, told by
-- `epoll`, reads a line at a time. A step is one `write` or one `read`.
pub mod Order
mod Tests
use codespaces_blank.Prelude.{
  ℕ, zero, suc, ◌+◌, ◌-◌, ◌/◌, ◌%◌, ◌<◌, ◌≡◌, List, [], ◌∷◌, ◌++◌, length, set, take, drop,
}

-- `MAXLINE`
abbrev pub maxline : ℕ
maxline = 10

-- `for (; i < end; i++) buf[i] = ch;` with `n` bytes left.
pub fill : (n i ch : ℕ) → List ℕ → List ℕ
fill zero i ch buf = buf
fill (suc n) i ch buf = fill n (i + 1) ch (set buf i ch)

-- `ch++` of a char, as a byte.
abbrev pub next_char : ℕ → ℕ
next_char ch = (ch + 1) % 256

-- What `buf` and `ch` are at the call of `write`.
pub fill_lines : (ch : ℕ) → List ℕ → List ℕ × ℕ
fill_lines ch buf =
    let first = set (fill (maxline / 2) 0 ch buf) (maxline / 2 - 1) 10 in
    (
      set (fill (maxline - maxline / 2) (maxline / 2) (next_char ch) first) (maxline - 1) 10,
      next_char (next_char ch),
    )

-- The child's `buf` and `ch`, the bytes in the pipe, and the output of the parent.
pub record Channel : Type 0 where
  pub buf : List ℕ
  pub ch : ℕ
  pub pipe : List ℕ
  pub output : List ℕ

-- Before the loops; `ch` is 'a', and `buf` holds what was in memory.
abbrev pub opening : List ℕ → Channel
opening buf = record { buf = buf; ch = 97; pipe = []; output = [] }

-- A `write` of 10 bytes to a pipe is not split. `epoll_wait` returns where there is something to
-- read, and `read` gives at most 5 bytes of it.
pub data Step (s : Channel) : Channel → Type 0 where
  writes : Step s (record s {
    buf = (fill_lines s.ch s.buf).0;
    ch = (fill_lines s.ch s.buf).1;
    pipe = s.pipe ++ (fill_lines s.ch s.buf).0;
  })
  reads :
      0 < length s.pipe
      → Step s (record s {
        pipe = drop (maxline / 2) s.pipe;
        output = s.output ++ take (maxline / 2) s.pipe;
      })

pub data Reach (s : Channel) : Channel → Type 0 where
  here : Reach s s
  next : {t u : Channel} → Reach s t → Step t u → Reach s u
