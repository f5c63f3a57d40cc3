-- ===== src/EdgeReader.antt =====
-- socket/epoll/non_block/server.cpp: one connection, not blocking, watched with EPOLLET: `epoll_wait`
-- returns once for what has come since it last returned, and the server then reads all there is.
pub mod Drains
mod Tests
use codespaces_blank.Prelude.{
  ℕ, ◌+◌, ◌≤◌, ◌<◌, ◌≡◌, Bool, true, false, List, [], ◌++◌, length, take, drop,
}

-- Whether the server is in `epoll_wait`, or in its loop over `read`.
pub data Phase : Type 0 where
  waiting draining : Phase

-- The bytes that have come and were not read, whether `epoll_wait` has still to return for some,
-- and the output. `arrived`, all the bytes that have come, is a ghost.
pub record Connection : Type 0 where
  pub phase : Phase
  pub pending : List ℕ
  pub edge : Bool
  pub output : List ℕ
  pub arrived : List ℕ

-- After EPOLL_CTL_ADD, with the bytes that have come before: it reports what there is.
abbrev pub added : List ℕ → Connection
added bytes = record { phase = waiting; pending = bytes; edge = true; output = []; arrived = bytes }

pub data Step (s : Connection) : Connection → Type 0 where
  -- bytes come, or the end of the connection where there are none
  arrives :
      (bytes : List ℕ)
      → Step s
          (record s { pending = s.pending ++ bytes; edge = true; arrived = s.arrived ++ bytes })
  -- `epoll_wait` returns
  wakes : s.phase ≡ waiting → s.edge ≡ true → Step s (record s { phase = draining; edge = false })
  -- `read` gives `n` bytes of at most `MAXLEN / 2`, and they are written to the terminal
  reads :
      (n : ℕ)
      → s.phase ≡ draining
      → 0 < n
      → n ≤ 5
      → n ≤ length s.pending
      → Step s (record s { pending = drop n s.pending; output = s.output ++ take n s.pending })
  -- `read` gives -1 or, at the end of the connection, 0: there is nothing to read
  finds_none : s.phase ≡ draining → s.pending ≡ [] → Step s (record s { phase = waiting })

pub data Reach (s : Connection) : Connection → Type 0 where
  here : Reach s s
  next : {t u : Connection} → Reach s t → Step t u → Reach s u
