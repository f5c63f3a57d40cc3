-- ===== src/SelectServer.antt =====
-- socket/select/select.cpp: a server on `select` that answers in upper case. (It declares `ret` twice
-- and does not compile as it stands; what follows is the code with one `ret`.)
pub mod Watching
pub mod Replies
mod Tests
use codespaces_blank.Prelude.{
  ℕ, zero, suc, ◌+◌, ◌-◌, Bool, true, false, not, ◌&&◌, ◌||◌, List, [], ◌∷◌, ◌++◌, Option, none,
  some, ltb, ◌==◌, if◌then◌else◌, length, drop,
}

abbrev pub FdSet : Type 0
FdSet = ℕ → Bool

-- FD_SET and FD_CLR, for descriptors below FD_SETSIZE.
abbrev pub fd_set : ℕ → FdSet → FdSet
fd_set fd s = λ i. (i == fd) || s i

abbrev pub fd_clr : ℕ → FdSet → FdSet
fd_clr fd s = λ i. not (i == fd) && s i

-- The system calls that change something, in their order: `close`, and the two calls of `write`.
pub data Call : Type 0 where
  closed : (fd : ℕ) → Call
  replied : (fd : ℕ) → List ℕ → Call
  printed : List ℕ → Call

pub record Server : Type 0 where
  pub allset : FdSet
  pub nfds : ℕ
  pub recv_buf : List ℕ
  pub log : List Call

-- `main` up to its loop. `recv_buf` holds what was in memory.
abbrev pub listening : (listenfd : ℕ) (recv_buf : List ℕ) → Server
listening listenfd recv_buf = record {
  allset = fd_set listenfd (λ i. false);
  nfds = listenfd + 1;
  recv_buf = recv_buf;
  log = [];
}

-- What `select` finds: the descriptors that are ready, and its return value.
pub record Selected : Type 0 where
  pub ready : FdSet
  pub ret : ℕ

-- What the system calls of one turn return: `none` is -1, and `accept` is taken to succeed. `read` gives bytes, or no bytes at the
-- end of the connection.
pub record Answers : Type 0 where
  pub selected : Option Selected
  pub connfd : ℕ
  pub reads : ℕ → Option (List ℕ)

-- Where `toupper` is the one of the C library.
module _ (toupper : ℕ → ℕ) where
  -- `for (int j = 0; j < n; j++) recvBuf[j] = toupper(recvBuf[j]);`
  pub upper : ℕ → List ℕ → List ℕ
  upper zero buf = buf
  upper (suc n) [] = []
  upper (suc n) (b ∷ buf) = toupper b ∷ upper n buf

  -- The body under `FD_ISSET(i, &rset)`; `none` is `exit(-1)`.
  pub read_client : (i : ℕ) → Option (List ℕ) → Server → Option Server
  read_client i none s = none
  read_client i (some []) s =
      some (record s { allset = fd_clr i s.allset; log = s.log ++ (closed i ∷ []) })
  read_client i (some (b ∷ bs)) s =
      some (record s { recv_buf = buf; log = s.log ++ (replied i buf ∷ printed buf ∷ []) })
    where
      n : ℕ
      n = length (b ∷ bs)

      buf : List ℕ
      buf = upper n ((b ∷ bs) ++ drop n s.recv_buf)

  -- The loop over the clients, with `n` descriptors left from `i`.
  pub serve_clients :
      (rset : FdSet) (reads : ℕ → Option (List ℕ)) (n i : ℕ) → Server → Option Server
  serve_clients rset reads zero i s = some s
  serve_clients rset reads (suc n) i s =
      elim (if rset i then read_client i (reads i) s else some s) [
        | none ↦ none
        | some t ↦ serve_clients rset reads n (i + 1) t
      ]

  -- The loop from `listenfd + 1` up to `nfds`.
  pub clients : (listenfd : ℕ) (rset : FdSet) (reads : ℕ → Option (List ℕ)) → Server → Option Server
  clients listenfd rset reads s =
      serve_clients rset reads (s.nfds - (listenfd + 1)) (listenfd + 1) s

  -- `FD_SET(connfd, &allset)`, and the new `nfds`.
  pub add_client : (connfd : ℕ) → Server → Server
  add_client connfd s = record s {
    allset = fd_set connfd s.allset;
    nfds = if ltb connfd s.nfds then s.nfds else connfd + 1;
  }

  -- One turn behind its call of `select`, which has returned `ret`.
  pub after_select : (listenfd : ℕ) (rset : FdSet) (ret : ℕ) → Answers → Server → Option Server
  after_select listenfd rset ret a s =
      if s.allset listenfd
      then (if ret == 1
          then some (add_client a.connfd s)
          else clients listenfd rset a.reads (add_client a.connfd s))
      else clients listenfd rset a.reads s

  -- One turn of `while (1)`. `select` is given `&allset` and leaves in it what is ready.
  pub turn : (listenfd : ℕ) → Answers → Server → Option Server
  turn listenfd a s = elim a.selected [
    | none ↦ none
    | some sel ↦
        after_select listenfd s.allset sel.ret a
          (record s { allset = λ i. s.allset i && sel.ready i })
  ]

  -- The turns, up to the one that exits.
  pub turns : (listenfd : ℕ) → List Answers → Server → Option Server
  turns listenfd [] s = some s
  turns listenfd (a ∷ rest) s = elim (turn listenfd a s) [
    | none ↦ none
    | some t ↦ turns listenfd rest t
  ]
