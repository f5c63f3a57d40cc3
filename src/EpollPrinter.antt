-- ===== src/EpollPrinter.antt =====
-- socket/epoll/CS_socket/server.cpp: a server on `epoll` that prints what its clients send.
pub mod Descriptors
mod Tests
use codespaces_blank.Prelude.{
  ℕ, zero, suc, ◌+◌, ◌≡◌, Bool, true, false, not, ◌&&◌, ◌||◌, List, [], ◌∷◌, Option, none, some,
  ◌==◌, if◌then◌else◌,
}

-- The descriptors that `epoll` has, those that are open, and `cnt`.
pub record Server : Type 0 where
  pub registered : ℕ → Bool
  pub opened : ℕ → Bool
  pub cnt : ℕ

abbrev pub with_fd : ℕ → (ℕ → Bool) → ℕ → Bool
with_fd fd s = λ i. (i == fd) || s i

abbrev pub without_fd : ℕ → (ℕ → Bool) → ℕ → Bool
without_fd fd s = λ i. not (i == fd) && s i

-- Before the loop: `opened` are the descriptors that are open then, with that of `epoll`.
abbrev pub listening : (listenfd : ℕ) (opened : ℕ → Bool) → Server
listening listenfd opened = record {
  registered = with_fd listenfd (λ i. false);
  opened = with_fd listenfd opened;
  cnt = 0;
}

-- A ready event: its descriptor, whether EPOLLOUT is set, and what `accept` or `read` returns for
-- it; `none` is -1.
pub record Ready : Type 0 where
  pub fd : ℕ
  pub writable : Bool
  pub accepted : Option ℕ
  pub bytes : Option (List ℕ)

-- `accept` and `epoll_ctl(epfd, EPOLL_CTL_ADD, connfd, &event)`, which fails for -1.
pub accept_client : Option ℕ → Server → Server
accept_client none s = record s { cnt = s.cnt + 1 }
accept_client (some connfd) s = record {
  registered = with_fd connfd s.registered;
  opened = with_fd connfd s.opened;
  cnt = s.cnt + 1;
}

-- The branches on what `read(tfd, buf, 1024)` returns.
pub read_client : (tfd : ℕ) → Option (List ℕ) → Server → Server
read_client tfd none s = record s {
  registered = without_fd tfd s.registered;
  opened = without_fd tfd s.opened;
}
read_client tfd (some []) s = record s { registered = without_fd tfd s.registered }
read_client tfd (some (b ∷ bs)) s = s

-- The body of the loop over the events.
pub handle : (listenfd : ℕ) → Ready → Server → Server
handle listenfd r s =
    if r.writable
    then s
    else if r.fd == listenfd
    then accept_client r.accepted s
    else read_client r.fd r.bytes s

pub handle_all : (listenfd : ℕ) → List Ready → Server → Server
handle_all listenfd [] s = s
handle_all listenfd (r ∷ rs) s = handle_all listenfd rs (handle listenfd r s)

-- The turns of `while (1)`, for what each `epoll_wait` gives.
pub serve : (listenfd : ℕ) → List (List Ready) → Server → Server
serve listenfd [] s = s
serve listenfd (rs ∷ turns) s = serve listenfd turns (handle_all listenfd rs s)
