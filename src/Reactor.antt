-- ===== src/Reactor.antt =====
-- socket/epoll/Reactor/main.cpp (the same text is in socket/Server/Reactor.cpp): an echo server on
-- `epoll` with a table of events. System calls are a log, and what they return is an argument.
pub mod Table
pub mod Fresh
pub mod Accept
pub mod Echo
pub mod Sweep
pub mod Balance
pub mod Registrations
mod Tests
use codespaces_blank.Prelude.{
  ℕ, zero, suc, ◌+◌, ◌-◌, Bool, true, false, ◌&&◌, List, [], ◌∷◌, ◌++◌, Option, none, some, leb,
  ltb, ◌==◌, if◌then◌else◌, length, get_or, set, take, drop, replicate,
}

abbrev pub max_events : ℕ
max_events = 1024

abbrev pub buflen : ℕ
buflen = 4096

-- The masks that the code uses: 0, EPOLLIN and EPOLLOUT.
pub data Interest : Type 0 where
  nothing epollin epollout : Interest

pub data Callback : Type 0 where
  null acceptconn recvdata senddata : Callback

-- `myevent_s`. `arg` is a pointer into `gevents`, here its index. A char is a number below 256.
pub record Event : Type 0 where
  pub fd : ℕ
  pub events : Interest
  pub arg : ℕ
  pub call_back : Callback
  pub status : ℕ
  pub buf : List ℕ
  pub len : ℕ
  pub last_active : ℕ

-- `memset(buf, 0, sizeof(buf))`
pub blank : List ℕ
blank = replicate buflen 0

-- An element of the zeroed global array.
abbrev pub zeroed : Event
zeroed = record {
  fd = 0;
  events = nothing;
  arg = 0;
  call_back = null;
  status = 0;
  buf = blank;
  len = 0;
  last_active = 0;
}

-- The system calls that change something, in their order. `ctl_unset` is an `epoll_ctl` whose
-- operation was never assigned; `stray_write` is the store behind the end of `buf`.
pub data Call : Type 0 where
  ctl_add : (fd : ℕ) → Interest → (slot : ℕ) → Call
  ctl_unset : (fd : ℕ) → Call
  ctl_del : (fd : ℕ) → Call
  sent : (fd : ℕ) → List ℕ → Call
  closed : (fd : ℕ) → Call
  stray_write : (slot : ℕ) → Call

-- `gevents`, and the log.
pub record Server : Type 0 where
  pub gevents : List Event
  pub log : List Call

-- The access `gevents[i]`. `Table` shows that no index is out of range.
abbrev pub event : Server → ℕ → Event
event s i = get_or s.gevents i zeroed

abbrev pub put : Server → ℕ → Event → Server
put s i e = record s { gevents = set s.gevents i e }

abbrev pub note : Server → Call → Server
note s c = record s { log = s.log ++ (c ∷ []) }

-- `eventset(&gevents[i], fd, call_back, &gevents[i])`
pub eventset : (fd : ℕ) → Callback → (i now : ℕ) → Event → Event
eventset fd call_back i now e = record e {
  fd = fd;
  arg = i;
  events = nothing;
  call_back = call_back;
  buf = blank;
  len = 0;
  last_active = now;
}

-- `eventadd(epfd, events, &gevents[i])`. The log has the call of `epoll_ctl`; whether that succeeds
-- changes only what is printed, as `status` is set before it.
pub eventadd : Interest → ℕ → Server → Server
eventadd events i s =
    if e.status == 0
    then note (put s i (record e { events = events; status = 1 })) (ctl_add e.fd events i)
    else note (put s i (record e { events = events })) (ctl_unset e.fd)
  where
    e : Event
    e = event s i

-- `eventdel(epfd, &gevents[i])`
pub eventdel : ℕ → Server → Server
eventdel i s =
    if (event s i).status == 1
    then note (put s i (record (event s i) { status = 0 })) (ctl_del (event s i).fd)
    else s

-- `for (i = 0; i < MAX_EVENTS; i++) if (gevents[i].status == 0) break;` with `n` rounds left.
pub find_free : List Event → (n i : ℕ) → ℕ
find_free g zero i = i
find_free g (suc n) i =
    let rest = find_free g n (i + 1) in if (get_or g i zeroed).status == 0 then i else rest

-- `acceptconn`, with what `accept` returns (`none` for -1), whether `fcntl` succeeds, and the time.
pub accept_conn : (accepted : Option ℕ) → (nonblocking : Bool) → (now : ℕ) → Server → Server
accept_conn none nonblocking now s = s
accept_conn (some cfd) nonblocking now s =
    let i = find_free s.gevents max_events 0 in
    if nonblocking
    then eventadd epollin i (put s i (eventset cfd recvdata i now (event s i)))
    else s

-- What `recv` leaves in `buf`.
abbrev pub received : List ℕ → Event → Event
received bytes e = record e { buf = bytes ++ drop (length bytes) e.buf }

-- `ev->len = len; ev->buf[len] = '\0';`
abbrev pub terminated : ℕ → Event → Event
terminated n e = record e { len = n; buf = set e.buf n 0 }

-- The branch of `recvdata` for `n` bytes, after `eventdel`.
pub recv_some : (fd n i now : ℕ) → Server → Server
recv_some fd n i now s =
    eventadd epollout i (put noted i (eventset fd senddata i now (terminated n (event s i))))
  where
    noted : Server
    noted = if ltb n buflen then s else note s (stray_write i)

-- `recvdata(fd, events, &gevents[i])`, with what `recv` returns: `none` for -1, or the bytes.
pub recv_data : (fd i : ℕ) → Option (List ℕ) → (now : ℕ) → Server → Server
recv_data fd i none now s = note (eventdel i s) (closed (event s i).fd)
recv_data fd i (some []) now s = note (eventdel i s) (closed (event s i).fd)
recv_data fd i (some (b ∷ bs)) now s =
    recv_some fd (length (b ∷ bs)) i now (eventdel i (put s i (received (b ∷ bs) (event s i))))

-- `senddata` up to its test: the call of `send`, and `eventdel`.
pub send_gone : ℕ → Server → Server
send_gone i s = eventdel i (note s (sent (event s i).fd (take (event s i).len (event s i).buf)))

-- `senddata(fd, events, &gevents[i])`, with what `send` returns (`none` for -1).
pub send_data : (i : ℕ) → Option ℕ → Server → Server
send_data i none s = note (send_gone i s) (closed (event s i).fd)
send_data i (some zero) s = note (send_gone i s) (closed (event s i).fd)
send_data i (some (suc n)) s = eventadd epollin i (send_gone i s)

-- `initListenSocket(epfd, port)` with the socket `lfd` that it opens.
pub init_listen_socket : (lfd now : ℕ) → Server → Server
init_listen_socket lfd now s =
    eventadd epollin max_events
      (put s max_events (eventset lfd acceptconn max_events now (event s max_events)))

-- What the system calls of one callback return, and the time.
pub record Answers : Type 0 where
  pub accepted : Option ℕ
  pub nonblocking : Bool
  pub bytes : Option (List ℕ)
  pub count : Option ℕ
  pub now : ℕ

-- `ev->call_back(ev->fd, events[i].events, ev->arg)` for `ev = &gevents[i]`.
pub call : Answers → ℕ → Server → Server
call a i s = elim ((event s i).call_back) [
  | null ↦ s
  | acceptconn ↦ accept_conn a.accepted a.nonblocking a.now s
  | recvdata ↦ recv_data (event s i).fd (event s i).arg a.bytes a.now s
  | senddata ↦ send_data (event s i).arg a.count s
]

abbrev pub is_epollin : Interest → Bool
is_epollin epollin = true
is_epollin _ = false

abbrev pub is_epollout : Interest → Bool
is_epollout epollout = true
is_epollout _ = false

-- One ready event: its slot, whether EPOLLIN and EPOLLOUT are set in it, and the answers to the
-- callback for each.
pub record Ready : Type 0 where
  pub slot : ℕ
  pub readable : Bool
  pub writable : Bool
  pub reading : Answers
  pub writing : Answers

-- The body of the loop over the ready events. The second test reads `ev->events` again.
pub handle : Ready → Server → Server
handle r s =
    written
      (if r.readable && is_epollin (event s r.slot).events then call r.reading r.slot s else s)
  where
    written : Server → Server
    written t =
        if r.writable && is_epollout (event t r.slot).events then call r.writing r.slot t else t

pub handle_all : List Ready → Server → Server
handle_all [] s = s
handle_all (r ∷ rs) s = handle_all rs (handle r s)
