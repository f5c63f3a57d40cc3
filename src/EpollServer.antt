-- ===== src/EpollServer.antt =====
-- The class `Epoll` of socket/Server/Reactor.cpp, with socket/Server/Reactor.h: the event loop that
-- hands ready events to a thread pool, and the task that gathers a packet. It does not compile as it
-- stands: some names are not declared, and values are returned from functions of type void. What
-- follows is the code with these returns as its ends.
pub mod Packets
pub mod Loop
pub mod Posts
pub mod Stalls
mod Tests
use codespaces_blank.Prelude.{
  ℕ, zero, suc, ◌+◌, ◌-◌, ◌*◌, ◌^◌, Bool, true, false, not, ◌&&◌, List, [], ◌∷◌, ◌++◌, Option, none,
  some, ltb, ◌==◌, if◌then◌else◌, length, take,
}
use codespaces_blank.Reactor.{
  max_events, epollin, epollout, acceptconn, Callback, Event, Server, event, put, eventset,
  eventadd, is_epollin, is_epollout,
}

-- `DataBuffer`
pub record DataBuffer : Type 0 where
  pub sockfd : ℕ
  pub buf : List ℕ
  pub nlen : ℕ

-- How `Recv_task` ends: it has handed the buffer to the pool and registers the event again; or it
-- has taken the event off, closed the connection and deleted the event; or `new` throws.
pub data RecvEnd : Type 0 where
  handed : DataBuffer → RecvEnd
  dropped : (fd : ℕ) → RecvEnd
  bad_length : RecvEnd

-- The 32 bits of `nPackSize` where its bytes, the lowest first, are these; it is 0 before, so
-- bytes that `read` does not give are 0.
pub pack_size : List ℕ → ℕ
pack_size [] = 0
pack_size (b ∷ bs) = b + 256 * pack_size bs

-- `while (nPackSize)`, with the bytes in `pSzBuf` so far and what the calls of `recv` give, where
-- `[]` stands for a result that is not positive; behind the last there is nothing more to get.
pub gather : (pack_size : ℕ) → List ℕ → List (List ℕ) → List ℕ
gather zero got received = got
gather (suc n) got [] = got
gather (suc n) got ([] ∷ received) = got
gather (suc n) got ((b ∷ bs) ∷ received) =
    gather (suc n - length (b ∷ bs)) (got ++ (b ∷ bs)) received

-- `Recv_task` on the descriptor of its event, with what `read` gives for the size, and the calls
-- of `recv`. A size below 0 is one from 2 ^ 31 on here.
pub recv_task : (fd : ℕ) → Option (List ℕ) → List (List ℕ) → RecvEnd
recv_task fd none received = dropped fd
recv_task fd (some []) received = dropped fd
recv_task fd (some (b ∷ bs)) received =
    if ltb (pack_size (b ∷ bs)) (2 ^ 31)
    then handed (record { sockfd = fd; buf = got; nlen = length got })
    else bad_length
  where
    got : List ℕ
    got = gather (pack_size (b ∷ bs)) [] received

-- `Send_task`: the descriptor and the bytes that it gives to `send`.
pub send_task : DataBuffer → ℕ × List ℕ
send_task d = (d.sockfd, take d.nlen d.buf)

-- `InitListen` with the socket that it opens, for the slot of which `Accept_task` is the callback.
-- The field `lfd` is not set: a local variable of the same name is.
pub init_listen : (socket now : ℕ) → Server → Server
init_listen socket now s =
    eventadd epollin max_events
      (put s max_events (eventset socket acceptconn max_events now (event s max_events)))

-- What the loop does with an event: it queues its callback with the argument, or calls it.
pub data Job : Type 0 where
  queued : Callback → (arg : ℕ) → Job
  called : (slot fd : ℕ) → Job

-- One element of `events`: its slot, and whether EPOLLIN and EPOLLOUT are set in it.
pub record ReadyEvent : Type 0 where
  pub slot : ℕ
  pub readable : Bool
  pub writable : Bool

-- `if ((events[i].events & EPOLLIN) && (ev->events & EPOLLIN))`
abbrev pub reads : ReadyEvent → Server → Bool
reads r s = r.readable && is_epollin (event s r.slot).events

abbrev pub writes : ReadyEvent → Server → Bool
writes r s = r.writable && is_epollout (event s r.slot).events

-- The branch for reading. `ev->fd = lfd` is an assignment, and its value is the test.
pub read_event : (lfd : ℕ) → ReadyEvent → Server → Server × List Job
read_event lfd r s =
    if reads r s
    then (
      put s r.slot (record (event s r.slot) { fd = lfd }),
      if lfd == 0 then [] else queued (event s r.slot).call_back (event s r.slot).arg ∷ [],
    )
    else (s, [])

-- What a callback does that the loop calls itself, for a slot and its descriptor, is a parameter: the
-- tasks of the class do not have the type of a callback.
module _ (work : (slot fd : ℕ) → Server → Server) where
  -- The branch for writing.
  pub write_event : ReadyEvent → Server → Server × List Job
  write_event r s =
      let fd = (event s r.slot).fd in
      if writes r s then (work r.slot fd s, called r.slot fd ∷ []) else (s, [])

  -- The loop of `EventLoop` over the events that `epoll_wait` gives. What the threads of the pool do
  -- to the table meanwhile is not modelled.
  pub event_loop : (lfd : ℕ) → List ReadyEvent → Server → Server × List Job
  event_loop lfd [] s = (s, [])
  event_loop lfd (r ∷ rs) s =
      let (t, jobs) = read_event lfd r s in
      let (u, done) = write_event r t in
      let (v, more) = event_loop lfd rs u in (v, jobs ++ (done ++ more))
