-- ===== src/PollServer.antt =====
-- socket/poll/poll.cpp: an echo server on `poll` with an array of descriptors. System calls are a
-- log, and what they return is an argument.
pub mod Ends
pub mod Serves
pub mod Runs
pub mod Balance
pub mod Rounds
pub mod Passes
pub mod Connections
mod Tests
use codespaces_blank.Prelude.{
  ℕ, ◌*◌, zero, suc, ◌+◌, ◌-◌, Bool, true, false, ◌&&◌, ◌||◌, not, List, [], ◌∷◌, ◌++◌, Option,
  none, some, ltb, ◌==◌, if◌then◌else◌, length, get_or, set, replicate,
}

abbrev pub client_size : ℕ
client_size = 100

-- The bits that the code uses: POLLIN, POLLOUT, POLLRDHUP and POLLERR.
pub record Mask : Type 0 where
  pub pollin : Bool
  pub pollout : Bool
  pub pollrdhup : Bool
  pub pollerr : Bool

-- `pollfd`
pub record PollFd : Type 0 where
  pub fd : ℕ
  pub events : Mask
  pub revents : Mask

abbrev pub no_events : Mask
no_events = record { pollin = false; pollout = false; pollrdhup = false; pollerr = false }

-- what a read behind the end of `fds` gives here
abbrev pub unset : PollFd
unset = record { fd = 0; events = no_events; revents = no_events }

-- The system calls that change something, in their order. `stray_write` is a store behind the end
-- of `fds`.
pub data Call : Type 0 where
  accepted : ℕ → Call
  closed : ℕ → Call
  sent : ℕ → List ℕ → Call
  stray_write : ℕ → Call

-- `fds`, `conncount + 1`, `mapdata`, and the log.
pub record Server : Type 0 where
  pub fds : List PollFd
  pub used : ℕ
  pub mapdata : ℕ → List ℕ
  pub log : List Call

-- What `main` sets up before its loop. The entries of `fds` that it does not set are not read
-- before they are.
abbrev pub initial_server : (listenfd : ℕ) → Server
initial_server listenfd = record {
  fds = set (replicate client_size unset) 0 (record {
    fd = listenfd;
    events = record { pollin = true; pollout = false; pollrdhup = false; pollerr = true };
    revents = no_events;
  });
  used = 1;
  mapdata = λ x. [];
  log = [];
}

-- `mapdata[fd] = text`. A key that is missing and one that holds "" are the same to the code.
abbrev pub store : ℕ → List ℕ → (ℕ → List ℕ) → ℕ → List ℕ
store fd text m x = if x == fd then text else m x

-- What `send` returns: it has sent, or fails with ECONNRESET, or fails otherwise.
pub data SendResult : Type 0 where
  ok reset failed : SendResult

-- What the system calls of one round return: `none` stands for -1.
pub record Answer : Type 0 where
  pub accept : Option ℕ
  pub recv : Option (List ℕ)
  pub send : SendResult

-- The bytes of a buffer that `mapdata[…] = buf` takes, up to the first 0.
pub c_string : List ℕ → List ℕ
c_string [] = []
c_string (b ∷ bs) = let rest = c_string bs in if b == 0 then [] else b ∷ rest

-- The client has closed, or there is an error.
pub drop_connection : ℕ → Server → Server
drop_connection i s = record s {
  fds = set s.fds i (get_or s.fds (s.used - 1) unset);
  used = s.used - 1;
  mapdata = store (get_or s.fds i unset).fd [] s.mapdata;
  log = s.log ++ (closed (get_or s.fds i unset).fd ∷ []);
}

-- The entry of a new connection.
abbrev pub watched : ℕ → PollFd
watched conn = record {
  fd = conn;
  events = record { pollin = true; pollout = false; pollrdhup = true; pollerr = true };
  revents = no_events;
}

-- The new connection `conn` in the slot behind the others.
pub add_connection : ℕ → Server → Server
add_connection conn s = record s {
  fds = set s.fds s.used (watched conn);
  used = s.used + 1;
  log =
      s.log
      ++ (accepted conn ∷ (if ltb s.used (length s.fds) then [] else stray_write s.used ∷ []));
}

-- `events` with POLLIN taken out and POLLOUT put in, and the other way round.
abbrev pub to_write : PollFd → PollFd
to_write e = record e { events = record (e.events) { pollin = false; pollout = true } }

abbrev pub to_read : PollFd → PollFd
to_read e = record e { events = record (e.events) { pollin = true; pollout = false } }

pub read_from : ℕ → List ℕ → Server → Server
read_from i [] s = s
read_from i (b ∷ bs) s = record s {
  fds = set s.fds i (to_write (get_or s.fds i unset));
  mapdata = store (get_or s.fds i unset).fd (c_string (b ∷ bs)) s.mapdata;
}

pub write_to : ℕ → Server → Server
write_to i s = record s {
  fds = set s.fds i (to_read (get_or s.fds i unset));
  log = s.log ++ (sent (get_or s.fds i unset).fd (s.mapdata (get_or s.fds i unset).fd) ∷ []);
}

-- The rest of a round, where its `exit(1)` is `none`, with the `i` that `i++` gives.
abbrev pub accept_round : ℕ → Server → Option ℕ → Option (ℕ × Server)
accept_round i s none = none
accept_round i s (some conn) = some (i + 1, add_connection conn s)

abbrev pub read_round : ℕ → Server → Option (List ℕ) → Option (ℕ × Server)
read_round i s none = none
read_round i s (some bytes) = some (i + 1, read_from i bytes s)

abbrev pub write_round : ℕ → Server → SendResult → Option (ℕ × Server)
write_round i s ok = some (i + 1, write_to i s)
write_round i s reset = some (i + 1, s)
write_round i s failed = none

-- The body of the loop over `fds` for slot `i`, and the next `i`. After a removal that is the same.
pub round : (listenfd : ℕ) → Answer → ℕ → Server → Option (ℕ × Server)
round listenfd a i s =
    if e.revents.pollrdhup || e.revents.pollerr
    then some (i, drop_connection i s)
    else if (e.fd == listenfd) && e.revents.pollin
    then accept_round i s a.accept
    else if e.revents.pollin
    then read_round i s a.recv
    else if e.revents.pollout
    then write_round i s a.send
    else some (i + 1, s)
  where
    e : PollFd
    e = get_or s.fds i unset

-- How a pass over `fds` ends; it runs on fuel (`Ends`).
pub data Passed : Type 0 where
  exited : Passed
  out_of_fuel : Passed
  done : Server → Passed

-- The loop over `fds` from slot `i`; `a` gives the answers by the fuel that is left.
pub pass : (fuel listenfd : ℕ) → (ℕ → Answer) → ℕ → Server → Passed
pass zero listenfd a i s = out_of_fuel
pass (suc n) listenfd a i s =
    if ltb i s.used
    then elim (round listenfd (a n) i s) [ none ↦ exited | some r ↦ pass n listenfd a r.0 r.1 ]
    else done s

-- What `poll` writes into the `revents` of the first `n` entries.
pub polled : (ℕ → Mask) → (n : ℕ) → Server → Server
polled m zero s = s
polled m (suc n) s =
    polled m n (record s { fds = set s.fds n (record (get_or s.fds n unset) { revents = m n }) })

-- What one call of `poll` finds for each slot, and the answers to the rounds of the pass after it.
pub record Turn : Type 0 where
  pub found : ℕ → Mask
  pub answers : ℕ → Answer

-- `while (1)`, for what each call of `poll` finds. Its failure ends the program, as `exit(1)` does.
-- Each pass has as much fuel as it needs (`Ends`).
pub serve : (listenfd : ℕ) → List Turn → Server → Passed
serve listenfd [] s = done s
serve listenfd (turn ∷ turns) s =
    elim (pass (2 * s.used + 1) listenfd turn.answers 0 (polled turn.found s.used s)) [
      | exited ↦ exited
      | out_of_fuel ↦ out_of_fuel
      | done t ↦ serve listenfd turns t
    ]
