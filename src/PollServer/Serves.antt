-- ===== src/PollServer/Serves.antt =====
-- Replies of socket/poll/poll.cpp, and its full array.
use codespaces_blank.Prelude.{
  ℕ, ◌+◌, ◌≤◌, ◌<◌, ◌≡◌, refl, true, false, ◌==◌, List, [], ◌∷◌, ◌++◌, arith, some, ltb, length,
  get_or, set, get_or-set_self, set_ge, length-set,
}
use codespaces_blank.PollServer.{
  watched, unset, Server, Answer, accepted, sent, stray_write, c_string, add_connection, read_from,
  write_to, to_write, to_read, round,
}

-- What a connection in the array is read for is what it is sent next, up to the first byte 0; and
-- the slot, which watched for writing in between, watches for reading again.
pub reply_echoes :
    (s : Server) (i b : ℕ) (bs : List ℕ)
    → i < length s.fds
    → let e = get_or s.fds i unset in
      let t = read_from i (b ∷ bs) s in
      let u = write_to i t in
      ((get_or t.fds i unset).events.pollout ≡ true)
      × ((get_or t.fds i unset).events.pollin ≡ false)
      × (u.log ≡ t.log ++ (sent e.fd (c_string (b ∷ bs)) ∷ []))
      × (get_or u.fds i unset ≡ to_read e)
unfolding read_from write_to
reply_echoes s i b bs h =
    let e = get_or s.fds i unset in
    let l = set s.fds i (to_write e) in
    rw (get_or-set_self s.fds i (to_write e) unset h) (
      refl,
      refl,
      ground arith,
      get_or-set_self l i (to_read (to_write e)) unset
          (omega (arith, length-set s.fds i (to_write e))),
    )

-- A connection that comes while the array is full is stored behind its end, and is counted.
pub accept_overruns :
    (listenfd conn i : ℕ) (a : Answer) (s : Server)
    → length s.fds ≤ s.used
    → (get_or s.fds i unset).fd ≡ listenfd
    → (get_or s.fds i unset).revents
      ≡ record { pollin = true; pollout = false; pollrdhup = false; pollerr = false }
    → a.accept ≡ some conn
    → let t = add_connection conn s in
      (round listenfd a i s ≡ some (i + 1, t))
      × (t.used ≡ s.used + 1)
      × (t.fds ≡ s.fds)
      × (t.log ≡ s.log ++ (accepted conn ∷ stray_write s.used ∷ []))
unfolding round add_connection
accept_overruns listenfd conn i a s full listens ready got =
    let outside : ltb s.used (length s.fds) ≡ false = ground arith in
    let listening : (get_or s.fds i unset).fd == listenfd ≡ true = ground arith in
    (
      rw (ready, listening, got) refl,
      refl,
      set_ge s.fds s.used (watched conn) full,
      rw outside refl,
    )
