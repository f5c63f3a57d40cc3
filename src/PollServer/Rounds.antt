-- ===== src/PollServer/Rounds.antt =====
-- What a round of socket/poll/poll.cpp does to the connections, and to the end of its array.
use codespaces_blank.Prelude.{
  ℕ, ◌+◌, ◌-◌, ◌≤◌, ◌<◌, ◌≡◌, ◌⊎◌, refl, ◌||◌, ◌&&◌, ◌==◌, List, [], ◌∷◌, arith, some, none, Option,
  inl, inr, Bool-cases, if◌then◌else◌, ltb, length, get_or, length-set, total, total-append,
}
use codespaces_blank.PollServer.{
  PollFd, SendResult, watched, unset, Server, Answer, Call, accepted, closed, sent, stray_write,
  drop_connection, add_connection, read_from, write_to, to_write, to_read, ok, reset, failed, round,
  accept_round, read_round, write_round,
}
use codespaces_blank.PollServer.Balance.{
  accepts, IsBalanced, drop-IsBalanced, add-IsBalanced, read-IsBalanced, write-IsBalanced,
}

abbrev pub strays : Call → ℕ
strays (stray_write i) = 1
strays _ = 0

-- The array holds all that is counted, and connections are balanced.
abbrev pub IsKept : ℕ → Server → Server → Type 0
IsKept x s t =
    IsBalanced x s t × (t.used ≤ length t.fds) × (total strays t.log ≡ total strays s.log)

-- A round keeps the connections, or stores behind the end of the array.
abbrev pub Keeps : ℕ → Server → Option (ℕ × Server) → Type 0
Keeps x s none = Unit
Keeps x s (some r) = IsKept x s r.1 ⊎ (total strays s.log < total strays r.1.log)

module _ (x : ℕ) (s : Server) (room : s.used ≤ length s.fds) where
  drop-IsKept : (i : ℕ) → i < s.used → IsKept x s (drop_connection i s)
  unfolding drop_connection
  drop-IsKept i h = (
    drop-IsBalanced x s room i h,
    omega (arith, length-set s.fds i (get_or s.fds (s.used - 1) unset)),
    omega (arith, total-append strays s.log (closed (get_or s.fds i unset).fd ∷ [])),
  )

  add-Keeps :
      (conn : ℕ)
      → IsKept x s (add_connection conn s)
        ⊎ (total strays s.log < total strays (add_connection conn s).log)
  unfolding add_connection
  add-Keeps conn = elim (Bool-cases (ltb s.used (length s.fds))) [
    | inl fits ↦
        let free : s.used < length s.fds = ground arith in
        inl (
          add-IsBalanced x s room conn free,
          omega (arith, free, length-set s.fds s.used (watched conn)),
          rw fits (omega (arith, total-append strays s.log (accepted conn ∷ []))),
        )
    | inr full ↦ inr (
        rw full
          (omega (arith, total-append strays s.log (accepted conn ∷ stray_write s.used ∷ []))))
  ]

  read-IsKept : (i : ℕ) (bytes : List ℕ) → i < s.used → IsKept x s (read_from i bytes s)
  unfolding read_from
  read-IsKept i [] h = (refl, room, refl)
  read-IsKept i (b ∷ bs) h = (
    read-IsBalanced x s room i (b ∷ bs) h,
    omega (arith, length-set s.fds i (to_write (get_or s.fds i unset))),
    refl,
  )

  write-IsKept : (i : ℕ) → i < s.used → IsKept x s (write_to i s)
  unfolding write_to
  write-IsKept i h =
      let e = get_or s.fds i unset in
      (
        write-IsBalanced x s room i h,
        omega (arith, length-set s.fds i (to_read e)),
        omega (arith, total-append strays s.log (sent e.fd (s.mapdata e.fd) ∷ [])),
      )

-- What holds of the outcome of each branch holds of the outcome of the round.
pub round-cases :
    (Good : Option (ℕ × Server) → Type 0) (listenfd : ℕ) (a : Answer) (i : ℕ) (s : Server)
    → Good (some (i, drop_connection i s))
    → Good (accept_round i s a.accept)
    → Good (read_round i s a.recv)
    → Good (write_round i s a.send)
    → Good (some (i + 1, s))
    → Good (round listenfd a i s)
unfolding round
round-cases Good listenfd a i s dropped accepts reads writes same =
    elim (Bool-cases (e.revents.pollrdhup || e.revents.pollerr)) [
      | inl gone ↦ rw gone dropped
      | inr there ↦ rw there (elim (Bool-cases ((e.fd == listenfd) && e.revents.pollin)) [
        | inl listens ↦ rw listens accepts
        | inr other ↦ rw other (elim (Bool-cases e.revents.pollin) [
          | inl ready ↦ rw ready reads
          | inr quiet ↦ rw quiet (elim (Bool-cases e.revents.pollout) [
            | inl writable ↦ rw writable writes
            | inr idle ↦ rw idle same
          ])
        ])
      ])
    ]
  where
    e : PollFd
    e = get_or s.fds i unset

pub round-Keeps :
    (x listenfd : ℕ) (a : Answer) (i : ℕ) (s : Server)
    → i < s.used
    → s.used ≤ length s.fds
    → Keeps x s (round listenfd a i s)
round-Keeps x listenfd a i s h room =
    round-cases (Keeps x s) listenfd a i s (inl (drop-IsKept x s room i h)) (adds a.accept)
      (reads a.recv) (writes a.send) (inl (refl, room, refl))
  where
    adds : (r : Option ℕ) → Keeps x s (accept_round i s r)
    adds none = tt
    adds (some conn) = add-Keeps x s room conn

    reads : (r : Option (List ℕ)) → Keeps x s (read_round i s r)
    reads none = tt
    reads (some bytes) = inl (read-IsKept x s room i bytes h)

    writes : (r : SendResult) → Keeps x s (write_round i s r)
    writes ok = inl (write-IsKept x s room i h)
    writes reset = inl (refl, room, refl)
    writes failed = tt

-- The log only grows.
abbrev pub Grows : Server → Option (ℕ × Server) → Type 0
Grows s none = Unit
Grows s (some r) = total strays s.log ≤ total strays r.1.log

pub round-Grows : (listenfd : ℕ) (a : Answer) (i : ℕ) (s : Server) → Grows s (round listenfd a i s)
unfolding drop_connection add_connection read_from write_to
round-Grows listenfd a i s =
    round-cases (Grows s) listenfd a i s
      (omega (arith, total-append strays s.log (closed (get_or s.fds i unset).fd ∷ [])))
      (adds a.accept) (reads a.recv) (writes a.send) (omega arith)
  where
    adds : (r : Option ℕ) → Grows s (accept_round i s r)
    adds none = tt
    adds (some conn) = omega (
      arith,
      total-append strays s.log
          (accepted conn ∷ (if ltb s.used (length s.fds) then [] else stray_write s.used ∷ [])),
    )

    reads : (r : Option (List ℕ)) → Grows s (read_round i s r)
    reads none = tt
    reads (some []) = omega arith
    reads (some (b ∷ bs)) = omega arith

    writes : (r : SendResult) → Grows s (write_round i s r)
    writes ok =
        let e = get_or s.fds i unset in
        omega (arith, total-append strays s.log (sent e.fd (s.mapdata e.fd) ∷ []))
    writes reset = omega arith
    writes failed = tt
