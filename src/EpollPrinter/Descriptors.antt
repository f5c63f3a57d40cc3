-- ===== src/EpollPrinter/Descriptors.antt =====
-- Which descriptors the server of socket/epoll/CS_socket/server.cpp watches, and which stay open.
use codespaces_blank.Prelude.{
  ℕ, ◌≡◌, ◌≢◌, refl, sym, subst, ap, ◌∙◌, Bool, true, false, List, [], ◌∷◌, Option, none, some,
  ◌==◌, Bool-cases, arith, inl, inr,
}
use codespaces_blank.EpollPrinter.{
  Server, listening, Ready, accept_client, read_client, handle, handle_all, serve,
}

-- What the kernel promises of a ready event: `epoll` had its descriptor when it was asked, and
-- `accept` returns a descriptor that is not open.
pub record IsHonest (asked s : Server) (r : Ready) : Type 0 where
  pub reported : asked.registered r.fd ≡ true
  pub unused : (c : ℕ) → r.accepted ≡ some c → s.opened c ≡ false

abbrev pub HonestTurn : (listenfd : ℕ) (asked s : Server) → List Ready → Type 0
HonestTurn listenfd asked s [] = Unit
HonestTurn listenfd asked s (r ∷ rs) =
    IsHonest asked s r × HonestTurn listenfd asked (handle listenfd r s) rs

abbrev pub HonestTurns : (listenfd : ℕ) (s : Server) → List (List Ready) → Type 0
HonestTurns listenfd s [] = Unit
HonestTurns listenfd s (rs ∷ turns) =
    HonestTurn listenfd s s rs × HonestTurns listenfd (handle_all listenfd rs s) turns

-- Every descriptor that is watched is open.
abbrev pub IsSound : Server → Type 0
IsSound s = (d : ℕ) → s.registered d ≡ true → s.opened d ≡ true

-- The descriptor is open and not watched.
abbrev pub IsLeaked : ℕ → Server → Type 0
IsLeaked d s = (s.registered d ≡ false) × (s.opened d ≡ true)

accept_client-IsSound : (a : Option ℕ) (s : Server) → IsSound s → IsSound (accept_client a s)
unfolding accept_client
accept_client-IsSound none s h = h
accept_client-IsSound (some c) s h = λ d w. ground (arith, h d)

read_client-IsSound :
    (fd : ℕ) (b : Option (List ℕ)) (s : Server) → IsSound s → IsSound (read_client fd b s)
unfolding read_client
read_client-IsSound fd none s h = λ d w. ground (arith, h d)
read_client-IsSound fd (some []) s h = λ d w. ground (arith, h d)
read_client-IsSound fd (some (b ∷ bs)) s h = h

handle-IsSound : (listenfd : ℕ) (r : Ready) (s : Server) → IsSound s → IsSound (handle listenfd r s)
unfolding handle
handle-IsSound listenfd r s h = elim (Bool-cases r.writable) [
  | inl out ↦ rw out h
  | inr in_ ↦ rw in_ (elim (Bool-cases (r.fd == listenfd)) [
    | inl new ↦ rw new (accept_client-IsSound r.accepted s h)
    | inr old ↦ rw old (read_client-IsSound r.fd r.bytes s h)
  ])
]

handle_all-IsSound :
    (listenfd : ℕ) (rs : List Ready) (s : Server) → IsSound s → IsSound (handle_all listenfd rs s)
unfolding handle_all
handle_all-IsSound listenfd [] s h = h
handle_all-IsSound listenfd (r ∷ rs) s h =
    handle_all-IsSound listenfd rs (handle listenfd r s) (handle-IsSound listenfd r s h)

serve-IsSound :
    (listenfd : ℕ) (turns : List (List Ready)) (s : Server)
    → IsSound s
    → IsSound (serve listenfd turns s)
unfolding serve
serve-IsSound listenfd [] s h = h
serve-IsSound listenfd (rs ∷ turns) s h =
    serve-IsSound listenfd turns (handle_all listenfd rs s) (handle_all-IsSound listenfd rs s h)

-- From the start of the loop, through any turns and whatever the system calls return: every
-- descriptor that `epoll` has is open.
pub watched_are_open :
    (listenfd : ℕ) (opened : ℕ → Bool) (turns : List (List Ready)) (d : ℕ)
    → (serve listenfd turns (listening listenfd opened)).registered d ≡ true
    → (serve listenfd turns (listening listenfd opened)).opened d ≡ true
watched_are_open listenfd opened turns d =
    serve-IsSound listenfd turns (listening listenfd opened) (λ i w. ground (arith, w)) d

accept_client-IsLeaked :
    (d : ℕ) (a : Option ℕ) (s : Server)
    → ((c : ℕ) → a ≡ some c → s.opened c ≡ false)
    → IsLeaked d s
    → IsLeaked d (accept_client a s)
unfolding accept_client
accept_client-IsLeaked d none s h k = k
accept_client-IsLeaked d (some c) s h k = ground (arith, k, h c refl)

read_client-IsLeaked :
    (d fd : ℕ) (b : Option (List ℕ)) (s : Server)
    → fd ≢ d
    → IsLeaked d s
    → IsLeaked d (read_client fd b s)
unfolding read_client
read_client-IsLeaked d fd none s ne k = ground (arith, k)
read_client-IsLeaked d fd (some []) s ne k = ground (arith, k)
read_client-IsLeaked d fd (some (b ∷ bs)) s ne k = k

handle-IsLeaked :
    (listenfd d : ℕ) (r : Ready) (s : Server)
    → ((c : ℕ) → r.accepted ≡ some c → s.opened c ≡ false)
    → r.fd ≢ d
    → IsLeaked d s
    → IsLeaked d (handle listenfd r s)
unfolding handle
handle-IsLeaked listenfd d r s h ne k = elim (Bool-cases r.writable) [
  | inl out ↦ rw out k
  | inr in_ ↦ rw in_ (elim (Bool-cases (r.fd == listenfd)) [
    | inl new ↦ rw new (accept_client-IsLeaked d r.accepted s h k)
    | inr old ↦ rw old (read_client-IsLeaked d r.fd r.bytes s ne k)
  ])
]

-- No event is for the descriptor.
abbrev pub NoneFor : ℕ → List Ready → Type 0
NoneFor d [] = Unit
NoneFor d (r ∷ rs) = (r.fd ≢ d) × NoneFor d rs

handle_all-IsLeaked :
    (listenfd d : ℕ) (rs : List Ready) (asked s : Server)
    → HonestTurn listenfd asked s rs
    → NoneFor d rs
    → IsLeaked d s
    → IsLeaked d (handle_all listenfd rs s)
unfolding handle_all
handle_all-IsLeaked listenfd d [] asked s h n k = k
handle_all-IsLeaked listenfd d (r ∷ rs) asked s h n k =
    handle_all-IsLeaked listenfd d rs asked (handle listenfd r s) h.1 n.1
      (handle-IsLeaked listenfd d r s h.0.unused n.0 k)

-- `epoll` does not report what it does not have.
honest-NoneFor :
    (listenfd d : ℕ) (rs : List Ready) (asked s : Server)
    → HonestTurn listenfd asked s rs
    → asked.registered d ≡ false
    → NoneFor d rs
honest-NoneFor listenfd d [] asked s h off = tt
honest-NoneFor listenfd d (r ∷ rs) asked s h off = (
  λ e. ground (arith, sym h.0.reported ∙ ap asked.registered e ∙ off),
  honest-NoneFor listenfd d rs asked (handle listenfd r s) h.1 off,
)

serve-IsLeaked :
    (listenfd d : ℕ) (turns : List (List Ready)) (s : Server)
    → HonestTurns listenfd s turns
    → IsLeaked d s
    → IsLeaked d (serve listenfd turns s)
unfolding serve
serve-IsLeaked listenfd d [] s h k = k
serve-IsLeaked listenfd d (rs ∷ turns) s h k =
    serve-IsLeaked listenfd d turns (handle_all listenfd rs s) h.1
      (handle_all-IsLeaked listenfd d rs s s h.0 (honest-NoneFor listenfd d rs s s h.0 k.0) k)

read_ended : (fd : ℕ) (s : Server) → s.opened fd ≡ true → IsLeaked fd (read_client fd (some []) s)
unfolding read_client
read_ended fd s open_ = ground (arith, open_)

handle_ended :
    (listenfd : ℕ) (r : Ready) (s : Server)
    → r.writable ≡ false
    → r.fd ≢ listenfd
    → r.bytes ≡ some []
    → s.opened r.fd ≡ true
    → IsLeaked r.fd (handle listenfd r s)
unfolding handle
handle_ended listenfd r s in_ ne ended open_ = elim (Bool-cases (r.fd == listenfd)) [
  | inl new ↦ absurd (ground (arith, new, ne))
  | inr old ↦
      simp (in_, old)
        (subst (λ b. IsLeaked r.fd (read_client r.fd b s)) (sym ended) (read_ended r.fd s open_))
]

-- A client, whose descriptor is open, ends its connection, so that `read` returns 0 for an event
-- without EPOLLOUT. If `epoll` reports a descriptor once in a turn and only what it has, and
-- `accept` returns only descriptors that are not open, then after the rest of this turn and any
-- further turns the client's descriptor is not watched and still open: it is never closed.
pub ended_client_leaks :
    (listenfd : ℕ) (r : Ready) (rs : List Ready) (turns : List (List Ready)) (asked s : Server)
    → r.writable ≡ false
    → r.fd ≢ listenfd
    → r.bytes ≡ some []
    → s.opened r.fd ≡ true
    → HonestTurn listenfd asked (handle listenfd r s) rs
    → NoneFor r.fd rs
    → HonestTurns listenfd (handle_all listenfd rs (handle listenfd r s)) turns
    → IsLeaked r.fd (serve listenfd turns (handle_all listenfd (r ∷ rs) s))
unfolding handle_all
ended_client_leaks listenfd r rs turns asked s in_ ne ended open_ h n more =
    serve-IsLeaked listenfd r.fd turns (handle_all listenfd rs (handle listenfd r s)) more (
      handle_all-IsLeaked listenfd r.fd rs asked (handle listenfd r s) h n
        (handle_ended listenfd r s in_ ne ended open_))
