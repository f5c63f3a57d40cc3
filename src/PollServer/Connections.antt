-- ===== src/PollServer/Connections.antt =====
-- The connections of socket/poll/poll.cpp without the order of its array: a removal fills the slot
-- from the end.
use mathlib.Core.Quot
use codespaces_blank.Prelude.{
  ℕ, zero, suc, ◌+◌, ◌≤◌, ◌<◌, ◌≡◌, refl, true, ◌⊎◌, sym, subst, ap, ◌∙◌, List, [], ◌∷◌, ◌++◌,
  append-nil, Option, none, some, arith, length, get_or, total, total-append, Bag, of_list, put,
  is_number, Bool-cases, inl, inr, ltb,
}
use codespaces_blank.PollServer.{
  PollFd, unset, Call, Server, Answer, SendResult, ok, reset, failed, stray_write, accepted, closed,
  sent, drop_connection, add_connection, read_from, write_to, round, accept_round, read_round,
  write_round,
}
use codespaces_blank.PollServer.Ends.{sum}
use codespaces_blank.PollServer.Balance.{
  held, is_for, closes, accepts, drop-IsBalanced, add-IsBalanced, read-IsBalanced, write-IsBalanced,
}
use codespaces_blank.PollServer.Rounds.{strays, round-cases}

-- The descriptors of the `k` slots from `i`.
abbrev pub descriptors : List PollFd → (i k : ℕ) → List ℕ
descriptors l i zero = []
descriptors l i (suc k) = (get_or l i unset).fd ∷ descriptors l (i + 1) k

abbrev pub connections : Server → Bag
connections s = of_list (descriptors s.fds 0 s.used)

total-descriptors :
    (x : ℕ) (l : List PollFd) (i k : ℕ)
    → total (is_number x) (descriptors l i k) ≡ sum (is_for x) l i k
total-descriptors x l i zero = refl
total-descriptors x l i (suc k) = omega (arith, total-descriptors x l (i + 1) k)

held-number : (x : ℕ) (s : Server) → total (is_number x) (descriptors s.fds 0 s.used) ≡ held x s
held-number x s = total-descriptors x s.fds 0 s.used

-- The same descriptors, as often.
same-connections : (s t : Server) → ((x : ℕ) → held x t ≡ held x s) → connections s ≡ connections t
same-connections s t h = Quot.sound (λ x. held-number x s ∙ sym (h x) ∙ sym (held-number x t))

one-more :
    (n : ℕ) (s t : Server)
    → ((x : ℕ) → held x t ≡ is_number x n + held x s)
    → put n (connections s) ≡ connections t
unfolding put
one-more n s t h = Quot.sound (λ x. omega (arith, held-number x s, h x, held-number x t))

-- What a server without an array does to its connections, with the calls that it makes: it opens
-- one, closes one of them, sends to one of them, or does nothing.
pub data Serves (b : Bag) : List Call → Bag → Type 0 where
  opens : (fd : ℕ) → Serves b (accepted fd ∷ []) (put fd b)
  shuts : (fd : ℕ) (c : Bag) → b ≡ put fd c → Serves b (closed fd ∷ []) c
  replies : (fd : ℕ) (bytes : List ℕ) (c : Bag) → b ≡ put fd c → Serves b (sent fd bytes ∷ []) b
  rests : Serves b [] b

-- The calls that are new in the log of `t`.
abbrev pub ServesAs : Server → Server → Type 0
ServesAs s t =
    (calls : List Call) × (t.log ≡ s.log ++ calls) × Serves (connections s) calls (connections t)

no_call : (s t : Server) → t.log ≡ s.log → connections s ≡ connections t → ServesAs s t
no_call s t l e = ([], l ∙ sym (append-nil s.log), subst (Serves (connections s) []) e rests)

module _ (s : Server) (room : s.used ≤ length s.fds) where
  -- The descriptor of a slot, taken out.
  taken_out :
      (i : ℕ)
      → i < s.used
      → connections s ≡ put (get_or s.fds i unset).fd (connections (drop_connection i s))
  unfolding drop_connection
  taken_out i h =
      let fd = (get_or s.fds i unset).fd in
      sym (
        one-more fd (drop_connection i s) s (λ x. omega (
          arith,
          drop-IsBalanced x s room i h,
          total-append (closes x) s.log (closed fd ∷ []),
          total-append (accepts x) s.log (closed fd ∷ []),
        )))

  drop-step : (i : ℕ) → i < s.used → ServesAs s (drop_connection i s)
  unfolding drop_connection
  drop-step i h =
      let fd = (get_or s.fds i unset).fd in
      (closed fd ∷ [], refl, shuts fd (connections (drop_connection i s)) (taken_out i h))

  add-step : (conn : ℕ) → s.used < length s.fds → ServesAs s (add_connection conn s)
  unfolding add_connection
  add-step conn free =
      let fits : ltb s.used (length s.fds) ≡ true = ground arith in
      let grown : (add_connection conn s).log ≡ s.log ++ (accepted conn ∷ []) = rw fits refl in
      (
        accepted conn ∷ [],
        grown,
        subst (Serves (connections s) (accepted conn ∷ []))
            (one-more conn s (add_connection conn s) (λ x. omega (
              arith,
              add-IsBalanced x s room conn free,
              ap (total (closes x)) grown ∙ total-append (closes x) s.log (accepted conn ∷ []),
              ap (total (accepts x)) grown ∙ total-append (accepts x) s.log (accepted conn ∷ []),
            )))
            (opens conn),
      )

  read-step : (i : ℕ) (bytes : List ℕ) → i < s.used → ServesAs s (read_from i bytes s)
  unfolding read_from
  read-step i [] h = no_call s s refl refl
  read-step i (b ∷ bs) h = no_call s (read_from i (b ∷ bs) s) refl (
      same-connections s (read_from i (b ∷ bs) s)
        (λ x. omega (arith, read-IsBalanced x s room i (b ∷ bs) h)))

  write-step : (i : ℕ) → i < s.used → ServesAs s (write_to i s)
  unfolding write_to
  write-step i h =
      let e = get_or s.fds i unset in
      let l = sent e.fd (s.mapdata e.fd) in
      (
        l ∷ [],
        refl,
        subst (Serves (connections s) (l ∷ []))
            (same-connections s (write_to i s) (λ x. omega (
              arith,
              write-IsBalanced x s room i h,
              total-append (closes x) s.log (l ∷ []),
              total-append (accepts x) s.log (l ∷ []),
            )))
            (replies e.fd (s.mapdata e.fd) (connections (drop_connection i s)) (taken_out i h)),
      )

-- Whether a call fails for which the program exits.
abbrev pub IsFailed : Answer → Type 0
IsFailed a = (a.accept ≡ none) ⊎ ((a.recv ≡ none) ⊎ (a.send ≡ failed))

-- What a round may do: it exits after a call that failed, or serves, or stores behind the end of an
-- array that is full.
abbrev pub Refines : Answer → Server → Option (ℕ × Server) → Type 0
Refines a s none = IsFailed a
Refines a s (some r) =
    ServesAs s r.1 ⊎ ((s.used ≡ length s.fds) × (total strays s.log < total strays r.1.log))

add-Refines :
    (a : Answer) (conn i : ℕ) (s : Server)
    → s.used ≤ length s.fds
    → Refines a s (accept_round i s (some conn))
unfolding add_connection
add-Refines a conn i s room = elim (Bool-cases (ltb s.used (length s.fds))) [
  | inl fits ↦ inl (add-step s room conn (ground arith))
  | inr full ↦
      let all_used : s.used ≡ length s.fds = ground arith in
      inr (
        all_used,
        rw full
            (omega (arith, total-append strays s.log (accepted conn ∷ stray_write s.used ∷ []))),
      )
]

-- The connections as a collection without an order: a round for a slot in use, in an array that
-- holds all that is counted, exits, where a call has failed; or stores behind the end of the array,
-- where that is full; or does what a server does that has the collection only, with the calls that it
-- adds to its log: it accepts a connection and puts it in, closes one that was in and takes it out,
-- sends bytes to one that is in, or does nothing.
pub round-Refines :
    (listenfd : ℕ) (a : Answer) (i : ℕ) (s : Server)
    → i < s.used
    → s.used ≤ length s.fds
    → Refines a s (round listenfd a i s)
round-Refines listenfd a i s h room =
    round-cases (Refines a s) listenfd a i s (inl (drop-step s room i h)) (adds a.accept refl)
      (reads a.recv refl) (writes a.send refl) (inl (no_call s s refl refl))
  where
    adds : (r : Option ℕ) → a.accept ≡ r → Refines a s (accept_round i s r)
    adds none e = inl e
    adds (some conn) e = add-Refines a conn i s room

    reads : (r : Option (List ℕ)) → a.recv ≡ r → Refines a s (read_round i s r)
    reads none e = inr (inl e)
    reads (some bytes) e = inl (read-step s room i bytes h)

    writes : (r : SendResult) → a.send ≡ r → Refines a s (write_round i s r)
    writes ok e = inl (write-step s room i h)
    writes reset e = inl (no_call s s refl refl)
    writes failed e = inr (inr e)
