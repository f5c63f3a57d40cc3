-- ===== src/PollServer/Ends.antt =====
-- The loop over the descriptors of socket/poll/poll.cpp ends, though it goes back after a removal
-- and grows with each new connection.
use codespaces_blank.Prelude.{
  ℕ, zero, suc, [], ◌∷◌, ◌&&◌, ◌==◌, length-set, ◌+◌, ◌-◌, ◌*◌, ◌≤◌, ◌<◌, ◌≡◌, ◌≢◌, ◌⊎◌, refl, ap,
  ◌∙◌, true, false, ◌||◌, List, arith, some, none, Option, inl, inr, Bool-cases, if◌then◌else◌, ltb,
  length, get_or, set, get_or-set_ne, get_or-set_self, get_or-set_cases, get_or_ge, dec_lt,
}
use codespaces_blank.PollServer.{
  PollFd, SendResult, watched, unset, Server, Answer, drop_connection, add_connection, read_from,
  write_to, to_write, to_read, ok, reset, failed, round, accept_round, read_round, write_round,
  exited, out_of_fuel, pass,
}

-- The sum of a measure over the `k` slots from `i`.
abbrev pub sum : (PollFd → ℕ) → List PollFd → (i k : ℕ) → ℕ
sum w l i zero = 0
sum w l i (suc k) = w (get_or l i unset) + sum w l (i + 1) k

pub sum-set_out :
    (w : PollFd → ℕ) (l : List PollFd) (j : ℕ) (v : PollFd) (i k : ℕ)
    → (j < i) ⊎ (i + k ≤ j)
    → sum w (set l j v) i k ≡ sum w l i k
sum-set_out w l j v i zero h = refl
sum-set_out w l j v i (suc k) h = omega (
  arith,
  ap w (get_or-set_ne l {i = j} {j = i} v unset (omega arith)),
  sum-set_out w l j v (i + 1) k (elim h [ inl a ↦ inl (omega arith) | inr a ↦ inr (omega arith) ]),
)

pub sum-last :
    (w : PollFd → ℕ) (l : List PollFd) (i k : ℕ)
    → sum w l i (suc k) ≡ sum w l i k + w (get_or l (i + k) unset)
sum-last w l i zero =
    let e : i ≡ i + 0 = omega arith in omega (arith, ap (λ n. w (get_or l n unset)) e)
sum-last w l i (suc k) =
    let e : i + 1 + k ≡ i + suc k = omega arith in
    omega (arith, sum-last w l (i + 1) k, ap (λ n. w (get_or l n unset)) e)

-- A slot that is ready costs up to two rounds, any other one.
abbrev pub weight : PollFd → ℕ
weight e =
    if e.revents.pollin || e.revents.pollout || e.revents.pollrdhup || e.revents.pollerr
    then 2
    else 1

-- What is left to do from slot `i`.
abbrev pub left : ℕ → Server → ℕ
left i s = sum weight s.fds i (s.used - i)

weight_pos : (e : PollFd) → 1 ≤ weight e
weight_pos e = ground arith

left-suc :
    (s : Server) (i k : ℕ)
    → s.used ≡ i + suc k
    → left i s ≡ weight (get_or s.fds i unset) + sum weight s.fds (i + 1) k
left-suc s i k h = let e : s.used - i ≡ suc k = omega arith in ap (sum weight s.fds i) e

-- A slot that is passed over, with the others as they were.
left-next :
    (s : Server) (i k : ℕ) (e : PollFd)
    → s.used ≡ i + suc k
    → left (i + 1) (record s { fds = set s.fds i e }) ≡ sum weight s.fds (i + 1) k
left-next s i k e h =
    let r : s.used - (i + 1) ≡ k = omega arith in
    ap (sum weight (set s.fds i e) (i + 1)) r
    ∙ sum-set_out weight s.fds i e (i + 1) k (inl (omega arith))

left-same :
    (s : Server) (i k : ℕ) → s.used ≡ i + suc k → left (i + 1) s ≡ sum weight s.fds (i + 1) k
left-same s i k h = let r : s.used - (i + 1) ≡ k = omega arith in ap (sum weight s.fds (i + 1)) r

left-drop : (s : Server) (i k : ℕ) → s.used ≡ i + suc k → left i (drop_connection i s) < left i s
unfolding drop_connection
left-drop s i zero h =
    let r : s.used - 1 - i ≡ 0 = omega arith in
    let last = get_or s.fds (s.used - 1) unset in
    omega (
      arith,
      left-suc s i 0 h,
      weight_pos (get_or s.fds i unset),
      ap (sum weight (set s.fds i last) i) r,
    )
left-drop s i (suc k) h =
    let r : s.used - 1 - i ≡ suc k = omega arith in
    let q : i + 1 + k ≡ s.used - 1 = omega arith in
    let last = get_or s.fds (s.used - 1) unset in
    let before = left-suc s i (suc k) h in
    let after = ap (sum weight (set s.fds i last) i) r in
    let others = sum-set_out weight s.fds i last (i + 1) k (inl (omega arith)) in
    let end = sum-last weight s.fds (i + 1) k in
    let same = ap (λ n. weight (get_or s.fds n unset)) q in
    elim (get_or-set_cases s.fds i i last unset) [
      | inl a ↦ omega (
        arith,
        before,
        after,
        others,
        end,
        same,
        ap weight a.1,
        weight_pos (get_or s.fds i unset),
      )
      | inr a ↦ omega (
        arith,
        before,
        after,
        others,
        end,
        ap weight a,
        weight_pos (get_or s.fds (i + 1 + k) unset),
      )
    ]

-- Behind the end of the array nothing is stored.
weight-watched :
    (l : List PollFd) (n conn : ℕ) → weight (get_or (set l n (watched conn)) n unset) ≡ 1
weight-watched l n conn = elim (dec_lt n (length l)) [
  | yes h ↦ ap weight (get_or-set_self l n (watched conn) unset h)
  | no h ↦
      ap weight
        (get_or_ge (set l n (watched conn)) n unset (omega (arith, length-set l n (watched conn))))
]

weight-ready : (e : PollFd) → e.revents.pollin ≡ true → weight e ≡ 2
weight-ready e h = ground arith

left-add :
    (s : Server) (i k conn : ℕ)
    → s.used ≡ i + suc k
    → (get_or s.fds i unset).revents.pollin ≡ true
    → left (i + 1) (add_connection conn s) < left i s
unfolding add_connection
left-add s i k conn h ready =
    let r : s.used + 1 - (i + 1) ≡ suc k = omega arith in
    let q : i + 1 + k ≡ s.used = omega arith in
    let l = set s.fds s.used (watched conn) in
    omega (
      arith,
      left-suc s i k h,
      weight-ready (get_or s.fds i unset) ready,
      ap (sum weight l (i + 1)) r,
      sum-last weight l (i + 1) k,
      ap (λ n. weight (get_or l n unset)) q,
      weight-watched s.fds s.used conn,
      sum-set_out weight s.fds s.used (watched conn) (i + 1) k (inr (omega arith)),
    )

-- Less than `m` is left to do after the round.
abbrev IsLess : ℕ → Option (ℕ × Server) → Type 0
IsLess m none = Unit
IsLess m (some r) = left r.0 r.1 < m

-- A slot that is passed over.
left-on : (s : Server) (i k : ℕ) → s.used ≡ i + suc k → left (i + 1) s < left i s
left-on s i k h =
    omega (arith, left-suc s i k h, left-same s i k h, weight_pos (get_or s.fds i unset))

left-read :
    (s : Server) (i k : ℕ) (bytes : List ℕ)
    → s.used ≡ i + suc k
    → left (i + 1) (read_from i bytes s) < left i s
unfolding read_from
left-read s i k [] h = left-on s i k h
left-read s i k (b ∷ bs) h = omega (
  arith,
  left-suc s i k h,
  left-next s i k (to_write (get_or s.fds i unset)) h,
  weight_pos (get_or s.fds i unset),
)

left-write : (s : Server) (i k : ℕ) → s.used ≡ i + suc k → left (i + 1) (write_to i s) < left i s
unfolding write_to
left-write s i k h = omega (
  arith,
  left-suc s i k h,
  left-next s i k (to_read (get_or s.fds i unset)) h,
  weight_pos (get_or s.fds i unset),
)

-- Every round brings the pass nearer to its end.
round-IsLess :
    (listenfd : ℕ) (a : Answer) (i : ℕ) (s : Server)
    → i < s.used
    → IsLess (left i s) (round listenfd a i s)
unfolding round
round-IsLess listenfd a i s h = elim (Bool-cases (e.revents.pollrdhup || e.revents.pollerr)) [
  | inl gone ↦ rw gone (left-drop s i k used)
  | inr there ↦ rw there (elim (Bool-cases e.revents.pollin) [
    | inl ready ↦ rw ready (elim (Bool-cases ((e.fd == listenfd) && true)) [
      | inl listens ↦ rw listens (accepts ready a.accept)
      | inr other ↦ rw other (reads a.recv)
    ])
    | inr quiet ↦ rw quiet (elim (Bool-cases ((e.fd == listenfd) && false)) [
      | inl listens ↦ absurd (ground arith)
      | inr other ↦ rw other (elim (Bool-cases e.revents.pollout) [
        | inl writable ↦ rw writable (writes a.send)
        | inr idle ↦ rw idle (left-on s i k used)
      ])
    ])
  ])
]
  where
    e : PollFd
    e = get_or s.fds i unset

    k : ℕ
    k = s.used - i - 1

    used : s.used ≡ i + suc k
    used = omega arith

    accepts : e.revents.pollin ≡ true → (r : Option ℕ) → IsLess (left i s) (accept_round i s r)
    accepts ready none = tt
    accepts ready (some conn) = left-add s i k conn used ready

    reads : (r : Option (List ℕ)) → IsLess (left i s) (read_round i s r)
    reads none = tt
    reads (some bytes) = left-read s i k bytes used

    writes : (r : SendResult) → IsLess (left i s) (write_round i s r)
    writes ok = left-write s i k used
    writes reset = left-on s i k used
    writes failed = tt

pass-ends :
    (n listenfd : ℕ) (a : ℕ → Answer) (i : ℕ) (s : Server)
    → left i s < n
    → pass n listenfd a i s ≢ out_of_fuel
unfolding pass
pass-ends zero listenfd a i s h = absurd (omega arith)
pass-ends (suc n) listenfd a i s h = elim (Bool-cases (ltb i s.used)) [
  | inr over ↦ rw over (λ e. cc)
  | inl more ↦ rw more (
      goes (λ j t. pass-ends n listenfd a j t) (round listenfd (a n) i s)
        (round-IsLess listenfd (a n) i s (ground arith)))
]
  where
    goes :
        ((j : ℕ) (t : Server) → left j t < n → pass n listenfd a j t ≢ out_of_fuel)
        → (r : Option (ℕ × Server)) → IsLess (left i s) r
        → (elim r [ none ↦ exited | some t ↦ pass n listenfd a t.0 t.1 ]) ≢ out_of_fuel
    goes rest none l = λ e. cc
    goes rest (some t) l = rest t.0 t.1 (omega arith)

sum-le : (l : List PollFd) (i k : ℕ) → sum weight l i k ≤ 2 * k
sum-le l i zero = omega arith
sum-le l i (suc k) = omega (arith, sum-le l (i + 1) k, one (get_or l i unset))
  where
    one : (e : PollFd) → weight e ≤ 2
    one e = ground arith

-- A pass over the `used` descriptors ends within `2 * used` rounds, whatever is ready and whatever
-- the system calls answer: with more fuel than that it does not run out.
pub pass_ends :
    (n listenfd : ℕ) (a : ℕ → Answer) (s : Server)
    → 2 * s.used < n
    → pass n listenfd a 0 s ≢ out_of_fuel
pass_ends n listenfd a s h = pass-ends n listenfd a 0 s (omega (arith, sum-le s.fds 0 (s.used - 0)))
