-- ===== src/PollServer/Balance.antt =====
-- No connection of socket/poll/poll.cpp gets lost or is kept twice by the parts of a round.
use codespaces_blank.Prelude.{
  ℕ, zero, suc, ◌+◌, ◌-◌, ◌≤◌, ◌<◌, ◌≡◌, refl, ap, ◌∙◌, true, ◌==◌, List, [], ◌∷◌, arith, inl, inr,
  if◌then◌else◌, ltb, length, get_or, set, get_or-set_ne, get_or-set_self, ℕ_discrete, total,
  total-append,
}
use codespaces_blank.PollServer.{
  PollFd, watched, unset, Server, Call, accepted, closed, sent, drop_connection, add_connection,
  read_from, write_to, to_write, to_read,
}
use codespaces_blank.PollServer.Ends.{sum, sum-set_out, sum-last}

pub sum-set :
    (w : PollFd → ℕ) (l : List PollFd) (j : ℕ) (v : PollFd) (i k : ℕ)
    → i ≤ j
    → j < i + k
    → j < length l
    → sum w (set l j v) i k + w (get_or l j unset) ≡ sum w l i k + w v
sum-set w l j v i zero a b h = absurd (omega arith)
sum-set w l j v i (suc k) a b h = elim (ℕ_discrete i j) [
  | yes e ↦ rw e (
      omega (
        arith,
        ap w (get_or-set_self l j v unset h),
        sum-set_out w l j v (j + 1) k (inl (omega arith)),
      ))
  | no ne ↦ omega (
    arith,
    sum-set w l j v (i + 1) k (omega arith) (omega arith) h,
    ap w (get_or-set_ne l {i = j} {j = i} v unset (omega arith)),
  )
]

-- Whether the entry is for descriptor `x`, and what the log says of that.
abbrev pub is_for : ℕ → PollFd → ℕ
is_for x e = if e.fd == x then 1 else 0

abbrev pub closes : ℕ → Call → ℕ
closes x (closed fd) = if fd == x then 1 else 0
closes x _ = 0

abbrev pub accepts : ℕ → Call → ℕ
accepts x (accepted fd) = if fd == x then 1 else 0
accepts x _ = 0

-- How often `x` is among the descriptors in use.
abbrev pub held : ℕ → Server → ℕ
held x s = sum (is_for x) s.fds 0 s.used

-- The descriptors in use change by what is accepted and what is closed.
abbrev pub IsBalanced : ℕ → Server → Server → Type 0
IsBalanced x s t =
    held x t + total (closes x) t.log + total (accepts x) s.log
    ≡ held x s + total (closes x) s.log + total (accepts x) t.log

module _ (x : ℕ) (s : Server) (room : s.used ≤ length s.fds) where
  pub drop-IsBalanced : (i : ℕ) → i < s.used → IsBalanced x s (drop_connection i s)
  unfolding drop_connection
  drop-IsBalanced i h =
      let e = get_or s.fds i unset in
      let last = get_or s.fds (s.used - 1) unset in
      let r : s.used ≡ suc (s.used - 1) = omega arith in
      let all = ap (sum (is_for x) s.fds 0) r ∙ sum-last (is_for x) s.fds 0 (s.used - 1) in
      let q : 0 + (s.used - 1) ≡ s.used - 1 = omega arith in
      let named = ap (λ n. is_for x (get_or s.fds n unset)) q in
      let c = total-append (closes x) s.log (closed e.fd ∷ []) in
      let a = total-append (accepts x) s.log (closed e.fd ∷ []) in
      elim (ℕ_discrete i (s.used - 1)) [
        | yes at_end ↦ omega (
          arith,
          all,
          named,
          c,
          a,
          ap (λ n. is_for x (get_or s.fds n unset)) at_end,
          sum-set_out (is_for x) s.fds i last 0 (s.used - 1) (inr (omega arith)),
        )
        | no before ↦ omega (
          arith,
          all,
          named,
          c,
          a,
          sum-set (is_for x) s.fds i last 0 (s.used - 1) (omega arith) (omega arith) (omega arith),
        )
      ]

  pub add-IsBalanced : (conn : ℕ) → s.used < length s.fds → IsBalanced x s (add_connection conn s)
  unfolding add_connection
  add-IsBalanced conn free =
      let fits : ltb s.used (length s.fds) ≡ true = ground arith in
      let r : s.used + 1 ≡ suc s.used = omega arith in
      let q : 0 + s.used ≡ s.used = omega arith in
      let l = set s.fds s.used (watched conn) in
      rw fits (
        omega (
          arith,
          ap (sum (is_for x) l 0) r ∙ sum-last (is_for x) l 0 s.used,
          ap (λ n. is_for x (get_or l n unset)) q,
          ap (is_for x) (get_or-set_self s.fds s.used (watched conn) unset free),
          sum-set_out (is_for x) s.fds s.used (watched conn) 0 s.used (inr (omega arith)),
          total-append (closes x) s.log (accepted conn ∷ []),
          total-append (accepts x) s.log (accepted conn ∷ []),
        ))

  set-IsBalanced :
      (i : ℕ) (e : PollFd)
      → i < s.used
      → e.fd ≡ (get_or s.fds i unset).fd
      → sum (is_for x) (set s.fds i e) 0 s.used ≡ held x s
  set-IsBalanced i e h same = omega (
    arith,
    sum-set (is_for x) s.fds i e 0 s.used (omega arith) (omega arith) (omega arith),
    ap {B = ℕ} (λ k. if k == x then 1 else 0) same,
  )

  pub read-IsBalanced : (i : ℕ) (bytes : List ℕ) → i < s.used → IsBalanced x s (read_from i bytes s)
  unfolding read_from
  read-IsBalanced i [] h = refl
  read-IsBalanced i (b ∷ bs) h =
      omega (arith, set-IsBalanced i (to_write (get_or s.fds i unset)) h refl)

  pub write-IsBalanced : (i : ℕ) → i < s.used → IsBalanced x s (write_to i s)
  unfolding write_to
  write-IsBalanced i h =
      let e = get_or s.fds i unset in
      omega (
        arith,
        set-IsBalanced i (to_read e) h refl,
        total-append (closes x) s.log (sent e.fd (s.mapdata e.fd) ∷ []),
        total-append (accepts x) s.log (sent e.fd (s.mapdata e.fd) ∷ []),
      )
