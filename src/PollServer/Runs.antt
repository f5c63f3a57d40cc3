-- ===== src/PollServer/Runs.antt =====
-- The connections of socket/poll/poll.cpp over any number of calls of `poll`.
use codespaces_blank.Prelude.{
  ℕ, zero, suc, ◌+◌, ◌*◌, ◌≤◌, ◌≡◌, ◌≢◌, refl, ap, subst, List, [], ◌∷◌, arith, inl, inr,
  if◌then◌else◌, ◌==◌, length, length-set, get_or, set, total,
}
use codespaces_blank.PollServer.{
  Mask, unset, Server, initial_server, Passed, exited, out_of_fuel, done, pass, polled, Turn, serve,
}
use codespaces_blank.PollServer.Ends.{pass_ends}
use codespaces_blank.PollServer.Balance.{sum-set, is_for, held, closes, accepts}
use codespaces_blank.PollServer.Rounds.{strays, IsKept}
use codespaces_blank.PollServer.Passes.{
  PassKeeps, PassGrows, grows-then, kept-then, stray-then, pass-Grows, pass-Keeps,
}

-- `poll` changes neither the descriptors nor the log.
polled-IsKept :
    (x : ℕ) (m : ℕ → Mask) (n : ℕ) (s : Server)
    → n ≤ s.used
    → s.used ≤ length s.fds
    → IsKept x s (polled m n s)
unfolding polled
polled-IsKept x m zero s h room = (refl, room, refl)
polled-IsKept x m (suc n) s h room =
    let e = get_or s.fds n unset in
    let v = record e { revents = m n } in
    let size = length-set s.fds n v in
    let (b, r, q) =
      polled-IsKept x m n (record s { fds = set s.fds n v }) (omega arith) (omega (arith, size)) in
    (
      omega (
        arith,
        b,
        sum-set (is_for x) s.fds n v 0 s.used (omega arith) (omega arith) (omega arith),
      ),
      r,
      q,
    )

polled-log : (m : ℕ → Mask) (n : ℕ) (s : Server) → (polled m n s).log ≡ s.log
unfolding polled
polled-log m zero s = refl
polled-log m (suc n) s =
    polled-log m n
      (record s { fds = set s.fds n (record (get_or s.fds n unset) { revents = m n }) })

polled-used : (m : ℕ → Mask) (n : ℕ) (s : Server) → (polled m n s).used ≡ s.used
unfolding polled
polled-used m zero s = refl
polled-used m (suc n) s =
    polled-used m n
      (record s { fds = set s.fds n (record (get_or s.fds n unset) { revents = m n }) })

module _ (listenfd : ℕ) where
  serve-Grows : (turns : List Turn) (s : Server) → PassGrows s (serve listenfd turns s)
  unfolding serve
  serve-Grows [] s = omega arith
  serve-Grows (c ∷ turns) s =
      let u = polled c.found s.used s in
      then_ (serve-Grows turns) u (ap (total strays) (polled-log c.found s.used s))
        (pass (2 * s.used + 1) listenfd c.answers 0 u)
        (pass-Grows listenfd c.answers (2 * s.used + 1) 0 u)
    where
      then_ :
          ((t : Server) → PassGrows t (serve listenfd turns t))
          → (u : Server) → total strays u.log ≡ total strays s.log
          → (p : Passed) → PassGrows u p
          → PassGrows s (elim p [
            | exited ↦ exited
            | out_of_fuel ↦ out_of_fuel
            | done t ↦ serve listenfd turns t
          ])
      then_ rest u e exited g = tt
      then_ rest u e out_of_fuel g = tt
      then_ rest u e (done t) g =
          grows-then s t (serve listenfd turns t) (omega (arith, e, g)) (rest t)

  serve-Keeps :
      (x : ℕ) (turns : List Turn) (s : Server)
      → s.used ≤ length s.fds
      → PassKeeps x s (serve listenfd turns s)
  unfolding serve
  serve-Keeps x [] s room = inl (refl, room, refl)
  serve-Keeps x (c ∷ turns) s room =
      let u = polled c.found s.used s in
      let kept = polled-IsKept x c.found s.used s (omega arith) room in
      then_ (serve-Keeps x turns) u kept (pass (2 * s.used + 1) listenfd c.answers 0 u)
        (pass-Keeps listenfd c.answers x (2 * s.used + 1) 0 u kept.1)
    where
      then_ :
          ((t : Server) → t.used ≤ length t.fds → PassKeeps x t (serve listenfd turns t))
          → (u : Server) → IsKept x s u
          → (p : Passed) → PassKeeps x u p
          → PassKeeps x s (elim p [
            | exited ↦ exited
            | out_of_fuel ↦ out_of_fuel
            | done t ↦ serve listenfd turns t
          ])
      then_ rest u e exited g = tt
      then_ rest u e out_of_fuel g = tt
      then_ rest u e (done t) (inl g) =
          kept-then x s u (serve listenfd turns t) e
            (kept-then x u t (serve listenfd turns t) g (rest t g.1))
      then_ rest u e (done t) (inr g) =
          stray-then x s t (serve listenfd turns t) (omega (arith, e, g)) (serve-Grows turns t)

  serve-ends : (turns : List Turn) (s : Server) → serve listenfd turns s ≢ out_of_fuel
  unfolding serve
  serve-ends [] s = λ e. cc
  serve-ends (c ∷ turns) s =
      let u = polled c.found s.used s in
      then_ (serve-ends turns) (pass (2 * s.used + 1) listenfd c.answers 0 u) (
        pass_ends (2 * s.used + 1) listenfd c.answers u
          (omega (arith, polled-used c.found s.used s)))
    where
      then_ :
          ((t : Server) → serve listenfd turns t ≢ out_of_fuel)
          → (p : Passed) → p ≢ out_of_fuel
          → (elim p [
            | exited ↦ exited
            | out_of_fuel ↦ out_of_fuel
            | done t ↦ serve listenfd turns t
          ])
            ≢ out_of_fuel
      then_ rest exited ne = ne
      then_ rest out_of_fuel ne = ne
      then_ rest (done t) ne = rest t

held-initial_server :
    (x listenfd : ℕ) → held x (initial_server listenfd) ≡ (if listenfd == x then 1 else 0)
held-initial_server x listenfd = omega arith

-- From the start of `main`, over any number of calls of `poll`, whatever it finds and whatever the
-- other system calls answer: as long as the program has not exited and nothing was stored behind
-- the array, each descriptor is among those in use as often as it was accepted and not closed, and
-- the listening socket once more; and the array holds all that is counted.
pub connections_balance :
    (x listenfd : ℕ) (turns : List Turn) (t : Server)
    → serve listenfd turns (initial_server listenfd) ≡ done t
    → total strays t.log ≡ 0
    → (held x t + total (closes x) t.log
        ≡ (if listenfd == x then 1 else 0) + total (accepts x) t.log)
      × (t.used ≤ length t.fds)
connections_balance x listenfd turns t e none_stray =
    elim (subst (PassKeeps x (initial_server listenfd)) e
      (serve-Keeps listenfd x turns (initial_server listenfd) (omega arith))) [
        | inl k ↦ (omega (arith, k.0, held-initial_server x listenfd), k.1)
        | inr k ↦ absurd (omega arith)
      ]
