-- ===== src/PollServer/Passes.antt =====
-- What a pass over the descriptors of socket/poll/poll.cpp does to the connections.
use codespaces_blank.Prelude.{
  ℕ, zero, suc, ◌+◌, ◌≤◌, ◌<◌, ◌≡◌, ◌⊎◌, refl, subst, arith, some, none, Option, inl, inr,
  Bool-cases, ltb, length, total,
}
use codespaces_blank.PollServer.{Server, Answer, round, Passed, exited, out_of_fuel, done, pass}
use codespaces_blank.PollServer.Balance.{held, closes, accepts}
use codespaces_blank.PollServer.Rounds.{strays, IsKept, Keeps, Grows, round-Keeps, round-Grows}

-- What a pass has done when it ends.
abbrev pub PassKeeps : ℕ → Server → Passed → Type 0
PassKeeps x s exited = Unit
PassKeeps x s out_of_fuel = Unit
PassKeeps x s (done t) = IsKept x s t ⊎ (total strays s.log < total strays t.log)

abbrev pub PassGrows : Server → Passed → Type 0
PassGrows s exited = Unit
PassGrows s out_of_fuel = Unit
PassGrows s (done t) = total strays s.log ≤ total strays t.log

pub grows-then :
    (s r : Server) (p : Passed)
    → total strays s.log ≤ total strays r.log
    → PassGrows r p
    → PassGrows s p
grows-then s r exited h g = tt
grows-then s r out_of_fuel h g = tt
grows-then s r (done t) h g = omega arith

pub kept-then :
    (x : ℕ) (s r : Server) (p : Passed) → IsKept x s r → PassKeeps x r p → PassKeeps x s p
kept-then x s r exited k g = tt
kept-then x s r out_of_fuel k g = tt
kept-then x s r (done t) k (inl g) = inl (omega (arith, k, g), g.1, omega (arith, k, g))
kept-then x s r (done t) k (inr g) = inr (omega (arith, k))

pub stray-then :
    (x : ℕ) (s r : Server) (p : Passed)
    → total strays s.log < total strays r.log
    → PassGrows r p
    → PassKeeps x s p
stray-then x s r exited h g = tt
stray-then x s r out_of_fuel h g = tt
stray-then x s r (done t) h g = inr (omega arith)

module _ (listenfd : ℕ) (a : ℕ → Answer) where
  pub pass-Grows : (n i : ℕ) (s : Server) → PassGrows s (pass n listenfd a i s)
  unfolding pass
  pass-Grows zero i s = tt
  pass-Grows (suc n) i s = elim (Bool-cases (ltb i s.used)) [
    | inr over ↦ rw over (omega arith)
    | inl more ↦
        rw more (
          goes (λ j t. pass-Grows n j t) (round listenfd (a n) i s)
            (round-Grows listenfd (a n) i s))
  ]
    where
      goes :
          ((j : ℕ) (t : Server) → PassGrows t (pass n listenfd a j t))
          → (r : Option (ℕ × Server)) → Grows s r
          → PassGrows s (elim r [ none ↦ exited | some t ↦ pass n listenfd a t.0 t.1 ])
      goes rest none g = tt
      goes rest (some t) g = grows-then s t.1 (pass n listenfd a t.0 t.1) g (rest t.0 t.1)

  pub pass-Keeps :
      (x n i : ℕ) (s : Server) → s.used ≤ length s.fds → PassKeeps x s (pass n listenfd a i s)
  unfolding pass
  pass-Keeps x zero i s room = tt
  pass-Keeps x (suc n) i s room = elim (Bool-cases (ltb i s.used)) [
    | inr over ↦ rw over (inl (refl, room, refl))
    | inl more ↦
        let below : i < s.used = ground arith in
        rw more (
          goes (λ j t. pass-Keeps x n j t) (round listenfd (a n) i s)
            (round-Keeps x listenfd (a n) i s below room))
  ]
    where
      goes :
          ((j : ℕ) (t : Server) → t.used ≤ length t.fds → PassKeeps x t (pass n listenfd a j t))
          → (r : Option (ℕ × Server)) → Keeps x s r
          → PassKeeps x s (elim r [ none ↦ exited | some t ↦ pass n listenfd a t.0 t.1 ])
      goes rest none k = tt
      goes rest (some t) (inl k) =
          kept-then x s t.1 (pass n listenfd a t.0 t.1) k (rest t.0 t.1 k.1)
      goes rest (some t) (inr k) =
          stray-then x s t.1 (pass n listenfd a t.0 t.1) k (pass-Grows n t.0 t.1)

-- A pass over the descriptors that ends without a store behind the array keeps every connection:
-- how often a descriptor is among those in use grows by how often it was accepted in the pass and
-- shrinks by how often it was closed, in whatever order slots are filled up; and the array holds
-- all that is counted, if it did before.
pub pass_keeps_connections :
    (x n listenfd : ℕ) (a : ℕ → Answer) (s t : Server)
    → s.used ≤ length s.fds
    → pass n listenfd a 0 s ≡ done t
    → total strays t.log ≡ total strays s.log
    → (held x t + total (closes x) t.log + total (accepts x) s.log
        ≡ held x s + total (closes x) s.log + total (accepts x) t.log)
      × (t.used ≤ length t.fds)
pass_keeps_connections x n listenfd a s t room e none_stray =
    elim (subst (PassKeeps x s) e (pass-Keeps listenfd a x n 0 s room)) [
      | inl k ↦ (k.0, k.1)
      | inr k ↦ absurd (omega arith)
    ]
