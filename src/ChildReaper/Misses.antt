-- ===== src/ChildReaper/Misses.antt =====
-- signal/r2.cpp overlooks children that exit early.
use codespaces_blank.Prelude.{
  ℕ, zero, suc, ◌+◌, ◌≡◌, refl, ap, true, [], ◌∷◌, ◌++◌, some, arith, get_elem?, set, replicate,
  total-replicate, subst,
}
use codespaces_blank.ChildReaper.{
  alive, zombie, install, unblock, Family, r2, start, raise, Step, blocks, forks_or_exits, installs,
  unblocks, exits, forks, fork_fails, delivers, collects, finds_none, returns, Reach, here, next,
  is_zombie, zombies,
}

-- The parent before it blocks SIGCHLD, with `k` dead children and `n` calls of `fork` to come.
abbrev unnoticed : (n k : ℕ) → Family
unnoticed n k = record (start (r2 n)) { children = replicate k zombie }

last-alive : (k : ℕ) → get_elem? (replicate k zombie ++ (alive ∷ [])) k ≡ some alive
last-alive zero = refl
last-alive (suc k) = last-alive k

set-last : (k : ℕ) → set (replicate k zombie ++ (alive ∷ [])) k zombie ≡ replicate (suc k) zombie
set-last zero = refl
set-last (suc k) = ap (λ l. zombie ∷ l) (set-last k)

none-alive : (k i : ℕ) → get_elem? (replicate k zombie) i ≡ some alive → ⊥
none-alive zero i e = cc
none-alive (suc k) zero e = cc
none-alive (suc k) (suc i) e = none-alive k i e

-- A child is made, and exits at once.
early_exit : (n k : ℕ) {s : Family} → Reach s (unnoticed (suc n) k) → Reach s (unnoticed n (suc k))
unfolding raise
early_exit n k {s} r =
    subst (λ c. Reach s (record (unnoticed n 0) { children = c })) (set-last k)
      (next (next r (forks_or_exits (r2 n) refl refl)) (exits k (last-alive k)))

all_exit :
    (n k : ℕ) {s : Family}
    → Reach s (unnoticed n k)
    → (m : ℕ) × (m ≡ n + k) × Reach s (unnoticed 0 m)
all_exit zero k r = (k, omega arith, r)
all_exit (suc n) k r =
    let (m, e, q) = all_exit n (suc k) (early_exit n k r) in (m, omega (arith, e), q)

-- The parent in its endless loop, with `m` dead children.
abbrev overlooking : ℕ → Family
overlooking m = record (unnoticed 0 m) { todo = []; installed = true }

overlooking-ends : (m : ℕ) {t : Family} → Step (overlooking m) t → ⊥
overlooking-ends m (blocks l h e) = cc
overlooking-ends m (forks l h e) = cc
overlooking-ends m (fork_fails l h e) = cc
overlooking-ends m (forks_or_exits l h e) = cc
overlooking-ends m (installs l h e) = cc
overlooking-ends m (unblocks l h e) = cc
overlooking-ends m (exits i e) = none-alive m i e
overlooking-ends m (delivers p b h) = cc
overlooking-ends m (collects i h e) = cc
overlooking-ends m (finds_none h none) = cc
overlooking-ends m (returns h) = cc

-- The parent of signal/r2.cpp can overlook all its children: for any number `n` of them there is a
-- reachable state in which `main` is in its endless loop, all `n` are dead and none was waited for,
-- and nothing can happen any more.
pub children_overlooked :
    (n : ℕ)
    → (s : Family) × Reach (start (r2 n)) s
      × (s.todo ≡ [])
      × (zombies s ≡ n)
      × ¬ ((t : Family) × Step s t)
children_overlooked n =
    let (m, e, r) = all_exit n 0 here in
    (
      overlooking m,
      next
          (next (next r (blocks (install ∷ unblock ∷ []) refl refl))
            (installs (unblock ∷ []) refl refl))
          (unblocks [] refl refl),
      refl,
      omega (arith, e, total-replicate is_zombie m zombie),
      λ (t, st). overlooking-ends m st,
    )
