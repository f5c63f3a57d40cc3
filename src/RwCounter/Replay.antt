-- ===== src/RwCounter/Replay.antt =====
-- What an observer of the output of lock/rwlock.cpp counts.
use codespaces_blank.Prelude.{
  ℕ, ◌+◌, ◌≡◌, ap, Bool, true, false, ◌&&◌, ◌==◌, ltb, if◌then◌else◌, List, [], ◌∷◌, ◌++◌, Option,
  none, some,
}
use codespaces_blank.RwCounter.{Line, written, shown}

-- The lines as an observer reads them who has seen `n` increments: each writer shows one more, and
-- a number below it as the old one, and each reader shows what there is.
abbrev pub replay : ℕ → List Line → Option ℕ
replay n [] = some n
replay n (written t c ∷ ls) =
    let rest = replay (n + 1) ls in if (c == n + 1) && ltb t c then rest else none
replay n (shown c ∷ ls) = let rest = replay n ls in if c == n then rest else none

guarded :
    (b : Bool) (x y r : Option ℕ) {m : ℕ}
    → (x ≡ some m → y ≡ r)
    → (if b then x else none) ≡ some m
    → (if b then y else none) ≡ r
guarded true x y r h e = h e
guarded false x y r h e = cc

pub replay-append :
    (n : ℕ) (ls : List Line) {m : ℕ} (l : Line)
    → replay n ls ≡ some m
    → replay n (ls ++ (l ∷ [])) ≡ replay m (l ∷ [])
replay-append n [] {m} l e = ap (λ k. replay k (l ∷ [])) cc
replay-append n (written t c ∷ ls) {m} l e =
    guarded ((c == n + 1) && ltb t c) (replay (n + 1) ls) (replay (n + 1) (ls ++ (l ∷ [])))
      (replay m (l ∷ [])) (replay-append (n + 1) ls l) e
replay-append n (shown c ∷ ls) {m} l e =
    guarded (c == n) (replay n ls) (replay n (ls ++ (l ∷ []))) (replay m (l ∷ []))
      (replay-append n ls l) e
