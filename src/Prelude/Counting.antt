-- ===== src/Prelude/Counting.antt =====
-- Weighted sums over a list, such as the number of threads that are in some state.
use Prim.Native.Nat.{ℕ, zero, suc, ◌+◌, ◌*◌, ◌≤◌, ◌<◌}
use mathlib.Core.Path.{◌≡◌, refl}
use mathlib.Core.List.{List, [], ◌∷◌, ◌++◌}
use mathlib.Core.Option.{some}
use native.Mathlib.Decide.{dec_lt}
use native.Mathlib.Omega.{arith}
use codespaces_blank.Prelude.Lists.{get_elem?, set, replicate}

module _ {ℓ} {A : Type ℓ} (w : A → ℕ) where
  abbrev pub total : List A → ℕ
  total [] = 0
  total (x ∷ xs) = w x + total xs

  pub total-append : (xs ys : List A) → total (xs ++ ys) ≡ total xs + total ys
  total-append [] ys = omega arith
  total-append (x ∷ xs) ys = omega (arith, total-append xs ys)

  pub total-replicate : (n : ℕ) (a : A) → total (replicate n a) ≡ n * w a
  total-replicate zero a = omega arith
  total-replicate (suc n) a = omega (arith, total-replicate n a)

  -- One thread moves from `a` to `b`.
  pub total-set :
      (xs : List A) (i : ℕ) {a : A} (b : A)
      → get_elem? xs i ≡ some a
      → total (set xs i b) + w a ≡ total xs + w b
  total-set [] i b e = cc
  total-set (x ∷ xs) zero b e = ground arith
  total-set (x ∷ xs) (suc i) b e = omega (arith, total-set xs i b e)

  pub le-total : (xs : List A) (i : ℕ) {a : A} → get_elem? xs i ≡ some a → w a ≤ total xs
  le-total [] i e = cc
  le-total (x ∷ xs) zero e = ground arith
  le-total (x ∷ xs) (suc i) e = omega (arith, le-total xs i e)

  -- Where the sum is positive, some element has a positive weight.
  pub some_of_total :
      (xs : List A) → 0 < total xs → (i : ℕ) × (a : A) × (get_elem? xs i ≡ some a) × (0 < w a)
  some_of_total [] h = absurd (omega arith)
  some_of_total (x ∷ xs) h = elim (dec_lt 0 (w x)) [
    | yes p ↦ (0, x, refl, p)
    | no p ↦ let (i, a, e, q) = some_of_total xs (omega arith) in (suc i, a, e, q)
  ]

pub total_mono {ℓ} :
    {A : Type ℓ} (v w : A → ℕ) → ((a : A) → v a ≤ w a) → (xs : List A) → total v xs ≤ total w xs
total_mono v w h [] = omega arith
total_mono v w h (x ∷ xs) = omega (arith, h x, total_mono v w h xs)

pub total-plus {ℓ} :
    {A : Type ℓ} (v w : A → ℕ) (xs : List A) → total (λ a. v a + w a) xs ≡ total v xs + total w xs
total-plus v w [] = refl
total-plus v w (x ∷ xs) = omega (arith, total-plus v w xs)
