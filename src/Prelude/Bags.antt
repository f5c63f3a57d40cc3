-- ===== src/Prelude/Bags.antt =====
-- Collections of numbers without an order: lists, where it counts only how often a number occurs.
use Prim.Native.Nat.{ℕ}
use mathlib.Core.Path.{◌≡◌}
use mathlib.Core.List.{List, ◌∷◌}
use mathlib.Core.Quot
use mathlib.Core.Quot.{Quot, Quot-set}
use native.Mathlib.Omega.{arith}
use codespaces_blank.Prelude.Tests.{◌==◌, if◌then◌else◌}
use codespaces_blank.Prelude.Counting.{total}

abbrev pub is_number : ℕ → ℕ → ℕ
is_number a x = if x == a then 1 else 0

abbrev pub SameNumbers : List ℕ → List ℕ → Type 0
SameNumbers xs ys = (a : ℕ) → total (is_number a) xs ≡ total (is_number a) ys

abbrev pub Bag : Type 0
Bag = Quot SameNumbers

abbrev pub of_list : List ℕ → Bag
of_list = Quot.mk

-- A bag with one number more.
unfoldable pub put : ℕ → Bag → Bag
put x =
    Quot.lift Quot-set (λ xs. of_list (x ∷ xs)) (λ xs ys h. Quot.sound (λ a. omega (arith, h a)))
