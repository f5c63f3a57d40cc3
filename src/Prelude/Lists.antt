-- ===== src/Prelude/Lists.antt =====
-- Lists measured and indexed by native numbers, under the library's names.
use Prim.Native.Nat.{ℕ, zero, suc, ◌+◌, ◌-◌, ◌≤◌, ◌<◌}
use mathlib.Core.Path.{◌≡◌, refl, ap, subst}
use mathlib.Core.Logic.{◌≢◌, ◌⊎◌, inl, inr}
use mathlib.Core.List.{List, [], ◌∷◌, ◌++◌}
use mathlib.Core.Option.{Option, none, some}
use native.Mathlib.Decide.{dec_lt, ℕ_discrete}
use native.Mathlib.Omega.{arith}

module _ {ℓ} {A : Type ℓ} where
  abbrev pub length : List A → ℕ
  length [] = 0
  length (x ∷ xs) = suc (length xs)

  abbrev pub get_elem? : List A → ℕ → Option A
  get_elem? [] i = none
  get_elem? (x ∷ xs) zero = some x
  get_elem? (x ∷ xs) (suc i) = get_elem? xs i

  abbrev pub get_or : List A → ℕ → A → A
  get_or [] i d = d
  get_or (x ∷ xs) zero d = x
  get_or (x ∷ xs) (suc i) d = get_or xs i d

  -- A write out of bounds changes nothing.
  abbrev pub set : List A → ℕ → A → List A
  set [] i v = []
  set (x ∷ xs) zero v = v ∷ xs
  set (x ∷ xs) (suc i) v = x ∷ set xs i v

  abbrev pub take : ℕ → List A → List A
  take zero xs = []
  take (suc n) [] = []
  take (suc n) (x ∷ xs) = x ∷ take n xs

  abbrev pub drop : ℕ → List A → List A
  drop zero xs = xs
  drop (suc n) [] = []
  drop (suc n) (x ∷ xs) = drop n xs

  abbrev pub replicate : ℕ → A → List A
  replicate zero a = []
  replicate (suc n) a = a ∷ replicate n a

module _ {ℓ} {A : Type ℓ} where
  pub length-drop : (n : ℕ) (xs : List A) → length (drop n xs) ≡ length xs - n
  length-drop zero xs = omega arith
  length-drop (suc n) [] = omega arith
  length-drop (suc n) (x ∷ xs) = omega (arith, length-drop n xs)

  pub length-append : (xs ys : List A) → length (xs ++ ys) ≡ length xs + length ys
  length-append [] ys = omega arith
  length-append (x ∷ xs) ys = omega (arith, length-append xs ys)

  pub length-set : (xs : List A) (i : ℕ) (v : A) → length (set xs i v) ≡ length xs
  length-set [] i v = refl
  length-set (x ∷ xs) zero v = refl
  length-set (x ∷ xs) (suc i) v = ap suc (length-set xs i v)

  pub length-replicate : (n : ℕ) (a : A) → length (replicate n a) ≡ n
  length-replicate zero a = refl
  length-replicate (suc n) a = ap suc (length-replicate n a)

  pub get_or-set_self :
      (xs : List A) (i : ℕ) (v d : A) → i < length xs → get_or (set xs i v) i d ≡ v
  get_or-set_self [] i v d h = absurd (omega arith)
  get_or-set_self (x ∷ xs) zero v d h = refl
  get_or-set_self (x ∷ xs) (suc i) v d h = get_or-set_self xs i v d (omega arith)

  pub get_or-set_ne :
      (xs : List A) {i j : ℕ} (v d : A) → i ≢ j → get_or (set xs i v) j d ≡ get_or xs j d
  get_or-set_ne [] v d h = refl
  get_or-set_ne (x ∷ xs) {i = zero} {j = zero} v d h = absurd (h refl)
  get_or-set_ne (x ∷ xs) {i = zero} {j = suc j} v d h = refl
  get_or-set_ne (x ∷ xs) {i = suc i} {j = zero} v d h = refl
  get_or-set_ne (x ∷ xs) {i = suc i} {j = suc j} v d h = get_or-set_ne xs v d (λ e. h (ap suc e))

  pub lt_of_get_elem? : (xs : List A) (i : ℕ) {a : A} → get_elem? xs i ≡ some a → i < length xs
  lt_of_get_elem? [] i e = cc
  lt_of_get_elem? (x ∷ xs) zero e = omega arith
  lt_of_get_elem? (x ∷ xs) (suc i) e = omega (arith, lt_of_get_elem? xs i e)

  pub set-set : (xs : List A) (i : ℕ) (u v : A) → set (set xs i u) i v ≡ set xs i v
  set-set [] i u v = refl
  set-set (x ∷ xs) zero u v = refl
  set-set (x ∷ xs) (suc i) u v = ap (λ k. x ∷ k) (set-set xs i u v)

  pub set_ge : (xs : List A) (i : ℕ) (v : A) → length xs ≤ i → set xs i v ≡ xs
  set_ge [] i v h = refl
  set_ge (x ∷ xs) zero v h = absurd (omega arith)
  set_ge (x ∷ xs) (suc i) v h = ap (λ k. x ∷ k) (set_ge xs i v (omega arith))

  -- What an element is after a write.
  pub get_or-set_cases :
      (xs : List A) (i j : ℕ) (v d : A)
      → ((i ≡ j) × (get_or (set xs i v) j d ≡ v)) ⊎ (get_or (set xs i v) j d ≡ get_or xs j d)
  get_or-set_cases xs i j v d = elim (ℕ_discrete i j) [
    | no ne ↦ inr (get_or-set_ne xs v d ne)
    | yes e ↦ elim (dec_lt i (length xs)) [
      | yes h ↦ inl (e, subst (λ k. get_or (set xs i v) k d ≡ v) e (get_or-set_self xs i v d h))
      | no h ↦ inr (ap (λ k. get_or k j d) (set_ge xs i v (omega arith)))
    ]
  ]

  pub get_or_ge : (xs : List A) (i : ℕ) (d : A) → length xs ≤ i → get_or xs i d ≡ d
  get_or_ge [] i d h = refl
  get_or_ge (x ∷ xs) zero d h = absurd (omega arith)
  get_or_ge (x ∷ xs) (suc i) d h = get_or_ge xs i d (omega arith)

  pub get_elem?-set_self :
      (xs : List A) (i : ℕ) {a : A} (b : A)
      → get_elem? xs i ≡ some a
      → get_elem? (set xs i b) i ≡ some b
  get_elem?-set_self [] i b e = cc
  get_elem?-set_self (x ∷ xs) zero b e = refl
  get_elem?-set_self (x ∷ xs) (suc i) b e = get_elem?-set_self xs i b e

  pub get_elem?-set_within :
      (xs : List A) (i j : ℕ) {a : A} (b : A)
      → get_elem? xs i ≡ some a
      → (c : A) × (get_elem? (set xs j b) i ≡ some c)
  get_elem?-set_within [] i j b e = absurd cc
  get_elem?-set_within (x ∷ xs) zero zero b e = (b, refl)
  get_elem?-set_within (x ∷ xs) zero (suc j) b e = (x, refl)
  get_elem?-set_within (x ∷ xs) (suc i) zero b e = (_, e)
  get_elem?-set_within (x ∷ xs) (suc i) (suc j) b e = get_elem?-set_within xs i j b e

  -- An element after `set` is the new one, or was there.
  pub get_elem?-set_cases :
      (xs : List A) (i j : ℕ) {b q : A}
      → get_elem? (set xs i b) j ≡ some q
      → (q ≡ b) ⊎ (get_elem? xs j ≡ some q)
  get_elem?-set_cases [] i j e = inr e
  get_elem?-set_cases (x ∷ xs) zero zero e = inl cc
  get_elem?-set_cases (x ∷ xs) zero (suc j) e = inr e
  get_elem?-set_cases (x ∷ xs) (suc i) zero e = inr e
  get_elem?-set_cases (x ∷ xs) (suc i) (suc j) e = get_elem?-set_cases xs i j e
