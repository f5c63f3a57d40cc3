-- ===== src/Forks/Halves.antt =====
-- What the processes of process_api/fork.cpp have still before them.
use native.Mathlib.Nat.{two-pow-succ, add-mul, mul-add, mul-one, one-mul}
use codespaces_blank.Prelude.{
  ℕ, ◌+◌, ◌-◌, ◌*◌, ◌^◌, ◌≤◌, ◌<◌, ◌≡◌, refl, ap, ◌∙◌, Bool, true, false, if◌then◌else◌, ◌==◌, leb,
  List, [], ◌∷◌, ◌++◌, arith, total, total-append, dec_lt,
}
use codespaces_blank.Forks.{Line, child, parent, round, Process, looping, forked, ended}

abbrev pub same : Line → Line → ℕ
same (child i) (child j) = if i == j then 1 else 0
same (parent i) (parent j) = if i == j then 1 else 0
same _ _ = 0

-- A power of two is twice the one before.
pub halve : (n k : ℕ) → k < n → 2 ^ (n - k) ≡ 2 * 2 ^ (n - (k + 1))
halve n k h = ap (λ m. 2 ^ m) (omega (arith, h)) ∙ two-pow-succ (n - (k + 1)) ∙ omega arith

-- Of the two lines of a round at most one is a given one.
either :
    (l : Line) (k c : ℕ)
    → same l (parent k) * c + same l (child k) * c ≡ (if k == round l then c else 0)
either (child i) k c = ground (arith, one-mul c)
either (parent i) k c = ground (arith, one-mul c)

-- A loop of `n` rounds.
module _ (n : ℕ) where
  -- How many processes come of a process, and how many steps are before it.
  abbrev pub offspring : Process → ℕ
  offspring (looping k kept) = 2 ^ (n - k)
  offspring (forked l kept) = 2 ^ (n - (round l + 1))
  offspring ended = 1

  abbrev pub work : Process → ℕ
  work (looping k kept) = 4 * 2 ^ (n - k) - 3
  work (forked l kept) = 4 * 2 ^ (n - (round l + 1)) - 2
  work ended = 0

  module _ (terminal : Bool) (l : Line) where
    -- How often the line that a process prints in round `k` is written in the end.
    abbrev pub copies : ℕ → ℕ
    copies k = if terminal then 1 else 2 ^ (n - (k + 1))

    -- How often line `l` will be written for what a process prints from round `k` on.
    abbrev pub ahead : ℕ → ℕ
    ahead k =
        if leb k (round l) then if terminal then 2 ^ (round l - k) else 2 ^ (n - (k + 1)) else 0

    -- How often line `l` will be written by a process and those that come of it.
    abbrev pub due : Process → ℕ
    due (looping k kept) = total (same l) kept * 2 ^ (n - k) + ahead k
    due (forked x kept) =
        total (same l) kept * 2 ^ (n - (round x + 1))
        + (same l x * copies (round x) + ahead (round x + 1))
    due ended = 0

    ahead-split :
        (k : ℕ)
        → k < n
        → round l < n
        → ahead k ≡ (if k == round l then copies k else 0) + 2 * ahead (k + 1)
    ahead-split k h r = elim (dec_lt k (round l)) [
      | yes before ↦ ground (arith, before, halve (round l) k before, halve n (k + 1) (omega arith))
      | no after ↦ ground (arith, after, two-pow-zero)
    ]
      where
        two-pow-zero : 2 ^ 0 ≡ 1
        two-pow-zero = refl

    pub due-fork :
        (k : ℕ) (kept : List Line)
        → k < n
        → round l < n
        → due (looping k kept) ≡ due (forked (parent k) kept) + due (forked (child k) kept)
    due-fork k kept h r =
        let c = total (same l) kept in
        let m = 2 ^ (n - (k + 1)) in
        omega (
          arith,
          ap (λ p. c * p) (halve n k h),
          doubled c m,
          ahead-split k h r,
          either l k (copies k),
        )
      where
        doubled : (c m : ℕ) → c * (2 * m) ≡ c * m + c * m
        doubled c m = ap (λ p. c * p) (omega arith) ∙ mul-add c m m

    -- The line is kept for a file.
    pub due-print :
        (x : Line) (kept : List Line)
        → terminal ≡ false
        → due (forked x kept) ≡ due (looping (round x + 1) (kept ++ (x ∷ [])))
    due-print x kept e =
        let m = 2 ^ (n - (round x + 1)) in
        omega (
          arith,
          ap (λ b. same l x * (if b then 1 else m)) e,
          ap (λ c. c * m) (total-append (same l) kept (x ∷ [])),
          add-mul (total (same l) kept) (total (same l) (x ∷ [])) m,
          ap (λ c. c * m) (last (same l x)),
        )
      where
        last : (c : ℕ) → c + 0 ≡ c
        last c = omega arith

    -- It is written.
    pub due-write :
        (x : Line) (kept : List Line)
        → terminal ≡ true
        → due (forked x kept) ≡ same l x + due (looping (round x + 1) kept)
    due-write x kept e =
        let m = 2 ^ (n - (round x + 1)) in
        omega (arith, ap (λ b. same l x * (if b then 1 else m)) e, mul-one (same l x))

    pub due-return :
        (i : ℕ) (kept : List Line)
        → n ≤ i
        → round l < n
        → due (looping i kept) ≡ total (same l) kept
    due-return i kept h r =
        ground (
          arith,
          ap (λ k. total (same l) kept * 2 ^ k) (gone h),
          mul-one (total (same l) kept),
          h,
          r,
        )
      where
        gone : n ≤ i → n - i ≡ 0
        gone h = omega arith
