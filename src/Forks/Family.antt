-- ===== src/Forks/Family.antt =====
-- The processes that come of process_api/fork.cpp, and what they print.
use native.Mathlib.Nat.{one-le-pow, zero-mul}
use codespaces_blank.Prelude.{
  ℕ, ◌+◌, ◌-◌, ◌*◌, ◌^◌, ◌≤◌, ◌<◌, ◌≡◌, refl, sym, ap, ◌∙◌, Bool, if◌then◌else◌, List, [], ◌∷◌,
  ◌++◌, arith, some, get_elem?, set, length, total, append-nil, total-append, total-set,
  some_of_total, dec_lt, ◌⊎◌, inl, inr, Bool-cases,
}
use codespaces_blank.Forks.{
  Line, child, parent, round, Process, looping, forked, ended, System, start, print, Step, forks,
  prints, returns, Reach, here, next,
}
use codespaces_blank.Forks.Halves.{
  same, halve, offspring, work, due, due-fork, due-print, due-write, due-return,
}

-- Whether a process has not ended.
abbrev pub runs : Process → ℕ
runs ended = 0
runs _ = 1

module _ (n : ℕ) (terminal : Bool) where
  -- What line `l` comes to, counted from the start.
  abbrev promised : Line → ℕ
  promised l = due n terminal l (looping 0 [])

  record Inv (l : Line) (k : ℕ) (s : System) : Type 0 where
    family : total (offspring n) s.processes ≡ 2 ^ n
    steps : k + total (work n) s.processes ≡ 4 * 2 ^ n - 3
    lines : total (same l) s.written + total (due n terminal l) s.processes ≡ promised l

  positive : (m : ℕ) → 1 ≤ 2 ^ m
  positive m = one-le-pow m 2 (omega arith)

  -- Process `j` is replaced by `b`, and perhaps a new one comes in.
  module _ {l : Line} {k : ℕ} {s : System} (v : Inv l k s) (j : ℕ) (a b : Process)
      (e : get_elem? s.processes j ≡ some a) where
    moved :
        (u : System) (new : List Process) (lines : List Line)
        → u.processes ≡ set s.processes j b ++ new
        → u.written ≡ s.written ++ lines
        → offspring n a ≡ offspring n b + total (offspring n) new
        → work n a ≡ 1 + work n b + total (work n) new
        → due n terminal l a
          ≡ total (same l) lines + (due n terminal l b + total (due n terminal l) new)
        → Inv l (k + 1) u
    moved u new lines p q o w d = record {
      family = omega (arith, o, v.family, sums (offspring n));
      steps = omega (arith, w, v.steps, sums (work n));
      lines = omega (
        arith,
        d,
        v.lines,
        ap (total (same l)) q ∙ total-append (same l) s.written lines,
        sums (due n terminal l),
      );
    }
      where
        sums :
            (f : Process → ℕ) → total f u.processes + f a ≡ total f s.processes + f b + total f new
        sums f = omega (
          arith,
          ap (total f) p ∙ total-append f (set s.processes j b) new,
          total-set f s.processes j b e,
        )

  fork-Inv :
      {l : Line} {k : ℕ} {s : System} (j i : ℕ) (kept : List Line)
      → round l < n
      → Inv l k s
      → get_elem? s.processes j ≡ some (looping i kept)
      → i < n
      → Inv l (k + 1) (record s {
        processes = set s.processes j (forked (parent i) kept) ++ (forked (child i) kept ∷ []);
      })
  fork-Inv {l} {k} {s} j i kept r v e h =
      moved v j (looping i kept) (forked (parent i) kept) e _ (forked (child i) kept ∷ []) [] refl
        (sym (append-nil s.written)) (omega (arith, halve n i h))
        (omega (arith, halve n i h, positive (n - (i + 1))))
        (omega (arith, due-fork n terminal l i kept h r))

  print-Inv :
      {l : Line} {k : ℕ} {s : System} (j : ℕ) (x : Line) (kept : List Line)
      → Inv l k s
      → get_elem? s.processes j ≡ some (forked x kept)
      → Inv l (k + 1) (print terminal j x kept s)
  unfolding print
  print-Inv {l} {k} {s} j x kept v e = elim (Bool-cases terminal) [
    | inl t ↦
        let b = looping (round x + 1) kept in
        moved v j (forked x kept) b e _ [] (x ∷ [])
          (ap (λ (w : Bool). (print w j x kept s).processes) t
            ∙ sym (append-nil (set s.processes j b)))
          (ap (λ (w : Bool). (print w j x kept s).written) t) (omega arith)
          (omega (arith, positive (n - (round x + 1))))
          (omega (arith, due-write n terminal l x kept t))
    | inr f ↦
        let b = looping (round x + 1) (kept ++ (x ∷ [])) in
        moved v j (forked x kept) b e _ [] []
          (ap (λ (w : Bool). (print w j x kept s).processes) f
            ∙ sym (append-nil (set s.processes j b)))
          (ap (λ (w : Bool). (print w j x kept s).written) f ∙ sym (append-nil s.written))
          (omega arith) (omega (arith, positive (n - (round x + 1))))
          (omega (arith, due-print n terminal l x kept f))
  ]

  return-Inv :
      {l : Line} {k : ℕ} {s : System} (j i : ℕ) (kept : List Line)
      → round l < n
      → Inv l k s
      → get_elem? s.processes j ≡ some (looping i kept)
      → n ≤ i
      → Inv l (k + 1) (record { processes = set s.processes j ended; written = s.written ++ kept })
  return-Inv {l} {k} {s} j i kept r v e h =
      moved v j (looping i kept) ended e _ [] kept (sym (append-nil (set s.processes j ended))) refl
        (last h) (omega (arith, last h)) (omega (arith, due-return n terminal l i kept h r))
    where
      last : n ≤ i → 2 ^ (n - i) ≡ 1
      last h = let gone : n - i ≡ 0 = omega arith in ap (λ m. 2 ^ m) gone

  step-Inv :
      {l : Line} {k : ℕ} {s u : System}
      → round l < n
      → Inv l k s
      → Step n terminal s u
      → Inv l (k + 1) u
  step-Inv r v (forks j i kept e h) = fork-Inv j i kept r v e h
  step-Inv r v (prints j x kept e) = print-Inv j x kept v e
  step-Inv r v (returns j i kept e h) = return-Inv j i kept r v e h

  Reach-Inv : {k : ℕ} {s : System} (l : Line) → round l < n → Reach n terminal start k s → Inv l k s
  Reach-Inv l r here = record {
    family = omega (arith, all_rounds);
    steps = omega (arith, positive n, all_rounds);
    lines = omega arith;
  }
    where
      all_rounds : 2 ^ (n - 0) ≡ 2 ^ n
      all_rounds = let whole : n - 0 ≡ n = omega arith in ap (λ m. 2 ^ m) whole
  Reach-Inv l r (next x st) = step-Inv r (Reach-Inv l r x) st

  all-ended :
      (ps : List Process) (l : Line)
      → total runs ps ≡ 0
      → (total (offspring n) ps ≡ length ps)
        × (total (work n) ps ≡ 0)
        × (total (due n terminal l) ps ≡ 0)
  all-ended [] l h = (refl, refl, refl)
  all-ended (ended ∷ ps) l h =
      let (o, w, d) = all-ended ps l (omega arith) in (omega arith, omega arith, omega arith)
  all-ended (looping i kept ∷ ps) l h = absurd (omega arith)
  all-ended (forked x kept ∷ ps) l h = absurd (omega arith)

  runs-on :
      (s : System) (j : ℕ) (p : Process)
      → get_elem? s.processes j ≡ some p
      → 0 < runs p
      → (u : System) × Step n terminal s u
  runs-on s j ended e h = absurd (omega arith)
  runs-on s j (forked x kept) e h = (_, prints j x kept e)
  runs-on s j (looping i kept) e h = elim (dec_lt i n) [
    | yes more ↦ (_, forks j i kept e more)
    | no over ↦ (_, returns j i kept e (omega arith))
  ]

  -- In a loop of `n` rounds, however the processes take turns: no run takes more than 4 * 2 ^ n - 3
  -- steps; and after any part of a run some process can go on, or all have ended, there are 2 ^ n
  -- of them, and each line of a round `i` below `n` is written 2 ^ i times to a terminal, but
  -- 2 ^ (n - 1) times to a file.
  pub fork_doubles :
      (l : Line) (k : ℕ) (s : System)
      → round l < n
      → Reach n terminal start k s
      → (k ≤ 4 * 2 ^ n - 3)
        × (((u : System) × Step n terminal s u)
            ⊎ ((total runs s.processes ≡ 0)
                × (length s.processes ≡ 2 ^ n)
                × (total (same l) s.written ≡ (if terminal then 2 ^ round l else 2 ^ (n - 1)))))
  fork_doubles l k s r x =
      let v = Reach-Inv l r x in
      (
        omega (arith, v.steps),
        elim (dec_lt 0 (total runs s.processes)) [
          | yes more ↦
              let (j, p, e, q) = some_of_total runs s.processes more in inl (runs-on s j p e q)
          | no over ↦
              let (o, w, d) = all-ended s.processes l (omega arith) in
              inr (omega arith, omega (arith, o, v.family), omega (arith, d, v.lines, goal))
        ],
      )
    where
      goal : promised l ≡ (if terminal then 2 ^ round l else 2 ^ (n - 1))
      goal =
          let whole : round l - 0 ≡ round l = omega arith in
          ground (arith, ap (λ m. 2 ^ m) whole, zero-mul (2 ^ (n - 0)))
