-- ===== src/ChildWait/Reports.antt =====
-- What the parent of process_api/wait.cpp says of its child.
use codespaces_blank.Prelude.{
  ℕ, ◌+◌, ◌*◌, ◌/◌, ◌%◌, ◌^◌, ◌<◌, ◌≡◌, ◌⊎◌, refl, sym, subst, ap, ap₂, ◌≢◌, ◌∙◌, inl, inr, Bool,
  true, false, arith,
}
use codespaces_blank.ChildWait.{
  Child, running, exited, killed, status, decode, reported, System, start, report, Step, prints,
  exits, is_killed, asks_again, collects, wait_fails, Reach, here, next,
}

-- What is to be said of a child: its code and 0, or 0 and its signal.
abbrev pub fate : Child → ℕ × ℕ
fate running = (0, 0)
fate (exited code) = (code, 0)
fate (killed signal dumped) = (0, signal)

abbrev pub IsFate : Child → Type 0
IsFate running = Unit
IsFate (exited code) = code < 2 ^ 8
IsFate (killed signal dumped) = (0 < signal) × (signal < 2 ^ 7)

pub decode-status : (c : Child) → IsFate c → decode (status c) ≡ fate c
unfolding decode
decode-status running h = refl
decode-status (exited code) h =
    let first : code % 256 * 256 / 256 % 256 ≡ code = omega arith in
    let second : code % 256 * 256 % 128 ≡ 0 = omega arith in ap₂ (λ a b. (a, b)) first second
decode-status (killed signal true) h =
    let first : (signal + 128) / 256 % 256 ≡ 0 = omega arith in
    let second : (signal + 128) % 128 ≡ signal = omega arith in ap₂ (λ a b. (a, b)) first second
decode-status (killed signal false) h =
    let first : (signal + 0) / 256 % 256 ≡ 0 = omega arith in
    let second : (signal + 0) % 128 ≡ signal = omega arith in ap₂ (λ a b. (a, b)) first second

-- What the child has done, and what is said of it.
data ChildAt (count : ℕ) : Child → Type 0 where
  runs : ChildAt count running
  is_over : count ≡ 0 → ChildAt count (exited 11)
  is_dead : (g : ℕ) (d : Bool) → 0 < g → g < 2 ^ 7 → ChildAt count (killed g d)

record Inv (s : System) : Type 0 where
  child_at : ChildAt s.count s.child
  all : s.lines + s.count ≡ 10
  told : (c g : ℕ) → s.parent ≡ reported c g → (fate s.child ≡ (c, g)) × (s.child ≢ running)

IsFate-child : {n : ℕ} (c : Child) → ChildAt n c → IsFate c
IsFate-child running runs = tt
IsFate-child (exited c) (is_over z) = omega arith
IsFate-child (killed g d) (is_dead _ _ p q) = (p, q)

step-Inv : {s u : System} → Inv s → Step s u → Inv u
step-Inv v (prints n r e) = record {
  child_at = subst (ChildAt n) (sym r) runs;
  all = omega (arith, v.all, e);
  told = v.told;
}
step-Inv v (exits r e) = record {
  child_at = is_over e;
  all = v.all;
  told = λ c g p. absurd ((v.told c g p).1 r);
}
step-Inv v (is_killed g d r p q) = record {
  child_at = is_dead g d p q;
  all = v.all;
  told = λ c g p. absurd ((v.told c g p).1 r);
}
step-Inv v (asks_again a r) = record { child_at = v.child_at; all = v.all; told = v.told }
step-Inv {s = s} v (collects a e) = record {
  child_at = v.child_at;
  all = v.all;
  told =
      λ c g p. (sym (decode-status s.child (IsFate-child s.child v.child_at)) ∙ same_report p, e);
}
  where
    same_report : {r : ℕ × ℕ} {c g : ℕ} → report r ≡ reported c g → r ≡ (c, g)
    same_report {r} {c} {g} p =
        let codes : r.0 ≡ c = cc in let signals : r.1 ≡ g = cc in ap₂ (λ a b. (a, b)) codes signals
step-Inv v (wait_fails a) = record { child_at = v.child_at; all = v.all; told = λ c g p. absurd cc }

Reach-Inv : {s : System} → Reach start s → Inv s
Reach-Inv here = record { child_at = runs; all = refl; told = λ c g p. absurd cc }
Reach-Inv (next r x) = step-Inv (Reach-Inv r) x

-- What the fate of a child tells.
fate-cases :
    {n c g : ℕ} {w : Child}
    → ChildAt n w
    → (fate w ≡ (c, g)) × (w ≢ running)
    → ((c ≡ 11) × (g ≡ 0) × (n ≡ 0) × (w ≡ exited 11))
      ⊎ ((c ≡ 0) × (0 < g) × ((d : Bool) × (w ≡ killed g d)))
fate-cases runs (e, r) = absurd (r refl)
fate-cases (is_over z) (e, r) = inl (sym (ap (λ p. p.0) e), sym (ap (λ p. p.1) e), z, refl)
fate-cases (is_dead g d p q) (e, r) =
    let signal = ap (λ p. p.1) e in
    inr (sym (ap (λ p. p.0) e), omega (arith, signal), (d, ap (λ k. killed k d) signal))

-- However child and parent take turns, and whether or not a signal kills the child: once the parent
-- has reported a code and a signal, these are 11 and 0, and the child has printed its ten lines and
-- called `exit`; or they are 0 and a signal, and the child was killed.
pub report_tells_fate :
    {s : System} (c g : ℕ)
    → Reach start s
    → s.parent ≡ reported c g
    → ((c ≡ 11) × (g ≡ 0) × (s.lines ≡ 10) × (s.child ≡ exited 11))
      ⊎ ((c ≡ 0) × (0 < g) × ((d : Bool) × (s.child ≡ killed g d)))
report_tells_fate {s} c g r p =
    let v = Reach-Inv r in
    elim (fate-cases v.child_at (v.told c g p)) [
      | inl (code, signal, none_left, over) ↦
          inl (code, signal, omega (arith, v.all, none_left), over)
      | inr dead ↦ inr dead
    ]
