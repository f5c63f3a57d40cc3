-- ===== src/ThreadLimit/Reports.antt =====
-- What the processes of thread/max_thread.cpp report.
use codespaces_blank.Prelude.{
  ℕ, zero, suc, ◌+◌, ◌≡◌, refl, subst, ◌∙◌, inl, inr, List, some, arith, get_elem?, set,
  get_elem?-set_cases,
}
use codespaces_blank.ThreadLimit.{
  fresh, Phase, creating, reported, Process, start, Step, creates, fails, Reach, here, next,
}

-- A process has counted its threads, and the last call too once it is behind its loop.
abbrev IsCounted : (threads count : ℕ) → Phase → Type 0
IsCounted threads count creating = count ≡ threads
IsCounted threads count (reported most) = (most ≡ count) × (count ≡ threads + 1)

abbrev AllCounted : List Process → Type 0
AllCounted ps =
    (i : ℕ) (p : Process) → get_elem? ps i ≡ some p → IsCounted p.threads p.count p.phase

set-AllCounted :
    (ps : List Process) (i : ℕ) (b : Process)
    → AllCounted ps
    → IsCounted b.threads b.count b.phase
    → AllCounted (set ps i b)
set-AllCounted ps i b v h j q e = elim (get_elem?-set_cases ps i j e) [
  | inl new ↦ rw new h
  | inr old ↦ v j q old
]

was_creating :
    (p : Process) → p.phase ≡ creating → IsCounted p.threads p.count p.phase → p.count ≡ p.threads
was_creating p c h = subst (IsCounted p.threads p.count) c h

step-AllCounted : {ps qs : List Process} → AllCounted ps → Step ps qs → AllCounted qs
step-AllCounted {ps} v (creates i p e c) =
    set-AllCounted ps i (record p { count = p.count + 1; threads = p.threads + 1 }) v
      (rw c (omega (arith, was_creating p c (v i p e))))
step-AllCounted {ps} v (fails i p e c) =
    set-AllCounted ps i (record p { count = p.count + 1; phase = reported (p.count + 1) }) v
      (refl, omega (arith, was_creating p c (v i p e)))

start-AllCounted : AllCounted start
start-AllCounted zero p e = subst (λ q. IsCounted q.threads q.count q.phase) (first p e) refl
  where
    first : (p : Process) → some fresh ≡ some p → fresh ≡ p
    first p e = cc
start-AllCounted (suc zero) p e = subst (λ q. IsCounted q.threads q.count q.phase) (second p e) refl
  where
    second : (p : Process) → some fresh ≡ some p → fresh ≡ p
    second p e = cc
start-AllCounted (suc (suc i)) p e = absurd cc

Reach-AllCounted : {ps : List Process} → Reach start ps → AllCounted ps
Reach-AllCounted here = start-AllCounted
Reach-AllCounted (next r x) = step-AllCounted (Reach-AllCounted r) x

-- Whichever calls succeed, and however parent and child take turns: what a process reports is one
-- more than the threads that it has created, as the call that failed is counted too.
pub report_overshoots :
    {ps : List Process} (i : ℕ) (p : Process) (most : ℕ)
    → Reach start ps
    → get_elem? ps i ≡ some p
    → p.phase ≡ reported most
    → most ≡ p.threads + 1
report_overshoots i p most r e h =
    let (same, more) = subst (IsCounted p.threads p.count) h (Reach-AllCounted r i p e) in
    same ∙ more
