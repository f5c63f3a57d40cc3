-- ===== src/Forks/Tests.antt =====
-- A run of process_api/fork.cpp with one round, and its output in a file.
use codespaces_blank.Prelude.{
  ◌-◌, ◌*◌, ◌^◌, ◌≤◌, ◌≡◌, refl, ◌⊎◌, false, if◌then◌else◌, [], ◌∷◌, arith, length, total,
}
use codespaces_blank.Forks.{
  child, parent, round, ended, System, start, print, Step, forks, prints, returns, Reach, here,
  next,
}
use codespaces_blank.Forks.Halves.{same}
use codespaces_blank.Forks.Family.{runs, fork_doubles}

abbrev over : System
over = record { processes = ended ∷ ended ∷ []; written = parent 0 ∷ child 0 ∷ [] }

Reach-over : Reach 1 false start 5 over
unfolding print
Reach-over =
    next
      (next
        (next (next (next here (forks 0 0 [] refl (omega arith))) (prints 1 (child 0) [] refl))
          (prints 0 (parent 0) [] refl))
        (returns 0 1 _ refl (omega arith)))
      (returns 1 1 _ refl (omega arith))

fork_doubles_example :
    (5 ≤ 4 * 2 ^ 1 - 3)
    × (((u : System) × Step 1 false over u)
        ⊎ ((total runs over.processes ≡ 0)
            × (length over.processes ≡ 2 ^ 1)
            × (total (same (child 0)) over.written
                ≡ (if false then 2 ^ round (child 0) else 2 ^ (1 - 1)))))
fork_doubles_example = fork_doubles 1 false (child 0) 5 over (omega arith) Reach-over
