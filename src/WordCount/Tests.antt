-- ===== src/WordCount/Tests.antt =====
-- The child of IPC/mywc.cpp has closed its copy of `fd[1]`, and the parent has done nothing yet.
use codespaces_blank.Prelude.{ℕ, ◌≡◌, ◌⊎◌, refl, arith, true, false, List, [], ◌∷◌}
use codespaces_blank.WordCount.{System, dups, closes, act, start, child_acts, Reach, here, next}
use codespaces_blank.WordCount.Ends.{wc_counts_all}

abbrev output : List ℕ
output = 97 ∷ 10 ∷ []

abbrev one_closed : System
one_closed = record (start output) {
  child_todo = dups 3 0 ∷ [];
  child = act (closes 4) (start output).child;
}

Reach-one_closed : Reach 1 (start output) one_closed
Reach-one_closed = next here (child_acts (closes 4) _ refl)

wc_counts_all_example :
    ((one_closed.done ≡ false) ⊎ (one_closed.counted ≡ output))
    × ((t : System) × Reach 1 one_closed t × (t.done ≡ true) × (t.counted ≡ output))
wc_counts_all_example = wc_counts_all 1 (omega arith) output Reach-one_closed
