-- ===== src/Siblings/Tests.antt =====
-- The loops of process_api/subprocess.cpp and process_api/execl.cpp where the third call of `fork` fails.
use codespaces_blank.Prelude.{ℕ, suc, ◌+◌, ◌≡◌, Bool, if◌then◌else◌, ltb, arith, total}
use codespaces_blank.Siblings.{positive, subprocess_loop, execl_loop, touch, behind_loop}
use codespaces_blank.Siblings.Numbers.{
  all_fork, is_child, is_parent, prints, fails, runs, is_pause, round, each_role_once,
}

abbrev first_two : ℕ → Bool
first_two i = ltb i 2

each_role_once_example :
    (total (prints 6 (is_child (1 + 1))) (subprocess_loop first_two 6 0)
      ≡ (if all_fork first_two 0 (suc 1) then 1 else 0))
    × (total (prints 6 is_parent) (subprocess_loop first_two 6 0)
        ≡ (if all_fork first_two 0 6 then 1 else 0))
    × (total fails (subprocess_loop first_two 6 0) ≡ (if all_fork first_two 0 6 then 0 else 1))
    × (total (λ q. runs touch (behind_loop q)) (execl_loop first_two 3 0 positive)
        ≡ (if first_two (round touch) then 1 else 0))
    × (total (λ q. is_pause (behind_loop q)) (execl_loop first_two 3 0 positive)
        ≡ (if first_two 2 then 1 else 0))
each_role_once_example = each_role_once first_two 6 1 touch (omega arith)
