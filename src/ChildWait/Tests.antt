-- ===== src/ChildWait/Tests.antt =====
-- The child of process_api/wait.cpp is killed by signal 9 after one line.
use codespaces_blank.Prelude.{ℕ, ◌<◌, ◌≡◌, ◌⊎◌, refl, Bool, false, arith}
use codespaces_blank.ChildWait.{
  killed, exited, status, decode, System, start, report, prints, is_killed, asks_again, collects,
  Reach, here, next,
}
use codespaces_blank.ChildWait.Reports.{report_tells_fate}

abbrev collected : System
collected = record {
  count = 9;
  lines = 1;
  child = killed 9 false;
  asked = 1;
  parent = report (decode (status (killed 9 false)));
}

Reach-collected : Reach start collected
Reach-collected =
    next
      (next (next (next here (asks_again refl refl)) (prints 9 refl refl))
        (is_killed 9 false refl (omega arith) (omega arith)))
      (collects refl (λ e. absurd cc))

report_tells_fate_example :
    ((◌≡◌ {A = ℕ} 0 11)
      × (◌≡◌ {A = ℕ} 9 0)
      × (collected.lines ≡ 10)
      × (collected.child ≡ exited 11))
    ⊎ ((◌≡◌ {A = ℕ} 0 0) × (0 < 9) × ((d : Bool) × (collected.child ≡ killed 9 d)))
unfolding decode
report_tells_fate_example = report_tells_fate 0 9 Reach-collected refl
