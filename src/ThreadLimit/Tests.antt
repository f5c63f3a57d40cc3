-- ===== src/ThreadLimit/Tests.antt =====
-- The child of thread/max_thread.cpp creates a thread, and the parent fails at once.
use codespaces_blank.Prelude.{◌+◌, ◌≡◌, refl, [], ◌∷◌}
use codespaces_blank.ThreadLimit.{reported, Process, start, creates, fails, Reach, here, next}
use codespaces_blank.ThreadLimit.Reports.{report_overshoots}

abbrev parent : Process
parent = record { count = 1; threads = 0; phase = reported 1 }

abbrev child : Process
child = record { count = 2; threads = 1; phase = reported 2 }

Reach-both : Reach start (parent ∷ child ∷ [])
Reach-both =
    next (next (next here (creates 1 _ refl refl)) (fails 0 _ refl refl)) (fails 1 _ refl refl)

report_overshoots_example : 2 ≡ child.threads + 1
report_overshoots_example = report_overshoots 1 child 2 Reach-both refl refl
