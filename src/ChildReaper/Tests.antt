-- ===== src/ChildReaper/Tests.antt =====
-- signal/recovery.cpp with one child, which exits before the handler is set; and signal/r2.cpp.
use codespaces_blank.Prelude.{◌≡◌, ◌⊎◌, ◌≢◌, refl, true, false, [], ◌∷◌}
use codespaces_blank.ChildReaper.{
  zombie, install, unblock, waiting, Family, recovery, r2, start, raise, Step, blocks, fork, forks,
  installs, unblocks, exits, delivers, Reach, here, next, zombies,
}
use codespaces_blank.ChildReaper.Collects.{no_child_overlooked}
use codespaces_blank.ChildReaper.Misses.{children_overlooked}

-- The handler is at its first call.
abbrev handling : Family
handling = record (start []) { children = zombie ∷ []; installed = true; handler = waiting }

Reach-handling : Reach (start (recovery 1)) handling
unfolding raise
Reach-handling =
    next
      (next
        (next
          (next
            (next (next here (blocks (fork ∷ install ∷ unblock ∷ []) refl refl))
              (forks (install ∷ unblock ∷ []) refl refl))
            (exits 0 refl))
          (installs (unblock ∷ []) refl refl))
        (unblocks [] refl refl))
      (delivers refl refl refl)

no_child_overlooked_example :
    ((zombies handling ≡ 0) ⊎ (handling.pending ≡ true) ⊎ (handling.handler ≡ waiting))
    × ((handling.todo ≢ []) ⊎ ((handling.blocked ≡ false) × (handling.installed ≡ true)))
no_child_overlooked_example = no_child_overlooked 1 Reach-handling

children_overlooked_example :
    (s : Family) × Reach (start (r2 10)) s
    × (s.todo ≡ [])
    × (zombies s ≡ 10)
    × ¬ ((t : Family) × Step s t)
children_overlooked_example = children_overlooked 10
