-- ===== src/EdgeReader/Tests.antt =====
-- A run of socket/epoll/non_block/server.cpp on two bytes.
use codespaces_blank.Prelude.{◌≡◌, ◌⊎◌, refl, true, false, [], ◌∷◌, ◌++◌, arith}
use codespaces_blank.EdgeReader.{
  waiting, draining, Connection, added, wakes, reads, finds_none, Reach, here, next,
}
use codespaces_blank.EdgeReader.Drains.{no_byte_overlooked}

abbrev drained : Connection
drained = record {
  phase = waiting;
  pending = [];
  edge = false;
  output = 1 ∷ 2 ∷ [];
  arrived = 1 ∷ 2 ∷ [];
}

Reach-drained : Reach (added (1 ∷ 2 ∷ [])) drained
Reach-drained =
    next
      (next
        (next (next here (wakes refl refl))
          (reads 1 refl (omega arith) (omega arith) (omega arith)))
        (reads 1 refl (omega arith) (omega arith) (omega arith)))
      (finds_none refl refl)

no_byte_overlooked_example :
    (drained.output ++ drained.pending ≡ drained.arrived)
    × ((drained.edge ≡ true) ⊎ (drained.phase ≡ draining) ⊎ (drained.output ≡ drained.arrived))
no_byte_overlooked_example = no_byte_overlooked (1 ∷ 2 ∷ []) drained Reach-drained
