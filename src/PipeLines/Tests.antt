-- ===== src/PipeLines/Tests.antt =====
-- Runs of socket/epoll/pipe/pipe.cpp.
use codespaces_blank.Prelude.{ℕ, ◌≡◌, refl, arith, replicate}
use codespaces_blank.PipeLines.{
  Channel, fill, fill_lines, opening, writes, reads, Reach, here, next,
}
use codespaces_blank.PipeLines.Order.{lines, output_is_lines}

-- The child has written once, and the parent read once.
abbrev after_read : Channel
after_read = record { buf = lines 2 0; ch = 99; pipe = lines 1 1; output = lines 1 0 }

Reach-read : Reach (opening (replicate 10 0)) after_read
unfolding fill_lines fill
Reach-read = next (next here writes) (reads (omega arith))

output_is_lines_example :
    (r : ℕ) × (q : ℕ) × (after_read.output ≡ lines r 0) × (after_read.pipe ≡ lines q r)
output_is_lines_example = output_is_lines (replicate 10 0) after_read refl Reach-read
