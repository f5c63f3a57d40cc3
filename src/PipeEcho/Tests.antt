-- ===== src/PipeEcho/Tests.antt =====
-- A line of two bytes through IPC/PIPE.cpp, with an old text in the parent's array.
use mathlib.Core.Option
use codespaces_blank.Prelude.{ℕ, ◌≡◌, ◌++◌, refl, List, [], ◌∷◌, some, arith, drop, replicate}
use codespaces_blank.PipeEcho.{until_zero, read_into, pipe_echo}
use codespaces_blank.PipeEcho.Discloses.{echo_discloses}

abbrev old_text : List ℕ
old_text = 120 ∷ 121 ∷ 122 ∷ replicate 97 0

echo_discloses_example :
    pipe_echo old_text (replicate 100 1) (some (104 ∷ 10 ∷ []))
    ≡ Option.map (λ t. (104 ∷ 10 ∷ []) ++ t) (until_zero (drop 2 old_text))
echo_discloses_example =
    echo_discloses old_text (replicate 100 1) (104 ∷ 10 ∷ []) refl refl (omega arith)
      (omega arith, (omega arith, tt))

old_byte_is_printed :
    pipe_echo old_text (replicate 100 1) (some (104 ∷ 10 ∷ [])) ≡ some (104 ∷ 10 ∷ 122 ∷ [])
unfolding pipe_echo read_into until_zero
old_byte_is_printed = refl
