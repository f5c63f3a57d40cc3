-- ===== src/FileCopy/Tests.antt =====
-- A copy by thread/multhread_copy/main.cpp of seven bytes over a file of nine.
use codespaces_blank.Prelude.{ℕ, ◌+◌, ◌≡◌, refl, List, [], ◌∷◌, ◌++◌, length, take, drop}
use codespaces_blank.FileCopy.{copy}
use codespaces_blank.FileCopy.Whole.{copy_lem}

-- A file that takes every write in full.
abbrev splice : List ℕ → ℕ → List ℕ → List ℕ
splice file offset bytes = take offset file ++ (bytes ++ drop (offset + length bytes) file)

abbrev source : List ℕ
source = 1 ∷ 2 ∷ 3 ∷ 4 ∷ 5 ∷ 6 ∷ 7 ∷ []

abbrev older : List ℕ
older = 9 ∷ 9 ∷ 9 ∷ 9 ∷ 9 ∷ 9 ∷ 9 ∷ 8 ∷ 8 ∷ []

copy_lem_example : copy splice source 7 older ≡ source ++ (8 ∷ 8 ∷ [])
copy_lem_example = copy_lem splice (λ file offset bytes h. refl) source older 7 refl
