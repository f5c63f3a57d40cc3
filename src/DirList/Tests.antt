-- ===== src/DirList/Tests.antt =====
-- bases/myls.cpp on a directory `d` with a directory `e` that holds one file `f`.
use codespaces_blank.Prelude.{ℕ, ◌≡◌, refl, arith, if◌then◌else◌, ◌==◌, List, [], ◌∷◌, some, total}
use codespaces_blank.DirList.{
  Node, file, directory, nil, cons, Line, is_dot, join, is_file, read_dir, listing,
}
use codespaces_blank.DirList.Twice.{
  opens, opens_in, walk, doubled, start_path, listed_twice_per_level,
}

abbrev disk : List ℕ → Node
disk path = directory 40 (
    cons (b'.' ∷ []) (directory 40 nil)
      (cons (b'e' ∷ []) (directory 20 (cons (b'f' ∷ []) (file 3) nil)) nil))

-- The lines for the file of three bytes.
abbrev of_three : Line → ℕ
of_three l = if l.size == 3 then 1 else 0

four_times : total of_three (listing 9 (some (b'd' ∷ [])) disk) ≡ 4
unfolding listing is_file read_dir is_dot join
four_times = refl

listed_twice_per_level_example :
    total of_three (listing 9 (some (b'd' ∷ [])) disk)
    ≡ total (doubled of_three) (walk 0 (start_path (some (b'd' ∷ []))) (disk (b'd' ∷ [])))
unfolding opens opens_in is_dot
listed_twice_per_level_example =
    listed_twice_per_level of_three 9 (some (b'd' ∷ [])) disk (omega arith)

-- With one stream the file is not reached.
out_of_streams : total of_three (listing 1 (some (b'd' ∷ [])) disk) ≡ 0
unfolding listing is_file read_dir is_dot join
out_of_streams = refl
