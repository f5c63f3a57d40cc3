-- ===== src/DirList/Twice.antt =====
-- How often bases/myls.cpp prints what it finds.
use native.Mathlib.Nat.{two-pow-succ, mul-add, add-mul}
use codespaces_blank.Prelude.{
  ℕ, zero, suc, refl, ◌≤◌, ◌-◌, ◌+◌, ◌*◌, ◌^◌, ◌≡◌, ap, ◌∙◌, List, [], ◌∷◌, ◌++◌, arith, some, none,
  Option, if◌then◌else◌, total, total-append, Bool-cases, inl, inr,
}
use codespaces_blank.DirList.{
  Node, missing, file, directory, closed_directory, Entries, nil, cons, Line, is_dot, join, is_file,
  read_dir, listing,
}

-- The lines where no stream is missing.
mutual
  lines_of : List ℕ → Node → List Line
  lines_of name missing = []
  lines_of name (file size) = record { size = size; name = name } ∷ []
  lines_of name (directory size es) = lines_in name es ++ (record { size = size; name = name } ∷ [])
  lines_of name (closed_directory size) = record { size = size; name = name } ∷ []

  lines_in : List ℕ → Entries → List Line
  lines_in dir nil = []
  lines_in dir (cons name node rest) =
      let lines = lines_of (join dir name) node in
      let others = lines_in dir rest in if is_dot name then others else lines ++ (lines ++ others)

-- How many streams the program opens: one for each visit to a directory.
unfoldable mutual
  pub opens : Node → ℕ
  opens missing = 0
  opens (file size) = 0
  opens (directory size es) = suc (opens_in es)
  opens (closed_directory size) = 0

  pub opens_in : Entries → ℕ
  opens_in nil = 0
  opens_in (cons name node rest) =
      let here = opens node in
      let others = opens_in rest in if is_dot name then others else here + (here + others)

mutual
  unfolding is_file read_dir lines_of lines_in opens opens_in

  is_file-lines_of :
      (k h : ℕ) (name : List ℕ) (n : Node)
      → h ≡ opens n + k
      → is_file h name n ≡ (k, lines_of name n)
  is_file-lines_of k h name missing e = ap (λ x. (x, [])) (omega arith)
  is_file-lines_of k h name (file size) e =
      ap (λ x. (x, record { size = size; name = name } ∷ [])) (omega arith)
  is_file-lines_of k zero name (directory size es) e = absurd (omega arith)
  is_file-lines_of k (suc h) name (directory size es) e =
      ap (λ r. (r.0, r.1 ++ (record { size = size; name = name } ∷ [])))
        (read_dir-lines_in k h name es (omega arith))
  is_file-lines_of k h name (closed_directory size) e =
      ap (λ x. (x, record { size = size; name = name } ∷ [])) (omega arith)

  read_dir-lines_in :
      (k h : ℕ) (dir : List ℕ) (es : Entries)
      → h ≡ opens_in es + k
      → read_dir h dir es ≡ (k, lines_in dir es)
  read_dir-lines_in k h dir nil e = ap (λ x. (x, [])) (omega arith)
  read_dir-lines_in k h dir (cons name node rest) e = elim (Bool-cases (is_dot name)) [
    | inl dot ↦ rw dot (read_dir-lines_in k h dir rest (ground arith))
    | inr other ↦
        let path = join dir name in
        let left = opens_in rest + k in
        let enough : h ≡ opens node + (opens node + left) = ground arith in
        let first = is_file-lines_of (opens node + left) h path node enough in
        let second = is_file-lines_of left (opens node + left) path node refl in
        let others = read_dir-lines_in k left dir rest refl in
        rw (other, first, second, others) refl
  ]

-- A walk over the tree that comes to each file and directory once, with its depth below the start.
mutual
  pub walk : ℕ → List ℕ → Node → List (ℕ × Line)
  walk d name missing = []
  walk d name (file size) = (d, record { size = size; name = name }) ∷ []
  walk d name (directory size entries) =
      walk_all (suc d) name entries ++ ((d, record { size = size; name = name }) ∷ [])
  walk d name (closed_directory size) = (d, record { size = size; name = name }) ∷ []

  pub walk_all : ℕ → List ℕ → Entries → List (ℕ × Line)
  walk_all d dir nil = []
  walk_all d dir (cons name node rest) =
      let here = walk d (join dir name) node in
      let others = walk_all d dir rest in if is_dot name then others else here ++ others

module _ (w : Line → ℕ) where
  -- What a line at its depth counts for.
  abbrev pub doubled : ℕ × Line → ℕ
  doubled (d, l) = 2 ^ d * w l

  twice : (d a b : ℕ) → 2 ^ d * (a + (a + b)) ≡ 2 ^ suc d * a + 2 ^ d * b
  twice d a b = omega (
    arith,
    mul-add (2 ^ d) a (a + b),
    mul-add (2 ^ d) a b,
    add-mul (2 ^ d) (2 ^ d) a,
    ap (λ k. k * a) (two-pow-succ d),
  )

  mutual
    unfolding lines_of walk

    lines_of-walk :
        (d : ℕ) (name : List ℕ) (n : Node)
        → 2 ^ d * total w (lines_of name n) ≡ total doubled (walk d name n)
    lines_of-walk d name missing = omega arith
    lines_of-walk d name (file size) = grind arith
    lines_of-walk d name (directory size es) =
        let l : Line = record { size = size; name = name } in
        omega (
          arith,
          ap (λ k. 2 ^ d * k) (total-append w (lines_in name es) (l ∷ [])),
          mul-add (2 ^ d) (total w (lines_in name es)) (w l + 0),
          mul-add (2 ^ d) (w l) 0,
          lines_in-walk d name es,
          total-append doubled (walk_all (suc d) name es) ((d, l) ∷ []),
        )
    lines_of-walk d name (closed_directory size) = grind arith

    lines_in-walk :
        (d : ℕ) (dir : List ℕ) (es : Entries)
        → 2 ^ d * total w (lines_in dir es) ≡ total doubled (walk_all (suc d) dir es)
    lines_in-walk d dir nil = omega arith
    lines_in-walk d dir (cons name node rest) =
        let lines = lines_of (join dir name) node in
        let others = lines_in dir rest in
        let here = walk (suc d) (join dir name) node in
        let later = lines_in-walk d dir rest in
        let now = lines_of-walk (suc d) (join dir name) node in
        elim (Bool-cases (is_dot name)) [
          | inl dot ↦ rw dot later
          | inr other ↦ rw other (
              ap (λ k. 2 ^ d * k)
                (total-append w lines (lines ++ others)
                  ∙ ap (λ k. total w lines + k) (total-append w lines others))
              ∙ twice d (total w lines) (total w others)
              ∙ omega (arith, later, now, total-append doubled here (walk_all (suc d) dir rest)))
        ]

at_path :
    (w : Line → ℕ) (h : ℕ) (name : List ℕ) (n : Node)
    → opens n ≤ h
    → total w (is_file h name n).1 ≡ total (doubled w) (walk 0 name n)
at_path w h name n enough =
    ap (λ r. total w r.1) (is_file-lines_of (h - opens n) h name n (omega arith))
    ∙ omega (arith, lines_of-walk w 0 name n)

-- What `main` starts at: the path that it is given, or ".".
abbrev pub start_path : Option (List ℕ) → List ℕ
start_path none = b'.' ∷ []
start_path (some path) = path

-- Where the process can open as many streams as there are visits to a directory, the listing holds
-- what a walk over the tree finds, each file or directory at depth `d` below the start 2 ^ d times: for
-- every measure of lines, the total over the listing is the total over the walk, a line at depth `d`
-- counted 2 ^ d times.
pub listed_twice_per_level :
    (w : Line → ℕ) (streams : ℕ) (path : Option (List ℕ)) (tree : List ℕ → Node)
    → opens (tree (start_path path)) ≤ streams
    → total w (listing streams path tree)
      ≡ total (doubled w) (walk 0 (start_path path) (tree (start_path path)))
unfolding listing
listed_twice_per_level w h none tree enough = at_path w h (b'.' ∷ []) (tree (b'.' ∷ [])) enough
listed_twice_per_level w h (some path) tree enough = at_path w h path (tree path) enough
