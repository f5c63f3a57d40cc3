-- ===== src/DirList.antt =====
-- bases/myls.cpp: a listing of a directory and what is below it. The file system is a tree; what
-- the program prints is the list of its lines.
pub mod Twice
mod Tests
use codespaces_blank.Prelude.{
  ℕ, zero, suc, Bool, false, List, [], ◌∷◌, ◌++◌, Option, none, some, if◌then◌else◌, ◌==◌,
}

-- What stands at a path: nothing, a file with its size, or a directory with its size and what
-- `readdir` gives, or one that `opendir` does not open. A name is a list of bytes.
mutual
  pub data Node : Type 0 where
    missing : Node
    file : (size : ℕ) → Node
    directory : (size : ℕ) → Entries → Node
    closed_directory : (size : ℕ) → Node

  pub data Entries : Type 0 where
    nil : Entries
    cons : (name : List ℕ) → Node → Entries → Entries

-- `printf("%8ld\t %s\n", sb.st_size, name)`
pub record Line : Type 0 where
  pub size : ℕ
  pub name : List ℕ

-- `strcmp(sdp->d_name, ".") == 0 || strcmp(sdp->d_name, "..") == 0`
pub is_dot : List ℕ → Bool
is_dot [] = false
is_dot (a ∷ []) = a == b'.'
is_dot (a ∷ b ∷ []) = if a == b'.' then b == b'.' else false
is_dot (a ∷ b ∷ c ∷ l) = false

-- `sprintf(path, "%s/%s", dir, sdp->d_name)`; a path of 256 bytes or more overruns `path`, which is
-- not modelled.
pub join : List ℕ → List ℕ → List ℕ
join dir name = dir ++ (b'/' ∷ name)

-- `isFile`, and `read_dir` with `isFile` as its `func`: for each entry it calls both. `streams` is how
-- many directory streams the process can still open; as `read_dir` never closes one, it gives back
-- what is left, and with none left `opendir` fails.
mutual
  pub is_file : (streams : ℕ) → List ℕ → Node → ℕ × List Line
  is_file streams name missing = (streams, [])
  is_file streams name (file size) = (streams, record { size = size; name = name } ∷ [])
  is_file zero name (directory size entries) = (zero, record { size = size; name = name } ∷ [])
  is_file (suc streams) name (directory size entries) =
      let (left, lines) = read_dir streams name entries in
      (left, lines ++ (record { size = size; name = name } ∷ []))
  is_file streams name (closed_directory size) = (streams, record { size = size; name = name } ∷ [])

  pub read_dir : (streams : ℕ) → List ℕ → Entries → ℕ × List Line
  read_dir streams dir nil = (streams, [])
  read_dir streams dir (cons name node rest) =
      let first = is_file streams (join dir name) node in
      let second = is_file first.0 (join dir name) node in
      let others = read_dir second.0 dir rest in
      let skipped = read_dir streams dir rest in
      if is_dot name then skipped else (others.0, first.1 ++ (second.1 ++ others.1))

-- `main`, without and with a path, where `tree` says what stands at a path.
pub listing : (streams : ℕ) → Option (List ℕ) → (tree : List ℕ → Node) → List Line
listing streams none tree = (is_file streams (b'.' ∷ []) (tree (b'.' ∷ []))).1
listing streams (some path) tree = (is_file streams path (tree path)).1
