-- ===== src/StreamCopy.antt =====
-- bases/mycp.cpp: a copy by 1024 bytes at a time.
pub mod Agrees
mod Tests
use codespaces_blank.Prelude.{ℕ, zero, suc, ◌+◌, List, [], ◌∷◌, Option, none, some, length}

-- `read file offset n` is what `read(fd1, buf, 1024)` gives at an offset of the file, `n` calls
-- before the fuel is used up: `none` is -1. `write_at desc position bytes` is the copy after a `write`
-- at a position, as in thread/multhread_copy/main.cpp, and `wrote` says how many bytes that has
-- written.
module _ (read : List ℕ → ℕ → ℕ → Option (List ℕ)) (write_at : List ℕ → ℕ → List ℕ → List ℕ)
    (wrote : List ℕ → ℕ → List ℕ → ℕ) where
  -- The loop, for the file with its offset, and the copy with its own. It ends where `read` gives 0; a
  -- write of -1 bytes fails, and the loop goes on. `none` is a loop that has used up its fuel.
  pub copy_loop :
      (fuel : ℕ) (file : List ℕ) (offset : ℕ) (desc : List ℕ) (position : ℕ) → Option (List ℕ)
  copy_loop zero file offset desc position = none
  copy_loop (suc n) file offset desc position = elim (read file offset n) [
    | none ↦ copy_loop n file offset desc position
    | some [] ↦ some desc
    | some (b ∷ bs) ↦
        copy_loop n file (offset + length (b ∷ bs)) (write_at desc position (b ∷ bs))
          (position + wrote desc position (b ∷ bs))
  ]

  -- `main`. The copy is opened with O_TRUNC.
  pub mycp : (fuel : ℕ) (file : List ℕ) → Option (List ℕ)
  mycp fuel file = copy_loop fuel file 0 [] 0
