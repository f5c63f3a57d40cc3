-- ===== src/FileCopy.antt =====
-- thread/multhread_copy/main.cpp: five threads copy a file, each its own block. Each is joined
-- before the next is created, so they run one after the other.
pub mod Whole
mod Tests
use codespaces_blank.Prelude.{ℕ, zero, suc, ◌+◌, ◌-◌, ◌*◌, ◌/◌, List, take, drop}

-- `pos`
pub record Pos : Type 0 where
  pub block_size : ℕ
  pub offset : ℕ

-- What `main` puts into the `pos` of thread `i`, for `i` below 4.
pub block : (len i : ℕ) → Pos
block len i = record { block_size = len / 5; offset = i * (len / 5) }

-- What `main` puts into the last `pos`: `blockSize` is set twice.
pub rest : (len : ℕ) → Pos
rest len = record { block_size = len - first.block_size * 4; offset = first.block_size * 4 }
  where
    first : Pos
    first = record { block_size = len / 5; offset = 0 }

-- `write_at file offset bytes` is what `lseek` and then `write` make of the file's bytes.
module _ (write_at : List ℕ → ℕ → List ℕ → List ℕ) where
  -- `fun`, with the bytes that `ptr` maps. The file is opened without O_TRUNC.
  pub copy_block : (ptr : List ℕ) → Pos → (desc : List ℕ) → List ℕ
  copy_block ptr p desc = write_at desc p.offset (take p.block_size (drop p.offset ptr))

  -- The loop of `main`, with `n` threads left from number `i`.
  pub copy_blocks : (ptr : List ℕ) (len n i : ℕ) (desc : List ℕ) → List ℕ
  copy_blocks ptr len zero i desc = desc
  copy_blocks ptr len (suc n) i desc =
      copy_blocks ptr len n (i + 1) (copy_block ptr (block len i) desc)

  -- `main`, where `open` and `mmap` succeed.
  pub copy : (ptr : List ℕ) (len : ℕ) (desc : List ℕ) → List ℕ
  copy ptr len desc = copy_block ptr (rest len) (copy_blocks ptr len 4 0 desc)
