-- ===== src/FileCopy/Whole.antt =====
-- The blocks of thread/multhread_copy/main.cpp make up the file.
use codespaces_blank.Prelude.{
  ℕ, zero, suc, ◌+◌, ◌-◌, ◌*◌, ◌/◌, ◌≤◌, ◌≡◌, subst, sym, ap, ap₂, ◌∙◌, List, ◌++◌, arith,
  append_assoc, length, take, drop, length-append, length-drop, take-add, drop-add, take-append,
  drop-append, length-take, take_all,
}
use native.Mathlib.Nat.{add-mul, suc-mul}
use codespaces_blank.FileCopy.{Pos, block, rest, copy_block, copy_blocks, copy}

-- What POSIX says of a `write` of all the bytes, at an offset in the file or at its end.
abbrev pub IsFullWrite : (List ℕ → ℕ → List ℕ → List ℕ) → Type 0
IsFullWrite write_at =
    (file : List ℕ) (offset : ℕ) (bytes : List ℕ)
    → offset ≤ length file
    → write_at file offset bytes ≡ take offset file ++ (bytes ++ drop (offset + length bytes) file)

module _ (write_at : List ℕ → ℕ → List ℕ → List ℕ) (full_write : IsFullWrite write_at)
    (ptr desc : List ℕ) where
  -- The file whose first `o` bytes are copied.
  abbrev copied : ℕ → List ℕ
  copied o = take o ptr ++ drop o desc

  copy_block-copied :
      (p : Pos)
      → p.offset + p.block_size ≤ length ptr
      → copy_block write_at ptr p (copied p.offset) ≡ copied (p.offset + p.block_size)
  unfolding copy_block
  copy_block-copied p h =
      let o = p.offset in
      let b = p.block_size in
      let bytes = take b (drop o ptr) in
      let front = length-take o ptr (omega arith) in
      let size = length-take b (drop o ptr) (omega (arith, length-drop o ptr)) in
      full_write (copied o) o bytes (omega (arith, front, length-append (take o ptr) (drop o desc)))
      ∙ ap₂ ◌++◌ (take-append o (take o ptr) (drop o desc) front) (
          ap (λ k. bytes ++ k)
            (ap (λ k. drop (o + k) (copied o)) size
              ∙ drop-add o b (copied o)
              ∙ ap (drop b) (drop-append o (take o ptr) (drop o desc) front)
              ∙ sym (drop-add o b desc)))
      ∙ sym (append_assoc (take o ptr) bytes (drop (o + b) desc))
      ∙ ap (λ k. k ++ drop (o + b) desc) (sym (take-add o b ptr))

  copy_blocks-copied :
      (len n i : ℕ)
      → (i + n) * (len / 5) ≤ length ptr
      → copy_blocks write_at ptr len n i (copied (i * (len / 5))) ≡ copied ((i + n) * (len / 5))
  unfolding copy_blocks block
  copy_blocks-copied len zero i h = ap (λ k. copied (k * (len / 5))) (omega arith)
  copy_blocks-copied len (suc n) i h =
      let q = len / 5 in
      let next : i * q + q ≡ (i + 1) * q = omega (arith, add-mul i 1 q) in
      let same : i + 1 + n ≡ i + suc n = omega arith in
      ap (copy_blocks write_at ptr len n (i + 1)) (
        copy_block-copied (block len i) (omega (arith, h, add-mul i (suc n) q, suc-mul n q))
        ∙ ap copied next)
      ∙ copy_blocks-copied len n (i + 1) (subst (λ k. k * q ≤ length ptr) (sym same) h)
      ∙ ap (λ k. copied (k * q)) same

  -- Where every `write` writes all its bytes, and `len` is the length of the source, the five
  -- blocks write each byte of the source to its place; what an older and longer file has behind
  -- them stays there.
  pub copy_lem : (len : ℕ) → length ptr ≡ len → copy write_at ptr len desc ≡ ptr ++ drop len desc
  unfolding copy rest
  copy_lem len e =
      let q = len / 5 in
      let start : 0 ≡ 0 * q = omega arith in
      let four : (0 + 4) * q ≡ q * 4 = omega arith in
      let all : q * 4 + (len - q * 4) ≡ len = omega arith in
      ap (copy_block write_at ptr (rest len)) (
        ap (λ k. copy_blocks write_at ptr len 4 0 (copied k)) start
        ∙ copy_blocks-copied len 4 0 (omega arith)
        ∙ ap copied four)
      ∙ copy_block-copied (rest len) (omega arith)
      ∙ ap copied all
      ∙ ap (λ k. k ++ drop len desc) (take_all len ptr e)
