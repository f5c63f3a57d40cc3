-- ===== src/StreamCopy/Agrees.antt =====
-- The copy of bases/mycp.cpp against that of thread/multhread_copy/main.cpp.
use codespaces_blank.Prelude.{
  ℕ, zero, suc, ◌+◌, ◌≤◌, ◌<◌, ◌≡◌, refl, sym, ap, ap₂, ◌∙◌, List, [], ◌∷◌, ◌++◌, Option, none,
  some, arith, length, take, drop, drop-nil, append-nil, take-add, length-take, length-drop,
  take_all, dec_lt,
}
use codespaces_blank.FileCopy.{copy}
use codespaces_blank.FileCopy.Whole.{IsFullWrite, copy_lem}
use codespaces_blank.StreamCopy.{copy_loop, mycp}

-- A `read` of a regular file that does not fail: before the end it gives some of the next bytes, at
-- most as many as asked for, and at the end none.
pub record IsRead (read : List ℕ → ℕ → ℕ → Option (List ℕ)) : Type 0 where
  pub size : List ℕ → ℕ → ℕ → ℕ
  pub positive : (file : List ℕ) (o n : ℕ) → 0 < size file o n
  pub asked : (file : List ℕ) (o n : ℕ) → size file o n ≤ 1024
  pub within : (file : List ℕ) (o n : ℕ) → o < length file → o + size file o n ≤ length file
  pub before :
      (file : List ℕ) (o n : ℕ)
      → o < length file
      → read file o n ≡ some (take (size file o n) (drop o file))
  pub at_end : (file : List ℕ) (o n : ℕ) → length file ≤ o → read file o n ≡ some []

-- No `write` is a short one.
abbrev pub IsWhole : (List ℕ → ℕ → List ℕ → ℕ) → Type 0
IsWhole wrote = (desc : List ℕ) (p : ℕ) (bytes : List ℕ) → wrote desc p bytes ≡ length bytes

pub drop_over : (n : ℕ) (xs : List ℕ) → length xs ≤ n → drop n xs ≡ []
drop_over zero [] h = refl
drop_over zero (x ∷ xs) h = absurd (omega arith)
drop_over (suc n) [] h = refl
drop_over (suc n) (x ∷ xs) h = drop_over n xs (omega arith)

-- A write at the end of the copy.
write_end :
    (write_at : List ℕ → ℕ → List ℕ → List ℕ)
    → IsFullWrite write_at
    → (o m : ℕ) (file : List ℕ) → o ≤ length file
    → length (take m (drop o file)) ≡ m
    → write_at (take o file) o (take m (drop o file)) ≡ take (o + m) file
write_end write_at w o m file h size =
    let front = length-take o file h in
    let bytes = take m (drop o file) in
    w (take o file) o bytes (omega (arith, front))
    ∙ ap₂ ◌++◌ (take_all o (take o file) front) (
        ap (λ k. bytes ++ k) (drop_over (o + length bytes) (take o file) (omega (arith, front)))
        ∙ append-nil bytes)
    ∙ sym (take-add o m file)

module _ (read : List ℕ → ℕ → ℕ → Option (List ℕ)) (write_at : List ℕ → ℕ → List ℕ → List ℕ)
    (wrote : List ℕ → ℕ → List ℕ → ℕ) where
  -- One round of the loop, for some bytes.
  copy_loop_bytes :
      (n : ℕ) (file : List ℕ) (o : ℕ) (desc : List ℕ) (p : ℕ) (bytes : List ℕ)
      → 0 < length bytes
      → read file o n ≡ some bytes
      → copy_loop read write_at wrote (suc n) file o desc p
        ≡ copy_loop read write_at wrote n file
            (o + length bytes)
            (write_at desc p bytes)
            (p + wrote desc p bytes)
  unfolding copy_loop
  copy_loop_bytes n file o desc p [] h e = absurd (omega arith)
  copy_loop_bytes n file o desc p (b ∷ bs) h e =
      ap
        (λ (r : Option (List ℕ)). elim r [
          | none ↦ copy_loop read write_at wrote n file o desc p
          | some [] ↦ some desc
          | some (c ∷ cs) ↦
              copy_loop read write_at wrote n file (o + length (c ∷ cs)) (write_at desc p (c ∷ cs))
                (p + wrote desc p (c ∷ cs))
        ])
        e

  copy_loop_end :
      (n : ℕ) (file : List ℕ) (o : ℕ) (desc : List ℕ) (p : ℕ)
      → read file o n ≡ some []
      → copy_loop read write_at wrote (suc n) file o desc p ≡ some desc
  unfolding copy_loop
  copy_loop_end n file o desc p e =
      ap
        (λ (r : Option (List ℕ)). elim r [
          | none ↦ copy_loop read write_at wrote n file o desc p
          | some [] ↦ some desc
          | some (c ∷ cs) ↦
              copy_loop read write_at wrote n file (o + length (c ∷ cs)) (write_at desc p (c ∷ cs))
                (p + wrote desc p (c ∷ cs))
        ])
        e

  -- The loop on the file whose first `o` bytes are copied.
  copy_loop_lem :
      IsRead read
      → IsFullWrite write_at
      → IsWhole wrote
      → (n : ℕ) (file : List ℕ) (o : ℕ) → o ≤ length file
      → length file < o + n
      → copy_loop read write_at wrote n file o (take o file) o ≡ some file
  copy_loop_lem r w all zero file o h k = absurd (omega arith)
  copy_loop_lem r w all (suc n) file o h k = elim (dec_lt o (length file)) [
    | no over ↦
        copy_loop_end n file o (take o file) o (r.at_end file o n (omega arith))
        ∙ ap some (take_all o file (omega arith))
    | yes more ↦
        let m = r.size file o n in
        let bytes = take m (drop o file) in
        let size : length bytes ≡ m =
          length-take m (drop o file) (omega (arith, length-drop o file, r.within file o n more)) in
        copy_loop_bytes n file o (take o file) o bytes (omega (arith, size, r.positive file o n))
          (r.before file o n more)
        ∙ ap
            (λ k.
              copy_loop read write_at wrote n file (o + length bytes)
                (write_at (take o file) o bytes) (o + k))
            (all (take o file) o bytes)
        ∙ ap
            (λ k.
              copy_loop read write_at wrote n file (o + k) (write_at (take o file) o bytes) (o + k))
            size
        ∙ ap (λ k. copy_loop read write_at wrote n file (o + m) k (o + m))
            (write_end write_at w o m file h size)
        ∙ copy_loop_lem r w all n file (o + m) (r.within file o n more)
            (omega (arith, r.positive file o n))
  ]

  -- Where `read` never fails, and gives some of the next bytes before the end of the file and none
  -- behind it, and every `write` writes all its bytes, the loop ends after at most one round for each
  -- byte and one more, and its copy is the one that the five threads of the other program make of
  -- the same file in an empty one.
  pub mycp_agrees_with_copy :
      IsRead read
      → IsFullWrite write_at
      → IsWhole wrote
      → (fuel : ℕ) (file : List ℕ) → length file < fuel
      → (mycp read write_at wrote fuel file ≡ some (copy write_at file (length file) []))
        × (mycp read write_at wrote fuel file ≡ some file)
  unfolding mycp
  mycp_agrees_with_copy r w all fuel file h =
      let same : mycp read write_at wrote fuel file ≡ some file =
        copy_loop_lem r w all fuel file 0 (omega arith) (omega arith) in
      (
        same
            ∙ ap some (
                sym (
                  copy_lem write_at w file [] (length file) refl
                  ∙ ap (λ k. file ++ k) (drop-nil (length file))
                  ∙ append-nil file)),
        same,
      )

  loops :
      (file : List ℕ)
      → ((o n : ℕ) → read file o n ≡ none)
      → (fuel o : ℕ) (desc : List ℕ) (p : ℕ)
      → copy_loop read write_at wrote fuel file o desc p ≡ none
  unfolding copy_loop
  loops file fails zero o desc p = refl
  loops file fails (suc n) o desc p =
      ap
        (λ (r : Option (List ℕ)). elim r [
          | none ↦ copy_loop read write_at wrote n file o desc p
          | some [] ↦ some desc
          | some (c ∷ cs) ↦
              copy_loop read write_at wrote n file (o + length (c ∷ cs)) (write_at desc p (c ∷ cs))
                (p + wrote desc p (c ∷ cs))
        ])
        (fails o n)
      ∙ loops file fails n o desc p

  -- Where `read` fails at every call, `n` being -1, the loop never ends.
  pub failing_read_loops :
      (file : List ℕ)
      → ((o n : ℕ) → read file o n ≡ none)
      → (fuel : ℕ) → mycp read write_at wrote fuel file ≡ none
  unfolding mycp
  failing_read_loops file fails fuel = loops file fails fuel 0 [] 0
