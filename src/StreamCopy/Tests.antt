-- ===== src/StreamCopy/Tests.antt =====
-- Runs of bases/mycp.cpp on small inputs.
use codespaces_blank.Prelude.{
  ℕ, ◌+◌, ◌≡◌, refl, ap, List, [], ◌∷◌, ◌++◌, Option, some, arith, length, take, drop,
}
use codespaces_blank.FileCopy.{copy}
use codespaces_blank.StreamCopy.{mycp}
use codespaces_blank.StreamCopy.Agrees.{IsRead, drop_over, mycp_agrees_with_copy}

-- A `read` that gives one byte at a time, and a `write` that overwrites or appends.
abbrev read_one : List ℕ → ℕ → ℕ → Option (List ℕ)
read_one file o n = some (take 1 (drop o file))

abbrev overwrite : List ℕ → ℕ → List ℕ → List ℕ
overwrite file o bytes = take o file ++ (bytes ++ drop (o + length bytes) file)

read_one-IsRead : IsRead read_one
read_one-IsRead = record {
  size = λ file o n. 1;
  positive = λ file o n. omega arith;
  asked = λ file o n. omega arith;
  within = λ file o n h. omega arith;
  before = λ file o n h. refl;
  at_end = λ file o n h. ap (λ k. some (take 1 k)) (drop_over o file h);
}

mycp_agrees_with_copy_example :
    (mycp read_one overwrite (λ desc p bytes. length bytes) 4 (7 ∷ 8 ∷ 9 ∷ [])
      ≡ some (copy overwrite (7 ∷ 8 ∷ 9 ∷ []) (length {A = ℕ} (7 ∷ 8 ∷ 9 ∷ [])) []))
    × (mycp read_one overwrite (λ desc p bytes. length bytes) 4 (7 ∷ 8 ∷ 9 ∷ [])
        ≡ some (7 ∷ 8 ∷ 9 ∷ []))
mycp_agrees_with_copy_example =
    mycp_agrees_with_copy read_one overwrite (λ desc p bytes. length bytes) read_one-IsRead
      (λ file o bytes h. refl) (λ desc p bytes. refl) 4 (7 ∷ 8 ∷ 9 ∷ []) (omega arith)
