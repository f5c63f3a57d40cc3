-- ===== src/ThreadLimit.antt =====
-- thread/max_thread.cpp: parent and child, each creating threads until that fails. Whether a call of
-- `pthread_create` succeeds is left open, as it depends on the limits of the system and on what all
-- processes have.
pub mod Reports
mod Tests
use codespaces_blank.Prelude.{ℕ, zero, suc, ◌+◌, ◌≡◌, List, [], ◌∷◌, some, get_elem?, set}

-- A process in its loop, or behind it with what it reports as the most threads.
pub data Phase : Type 0 where
  creating : Phase
  reported : (most : ℕ) → Phase

-- `count`, `threads`, which is how many threads it has created, and where it stands.
pub record Process : Type 0 where
  pub count : ℕ
  pub threads : ℕ
  pub phase : Phase

-- The processes behind the `fork`.
abbrev pub fresh : Process
fresh = record { count = 0; threads = 0; phase = creating }

abbrev pub start : List Process
start = fresh ∷ fresh ∷ []

-- A turn of the loop of process `i`: `pthread_create` succeeds, or it fails and the loop ends.
pub data Step (ps : List Process) : List Process → Type 0 where
  creates :
      (i : ℕ) (p : Process)
      → get_elem? ps i ≡ some p
      → p.phase ≡ creating
      → Step ps (set ps i (record p { count = p.count + 1; threads = p.threads + 1 }))
  fails :
      (i : ℕ) (p : Process)
      → get_elem? ps i ≡ some p
      → p.phase ≡ creating
      → Step ps (set ps i (record p { count = p.count + 1; phase = reported (p.count + 1) }))

pub data Reach (ps : List Process) : List Process → Type 0 where
  here : Reach ps ps
  next : {qs rs : List Process} → Reach ps qs → Step qs rs → Reach ps rs
