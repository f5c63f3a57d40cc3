-- ===== src/ChildWait.antt =====
-- process_api/wait.cpp: a parent that asks again and again whether its child has ended, and then says
-- how. A step is one `printf` of the child, its end, or one turn of the parent's loop.
pub mod Reports
mod Tests
use codespaces_blank.Prelude.{ℕ, suc, ◌+◌, ◌*◌, ◌/◌, ◌%◌, ◌^◌, ◌<◌, ◌≡◌, Bool, if◌then◌else◌}

-- The child runs, has called `exit`, or was killed by a signal, with a core dump or without.
pub data Child : Type 0 where
  running : Child
  exited : (code : ℕ) → Child
  killed : (signal : ℕ) (dumped : Bool) → Child

-- What `waitpid` stores in `status`, as the system documents it: the low byte of the code in the
-- second byte; or the signal in the low 7 bits, and in bit 7 whether there is a core dump.
abbrev pub status : Child → ℕ
status running = 0
status (exited code) = code % 2 ^ 8 * 2 ^ 8
status (killed signal dumped) = signal + (if dumped then 2 ^ 7 else 0)

-- `(status >> 8) & 0xFF` and `status & 0x7F`
pub decode : ℕ → ℕ × ℕ
decode n = (n / 2 ^ 8 % 2 ^ 8, n % 2 ^ 7)

-- The parent asks, has printed what it decoded, or has printed that `waitpid` failed.
pub data Parent : Type 0 where
  asking : Parent
  reported : (code signal : ℕ) → Parent
  failed : Parent

-- `count` of the child, how many lines it has printed, and how often the parent has asked in vain.
pub record System : Type 0 where
  pub count : ℕ
  pub lines : ℕ
  pub child : Child
  pub asked : ℕ
  pub parent : Parent

abbrev pub start : System
start = record { count = 10; lines = 0; child = running; asked = 0; parent = asking }

abbrev pub report : ℕ × ℕ → Parent
report r = reported r.0 r.1

pub data Step (s : System) : System → Type 0 where
  prints :
      (n : ℕ)
      → s.child ≡ running
      → s.count ≡ suc n
      → Step s (record s { count = n; lines = s.lines + 1 })
  exits : s.child ≡ running → s.count ≡ 0 → Step s (record s { child = exited 11 })
  is_killed :
      (signal : ℕ) (dumped : Bool)
      → s.child ≡ running
      → 0 < signal
      → signal < 2 ^ 7
      → Step s (record s { child = killed signal dumped })
  asks_again : s.parent ≡ asking → s.child ≡ running → Step s (record s { asked = s.asked + 1 })
  collects :
      s.parent ≡ asking
      → (s.child ≡ running → ⊥)
      → Step s (record s { parent = report (decode (status s.child)) })
  wait_fails : s.parent ≡ asking → Step s (record s { parent = failed })

pub data Reach (s : System) : System → Type 0 where
  here : Reach s s
  next : {t u : System} → Reach s t → Step t u → Reach s u
