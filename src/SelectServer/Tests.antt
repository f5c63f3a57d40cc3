-- ===== src/SelectServer/Tests.antt =====
-- Runs of the server of socket/select/select.cpp on small inputs.
use codespaces_blank.Prelude.{
  ℕ, ◌-◌, refl, List, [], ◌∷◌, Option, some, arith, leb, if◌then◌else◌, ◌==◌, ◌&&◌,
}
use codespaces_blank.SelectServer.{Server, Selected, Answers, turns}
use codespaces_blank.SelectServer.Watching.{Holds, IsUnwatched, idle_client_forgotten}

-- `toupper` for the letters of ASCII.
abbrev capital : ℕ → ℕ
capital c = if leb 97 c && leb c 122 then c - 32 else c

-- Two clients, 4 and 5, and the listening socket 3: all are watched.
abbrev serving : Server
serving = record { allset = λ i. leb 3 i && leb i 5; nfds = 6; recv_buf = 0 ∷ 0 ∷ 0 ∷ []; log = [] }

-- `hi!` from client 4 and `a` from client 5.
abbrev reads : ℕ → Option (List ℕ)
reads i = if i == 4 then some (104 ∷ 105 ∷ 33 ∷ []) else some (97 ∷ [])

-- Only client 4 is ready.
abbrev only_4 : Selected
only_4 = record { ready = λ i. i == 4; ret = 1 }

abbrev first_turn : Answers
first_turn = record { selected = some only_4; connfd = 9; reads = reads }

abbrev second_turn : Answers
second_turn = record { selected = some only_4; connfd = 8; reads = reads }

idle_client_forgotten_example :
    Holds (IsUnwatched 5) (turns capital 3 (first_turn ∷ second_turn ∷ []) serving)
idle_client_forgotten_example =
    idle_client_forgotten capital 5 3 first_turn only_4 (second_turn ∷ []) serving refl refl
      (omega arith, (omega arith, tt))
