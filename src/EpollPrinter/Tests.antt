-- ===== src/EpollPrinter/Tests.antt =====
-- Runs of socket/epoll/CS_socket/server.cpp.
use codespaces_blank.Prelude.{
  ℕ, ◌≡◌, refl, sym, ap, ◌∙◌, Bool, true, false, List, [], ◌∷◌, Option, none, some, ◌==◌, ltb, ◌||◌,
  arith,
}
use codespaces_blank.EpollPrinter.{
  Server, Ready, accept_client, read_client, listening, handle, handle_all, serve,
}
use codespaces_blank.EpollPrinter.Descriptors.{
  HonestTurn, HonestTurns, IsLeaked, ended_client_leaks,
}

abbrev begun : Server
begun = listening 3 (λ i. ltb i 3 || (i == 4))

-- Client 5 connects; then it ends, and client 6 connects.
abbrev connects : ℕ → Ready
connects c = record { fd = 3; writable = false; accepted = some c; bytes = none }

abbrev ends : Ready
ends = record { fd = 5; writable = false; accepted = none; bytes = some [] }

abbrev connected : Server
connected = handle 3 (connects 5) begun

abbrev one_turn : List (List Ready)
one_turn = (connects 5 ∷ []) ∷ []

-- The descriptor that is accepted last.
given : (s : Server) (c d : ℕ) → s.opened c ≡ false → some c ≡ some d → s.opened d ≡ false
given s c d h e = sym (ap at_given e) ∙ h
  where
    at_given : Option ℕ → Bool
    at_given none = true
    at_given (some k) = s.opened k

abbrev ended : Server
ended = handle 3 ends connected

closed_6 : ended.opened 6 ≡ false
unfolding handle accept_client read_client
closed_6 = refl

watches_3 : ended.registered 3 ≡ true
unfolding handle accept_client read_client
watches_3 = refl

open_5 : connected.opened 5 ≡ true
unfolding handle accept_client
open_5 = refl

still_open : HonestTurns 3 ended ((connects 6 ∷ []) ∷ [])
still_open = ((record { reported = watches_3; unused = λ c. given ended 6 c closed_6 }, tt), tt)

none_left : HonestTurn 3 connected ended []
none_left = tt

still_there : HonestTurns 3 (handle_all 3 [] ended) ((connects 6 ∷ []) ∷ [])
unfolding handle_all
still_there = still_open

ended_client_leaks_example :
    IsLeaked 5 (serve 3 ((connects 6 ∷ []) ∷ []) (handle_all 3 (ends ∷ []) connected))
ended_client_leaks_example =
    ended_client_leaks 3 ends [] ((connects 6 ∷ []) ∷ []) connected connected refl (omega arith)
      refl open_5 none_left tt still_there
