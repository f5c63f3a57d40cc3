-- ===== src/PollServer/Tests.antt =====
-- Rounds of socket/poll/poll.cpp with one client.
use codespaces_blank.Prelude.{
  ◌+◌, ◌≤◌, length, ◌≡◌, ◌≢◌, refl, true, false, [], ◌∷◌, some, arith, set, total, if◌then◌else◌,
  ◌==◌,
}
use codespaces_blank.PollServer.{
  Mask, Server, Answer, ok, initial_server, watched, drop_connection, add_connection, round,
  out_of_fuel, pass, done, polled, Turn, serve, no_events,
}
use codespaces_blank.PollServer.Ends.{pass_ends}
use codespaces_blank.PollServer.Balance.{held, closes, accepts}
use codespaces_blank.PollServer.Runs.{connections_balance}
use codespaces_blank.PollServer.Connections.{Refines, round-Refines}

abbrev readable : Mask
readable = record { pollin = true; pollout = false; pollrdhup = false; pollerr = false }

abbrev hung_up : Mask
hung_up = record { pollin = true; pollout = false; pollrdhup = true; pollerr = false }

abbrev answer : Answer
answer = record { accept = some 7; recv = some (104 ∷ 105 ∷ []); send = ok }

-- The listening socket 3 is ready for a connection, and client 5 has hung up.
abbrev serving : Server
serving = record (initial_server 3) {
  fds =
      set (set (initial_server 3).fds 0 (record (watched 3) { revents = readable })) 1
        (record (watched 5) { revents = hung_up });
  used = 2;
}

pass_ends_example : pass 5 3 (λ n. answer) 0 serving ≢ out_of_fuel
pass_ends_example = pass_ends 5 3 (λ n. answer) serving (omega arith)

-- Client 7 connects in the first turn, and hangs up in the second.
abbrev connects : Turn
connects = record { found = λ i. readable; answers = λ n. answer }

abbrev hangs_up : Turn
hangs_up = record { found = λ i. if i == 0 then no_events else hung_up; answers = λ n. answer }

abbrev ended : Server
ended =
    drop_connection 1
      (polled hangs_up.found 2 (add_connection 7 (polled connects.found 1 (initial_server 3))))

serve_ended : serve 3 (connects ∷ hangs_up ∷ []) (initial_server 3) ≡ done ended
unfolding serve pass round polled add_connection drop_connection
serve_ended = refl

connections_balance_example :
    (held 7 ended + total (closes 7) ended.log ≡ 0 + total (accepts 7) ended.log)
    × (ended.used ≤ length ended.fds)
unfolding polled add_connection drop_connection
connections_balance_example =
    connections_balance 7 3 (connects ∷ hangs_up ∷ []) ended serve_ended refl

round-Refines_example : Refines answer serving (round 3 answer 1 serving)
round-Refines_example = round-Refines 3 answer 1 serving (omega arith) (omega arith)
