-- ===== src/Reactor/Tests.antt =====
-- Runs of the server of socket/epoll/Reactor/main.cpp on small inputs.
use codespaces_blank.Prelude.{
  ℕ, zero, suc, ◌≤◌, ◌<◌, ◌≡◌, ◌⊎◌, refl, ap, true, false, List, [], ◌∷◌, ◌++◌, some, none, arith,
  replicate, length-replicate, get_or, get_or_ge, dec_lt, Option, ◌+◌, total, is_number,
  if◌then◌else◌, ◌&&◌,
}
use codespaces_blank.Reactor.{
  max_events, Event, zeroed, ctl_del, sent, closed, Server, event, put, recv_data, send_data,
  Answers, Ready, init_listen_socket,
}
use codespaces_blank.Reactor.Table.{IsTable, length-blank, put-IsTable, event-put_self}
use codespaces_blank.Reactor.Balance.{adds, removals, on}
use codespaces_blank.Reactor.Registrations.{serve, registrations_balance}
use codespaces_blank.Reactor.Fresh.{fresh, fresh-IsTable}
use codespaces_blank.Reactor.Accept.{connected}
use codespaces_blank.Reactor.Echo.{reply_is_empty}
use codespaces_blank.Reactor.Sweep.{
  sweep, visits, is_idle, closings, IsSettled, sweep_closes_idle, visits_ahead,
}

-- A connection with descriptor 9 in slot 3, active at time 100.
abbrev serving : Server
serving = put fresh 3 (connected 9 3 100)

serving-IsTable : IsTable serving
serving-IsTable = put-IsTable 3 (connected 9 3 100) fresh-IsTable (length-blank, omega arith)

event-serving : event serving 3 ≡ connected 9 3 100
event-serving = event-put_self fresh 3 (connected 9 3 100) fresh-IsTable (omega arith)

on_at_3 : (event serving 3).status ≡ 1
on_at_3 = ap (λ (k : Event). k.status) event-serving

on_slots : List Event
on_slots = replicate 1025 (connected 9 0 0)

-- Every slot is on.
abbrev full : Server
full = record { gevents = on_slots; log = [] }

get_or-replicate_in : (n i : ℕ) (e d : Event) → i < n → get_or (replicate n e) i d ≡ e
get_or-replicate_in zero i e d h = absurd (omega arith)
get_or-replicate_in (suc n) zero e d h = refl
get_or-replicate_in (suc n) (suc i) e d h = get_or-replicate_in n i e d (omega arith)

full-status : (j : ℕ) → j ≤ max_events → (event full j).status ≡ 1
unfolding on_slots
full-status j h =
    ap (λ (k : Event). k.status) (get_or-replicate_in 1025 j (connected 9 0 0) zeroed (omega arith))

full-IsTable : IsTable full
unfolding on_slots
full-IsTable = record {
  slots = length-replicate {A = Event} 1025 (connected 9 0 0);
  fit = λ i. elim (dec_lt i 1025) [
    | yes h ↦ rw (get_or-replicate_in 1025 i (connected 9 0 0) zeroed h) (length-blank, omega arith)
    | no h ↦
        rw
          (get_or_ge (replicate 1025 (connected 9 0 0)) i zeroed
            (omega (arith, length-replicate {A = Event} 1025 (connected 9 0 0))))
          (length-blank, omega arith)
  ];
}

looks_at_3 : visits 100 0 3 ≡ true
looks_at_3 = visits_ahead 100 0 3 (omega arith) (omega arith) (omega arith)

reply_is_empty_example :
    let t = recv_data 9 3 (some (104 ∷ 105 ∷ [])) 110 serving in
    ((send_data 3 (some 0) t).log ≡ t.log ++ (sent 9 [] ∷ ctl_del 9 ∷ closed 9 ∷ []))
    × ((event (send_data 3 (some 0) t) 3).status ≡ 0)
reply_is_empty_example =
    reply_is_empty serving 9 3 110 104 0 (105 ∷ []) serving-IsTable (omega arith) (omega arith)
      on_at_3 (omega arith)

-- The table is served for one ready connection that sends two bytes.
abbrev answers : Answers
answers = record {
  accepted = none;
  nonblocking = true;
  bytes = some (104 ∷ 105 ∷ []);
  count = some 0;
  now = 110;
}

abbrev readable_3 : Ready
readable_3 = record {
  slot = 3;
  readable = true;
  writable = false;
  reading = answers;
  writing = answers;
}

sweep_closes_idle_example :
    ((js : List ℕ) × ((sweep 100 200 0 serving).1.log ≡ serving.log ++ closings serving js)
      × ((k : ℕ)
          → total (is_number k) js
            ≡ (if visits 100 0 k && is_idle 200 (event serving k) then 1 else 0)))
    × IsSettled 200 (event (sweep 100 200 0 serving).1 3)
    × ((event (sweep 100 200 0 serving).1 3 ≡ event serving 3)
        ⊎ ((event serving 3).last_active + 60 ≤ 200))
sweep_closes_idle_example =
    sweep_closes_idle 100 200 0 3 serving serving-IsTable (omega arith) looks_at_3

-- A client connects, and sends two bytes; then `epoll_wait` fails.
abbrev connecting : Ready
connecting = record {
  slot = 1024;
  readable = true;
  writable = false;
  reading = record answers { accepted = some 9; bytes = none };
  writing = answers;
}

abbrev readable_0 : Ready
readable_0 = record readable_3 { slot = 0 }

abbrev three_turns : List (Option (List Ready) × ℕ)
three_turns = (some (connecting ∷ []), 100) ∷ (some (readable_0 ∷ []), 110) ∷ (none, 120) ∷ []

registrations_balance_example :
    (IsTable (serve three_turns 0 (init_listen_socket 4 90 fresh)).1)
    × ((serve three_turns 0 (init_listen_socket 4 90 fresh)).0 ≤ max_events)
    × (total adds (serve three_turns 0 (init_listen_socket 4 90 fresh)).1.log
        ≡ total removals (serve three_turns 0 (init_listen_socket 4 90 fresh)).1.log
          + total on (serve three_turns 0 (init_listen_socket 4 90 fresh)).1.gevents)
registrations_balance_example =
    registrations_balance three_turns 4 90
      (((tt, omega arith), tt), (((omega arith, omega arith), tt), tt))
