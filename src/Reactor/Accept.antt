-- ===== src/Reactor/Accept.antt =====
-- Where socket/epoll/Reactor/main.cpp puts a new connection.
use codespaces_blank.Prelude.{
  ℕ, zero, suc, ◌+◌, ◌≤◌, ◌<◌, ◌≡◌, ◌≢◌, ◌∙◌, ap, true, List, ◌∷◌, [], ◌++◌, some, arith, ◌==◌,
  get_or, Bool-cases, inl, inr, ℕ_discrete, dec_lt,
}
use codespaces_blank.Reactor.{
  max_events, epollin, recvdata, Event, blank, zeroed, ctl_add, ctl_unset, Server, event, eventset,
  find_free, accept_conn,
}
use codespaces_blank.Reactor.Table.{IsTable, length-blank}
use codespaces_blank.Reactor.Echo.{eventadd-put, eventadd_on}

-- The search ends at the first slot that is off, or behind the last one.
pub record Found (g : List Event) (n i r : ℕ) : Type 0 where
  pub from : i ≤ r
  pub to : r ≤ i + n
  pub off : r < i + n → (get_or g r zeroed).status ≡ 0
  pub first : (j : ℕ) → i ≤ j → j < r → (get_or g j zeroed).status ≢ 0

find_free-Found : (g : List Event) (n i : ℕ) → Found g n i (find_free g n i)
unfolding find_free
find_free-Found g zero i = record {
  from = omega arith;
  to = omega arith;
  off = λ h. absurd (omega arith);
  first = λ j a b. absurd (omega arith);
}
find_free-Found g (suc n) i = elim (Bool-cases ((get_or g i zeroed).status == 0)) [
  | inl off ↦ rw off (record {
    from = omega arith;
    to = omega arith;
    off = λ h. ground arith;
    first = λ j a b. absurd (omega arith);
  })
  | inr on ↦
      let rest = find_free-Found g n (i + 1) in
      rw on (record {
        from = omega (arith, rest.from);
        to = omega (arith, rest.to);
        off = λ h. rest.off (omega arith);
        first = λ j a b. elim (ℕ_discrete i j) [
          | yes e ↦ rw (← e) (ground arith)
          | no ne ↦ rest.first j (omega arith) b
        ];
      })
]

pub search : (s : Server) → Found s.gevents max_events 0 (find_free s.gevents max_events 0)
search s = find_free-Found s.gevents max_events 0

-- The slot that is found is not behind one that is off.
found-le :
    (s : Server) (j : ℕ)
    → j < max_events
    → (event s j).status ≡ 0
    → find_free s.gevents max_events 0 ≤ j
found-le s j h off = elim (dec_lt j (find_free s.gevents max_events 0)) [
  | yes before ↦ absurd ((search s).first j (omega arith) before off)
  | no behind ↦ omega arith
]

-- The free slot that `acceptconn` finds.
abbrev pub free_slot : Server → ℕ
free_slot s = find_free s.gevents max_events 0

-- A slot that has just got its connection.
abbrev pub connected : (cfd i now : ℕ) → Event
connected cfd i now = record {
  fd = cfd;
  events = epollin;
  arg = i;
  call_back = recvdata;
  status = 1;
  buf = blank;
  len = 0;
  last_active = now;
}

-- While, in a table of its shape, a slot for connections is off, a connection gets the first such slot, and is registered
-- there for reading with `recvdata` as its callback.
pub accept_conn_takes_first :
    (s : Server) (cfd now j : ℕ)
    → IsTable s
    → j < max_events
    → (event s j).status ≡ 0
    → let i = free_slot s in
      let t = accept_conn (some cfd) true now s in
      (i ≤ j)
      × ((event s i).status ≡ 0)
      × (event t i ≡ connected cfd i now)
      × (t.log ≡ s.log ++ (ctl_add cfd epollin i ∷ []))
unfolding accept_conn eventset
accept_conn_takes_first s cfd now j v h off =
    let i = free_slot s in
    let low = found-le s j h off in
    let free = (search s).off (omega arith) in
    let (slot, log) =
      eventadd-put s i (eventset cfd recvdata i now (event s i)) epollin v
        (length-blank, (v.fit i).1) (omega arith) free in
    (low, free, slot, log)

full_slot :
    (s : Server) → ((j : ℕ) → j < max_events → (event s j).status ≡ 1) → free_slot s ≡ max_events
full_slot s on = elim (dec_lt (free_slot s) max_events) [
  | yes h ↦ absurd (omega (arith, on (free_slot s) h, (search s).off (omega arith)))
  | no h ↦ omega (arith, (search s).to)
]

-- Where every slot of a table of its shape is on, that of the listening socket included, a new connection overwrites the
-- listening socket's slot: that names the connection, with `recvdata` in place of `acceptconn`,
-- and `epoll_ctl` runs with an operation that was never assigned.
pub accept_conn_when_full :
    (s : Server) (cfd now : ℕ)
    → IsTable s
    → ((j : ℕ) → j ≤ max_events → (event s j).status ≡ 1)
    → let t = accept_conn (some cfd) true now s in
      (event t max_events ≡ connected cfd max_events now) × (t.log ≡ s.log ++ (ctl_unset cfd ∷ []))
unfolding accept_conn eventset
accept_conn_when_full s cfd now v on =
    let (slot, log) =
      eventadd_on max_events (eventset cfd recvdata max_events now (event s max_events)) epollin v
        (length-blank, (v.fit max_events).1) (omega arith) (on max_events (omega arith)) in
    rw (full_slot s (λ j h. on j (omega arith))) (
      slot
          ∙ ap (λ k. record (connected cfd max_events now) { status = k })
              (on max_events (omega arith)),
      log,
    )
