-- ===== src/Reactor/Registrations.antt =====
-- The registrations in `epoll` over the main loop of socket/epoll/Reactor/main.cpp.
use codespaces_blank.Prelude.{
  ℕ, zero, suc, ◌+◌, ◌≤◌, ◌≡◌, refl, Bool, true, false, ◌&&◌, List, [], ◌∷◌, Option, some, none,
  arith, if◌then◌else◌, ◌==◌, leb, ◌⊎◌, inl, inr, Bool-cases, total, ◌-◌, replicate,
}
use codespaces_blank.Reactor.{
  max_events, Callback, null, acceptconn, recvdata, senddata, zeroed, Server, event, accept_conn,
  recv_data, send_data, init_listen_socket, Answers, call, Ready, handle, handle_all, is_epollin,
  is_epollout,
}
use codespaces_blank.Reactor.Table.{IsTable, IsRecv, IsAnswered, AllAnswered}
use codespaces_blank.Reactor.Fresh.{slots, fresh, fresh-IsTable, event-fresh}
use codespaces_blank.Reactor.Sweep.{check_slot, wrapped, sweep, turn, wrapped_lem}
use codespaces_blank.Reactor.Balance.{
  adds, removals, on, IsRegistered, note-IsRegistered, eventdel-IsRegistered,
  accept_conn-IsRegistered, recv_data-IsRegistered, send_data-IsRegistered,
  init_listen_socket-IsRegistered,
}

call-IsRegistered :
    {s : Server} (a : Answers) (i : ℕ) → IsRecv a.bytes → IsRegistered s → IsRegistered (call a i s)
unfolding call
call-IsRegistered {s} a i h v = by_callback (event s i).call_back
  where
    by_callback :
        (c : Callback)
        → IsRegistered (elim c [
          | null ↦ s
          | acceptconn ↦ accept_conn a.accepted a.nonblocking a.now s
          | recvdata ↦ recv_data (event s i).fd (event s i).arg a.bytes a.now s
          | senddata ↦ send_data (event s i).arg a.count s
        ])
    by_callback null = v
    by_callback acceptconn = accept_conn-IsRegistered a.accepted a.nonblocking a.now v
    by_callback recvdata =
        recv_data-IsRegistered (event s i).fd (event s i).arg a.bytes a.now h (v.linked i) v
    by_callback senddata = send_data-IsRegistered (event s i).arg a.count (v.linked i) v

handle-IsRegistered :
    {s : Server} (r : Ready) → IsAnswered r → IsRegistered s → IsRegistered (handle r s)
unfolding handle
handle-IsRegistered {s} r h v =
    written (read (Bool-cases (r.readable && is_epollin (event s r.slot).events)))
  where
    read :
        {b : Bool}
        → (b ≡ true) ⊎ (b ≡ false)
        → IsRegistered (if b then call r.reading r.slot s else s)
    read (inl e) = rw e (call-IsRegistered r.reading r.slot h.0 v)
    read (inr e) = rw e v

    written :
        {t : Server}
        → IsRegistered t
        → IsRegistered (
            if r.writable && is_epollout (event t r.slot).events
            then call r.writing r.slot t
            else t)
    written {t} w = elim (Bool-cases (r.writable && is_epollout (event t r.slot).events)) [
      | inl e ↦ rw e (call-IsRegistered r.writing r.slot h.1 w)
      | inr e ↦ rw e w
    ]

handle_all-IsRegistered :
    (rs : List Ready) {s : Server}
    → AllAnswered rs
    → IsRegistered s
    → IsRegistered (handle_all rs s)
unfolding handle_all
handle_all-IsRegistered [] h v = v
handle_all-IsRegistered (r ∷ rs) (h, hs) v =
    handle_all-IsRegistered rs hs (handle-IsRegistered r h v)

check_slot-IsRegistered :
    {s : Server} (now i : ℕ) → i ≤ max_events → IsRegistered s → IsRegistered (check_slot now i s)
unfolding check_slot
check_slot-IsRegistered {s} now i h v = elim (Bool-cases ((event s i).status == 0)) [
  | inl off ↦ rw off v
  | inr on_ ↦ rw on_ (elim (Bool-cases (leb 60 (now - (event s i).last_active))) [
    | inl due ↦ rw due (eventdel-IsRegistered i (note-IsRegistered _ v refl refl) h)
    | inr early ↦ rw early v
  ])
]

-- `checkpos` stays in the table, and so do the registrations.
sweep-IsRegistered :
    (n now c : ℕ) {s : Server}
    → c ≤ max_events
    → IsRegistered s
    → ((sweep n now c s).0 ≤ max_events) × IsRegistered (sweep n now c s).1
unfolding sweep
sweep-IsRegistered zero now c h v = (h, v)
sweep-IsRegistered (suc n) now c h v =
    let below = wrapped_lem c h in
    sweep-IsRegistered n now (wrapped c + 1) (omega (arith, below))
      (check_slot-IsRegistered now (wrapped c) (omega (arith, below)) v)

-- `while (1)`: a turn for each answer of `epoll_wait` (`none` for its error) and the time.
pub serve : List (Option (List Ready) × ℕ) → (checkpos : ℕ) → Server → ℕ × Server
serve [] c s = (c, s)
serve ((rs, now) ∷ turns) c s = elim (turn rs now c s) [
  | none ↦ (c, s)
  | some (c', t) ↦ serve turns c' t
]

-- Whatever turn is answered keeps to what `recv` may write.
abbrev pub TurnsAnswered : List (Option (List Ready) × ℕ) → Type 0
TurnsAnswered [] = Unit
TurnsAnswered ((none, now) ∷ turns) = Unit
TurnsAnswered ((some rs, now) ∷ turns) = AllAnswered rs × TurnsAnswered turns

serve-IsRegistered :
    (turns : List (Option (List Ready) × ℕ)) (c : ℕ) {s : Server}
    → TurnsAnswered turns
    → c ≤ max_events
    → IsRegistered s
    → ((serve turns c s).0 ≤ max_events) × IsRegistered (serve turns c s).1
unfolding serve turn
serve-IsRegistered [] c a h v = (h, v)
serve-IsRegistered ((none, now) ∷ turns) c a h v = (h, v)
serve-IsRegistered ((some rs, now) ∷ turns) c a h v =
    let (below, w) = sweep-IsRegistered 100 now c h v in
    serve-IsRegistered turns _ a.1 below (handle_all-IsRegistered rs a.0 w)

total-replicate : (n : ℕ) → total on (replicate n zeroed) ≡ 0
total-replicate zero = refl
total-replicate (suc n) = omega (arith, total-replicate n)

fresh-IsRegistered : IsRegistered fresh
unfolding slots
fresh-IsRegistered = record {
  table = fresh-IsTable;
  linked = λ i. rw (event-fresh i) (omega arith);
  balanced = omega (arith, total-replicate 1025);
}

-- From the zeroed table, after `initListenSocket` and any number of turns of the main loop,
-- whatever `epoll_wait` reports and whatever the system calls answer, as long as `recv` writes at
-- most `sizeof(buf)` bytes: the table has its 1025 slots with their buffers, `checkpos` is at most
-- 1024, and the calls of `epoll_ctl` that ask to add a descriptor, whether or not they succeed, are as
-- many as those that ask to remove one and the slots whose status is 1.
pub registrations_balance :
    (turns : List (Option (List Ready) × ℕ)) (lfd now : ℕ)
    → TurnsAnswered turns
    → (IsTable (serve turns 0 (init_listen_socket lfd now fresh)).1)
      × ((serve turns 0 (init_listen_socket lfd now fresh)).0 ≤ max_events)
      × (total adds (serve turns 0 (init_listen_socket lfd now fresh)).1.log
          ≡ total removals (serve turns 0 (init_listen_socket lfd now fresh)).1.log
            + total on (serve turns 0 (init_listen_socket lfd now fresh)).1.gevents)
registrations_balance turns lfd now a =
    let (below, v) =
      serve-IsRegistered turns 0 a (omega arith)
        (init_listen_socket-IsRegistered lfd now fresh-IsRegistered) in
    (v.table, below, v.balanced)
