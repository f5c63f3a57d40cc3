-- ===== src/Reactor/Balance.antt =====
-- The registrations in `epoll` of socket/epoll/Reactor/main.cpp against the slots that are on.
use codespaces_blank.Prelude.{
  ℕ, zero, suc, ◌+◌, ◌≤◌, ◌<◌, ◌≡◌, refl, ap, ◌∙◌, Bool, true, false, List, [], ◌∷◌, ◌++◌, Option,
  some, none, arith, length, get_or, set, ◌==◌, ltb, inl, inr, Bool-cases, get_or-set_cases, total,
  total-append, subst, append-nil, length-set,
}
use codespaces_blank.Reactor.{
  max_events, buflen, Interest, epollin, epollout, Callback, acceptconn, recvdata, senddata, Event,
  zeroed, Call, ctl_add, ctl_unset, ctl_del, stray_write, Server, event, put, note, eventset,
  eventadd, eventdel, find_free, accept_conn, terminated, recv_some, recv_data, send_gone,
  send_data, init_listen_socket,
}
use codespaces_blank.Reactor.Table.{
  IsTable, IsFit, IsRecv, put-IsTable, same-IsTable, received-IsFit, eventset-IsFit,
}
use codespaces_blank.Reactor.Accept.{search}

abbrev pub adds : Call → ℕ
adds (ctl_add fd x i) = 1
adds _ = 0

abbrev pub removals : Call → ℕ
removals (ctl_del fd) = 1
removals _ = 0

abbrev pub on : Event → ℕ
on e = e.status

-- A table of its shape, whose `arg` fields point into it, with as many registrations as slots that
-- are on.
pub record IsRegistered (s : Server) : Type 0 where
  pub table : IsTable s
  pub linked : (i : ℕ) → (event s i).arg ≤ max_events
  pub balanced : total adds s.log ≡ total removals s.log + total on s.gevents

total-set_or :
    (w : Event → ℕ) (l : List Event) (i : ℕ) (e : Event)
    → i < length l
    → total w (set l i e) + w (get_or l i zeroed) ≡ total w l + w e
total-set_or w [] i e h = absurd (omega arith)
total-set_or w (x ∷ l) zero e h = omega arith
total-set_or w (x ∷ l) (suc i) e h = omega (arith, total-set_or w l i e (omega arith))

-- An event is written into the table, and `k` is written to the log.
write-IsRegistered :
    {s : Server} (i : ℕ) (e : Event) (k : List Call)
    → IsRegistered s
    → i ≤ max_events
    → IsFit e
    → e.arg ≤ max_events
    → total adds k + (event s i).status ≡ total removals k + e.status
    → IsRegistered (record s { gevents = set s.gevents i e; log = s.log ++ k })
write-IsRegistered {s} i e k v h fit arg_in same = record {
  table = same-IsTable refl (put-IsTable i e v.table fit);
  linked = λ j. elim (get_or-set_cases s.gevents i j e zeroed) [
    | inl here ↦ rw here.1 arg_in
    | inr there ↦ rw there (v.linked j)
  ];
  balanced = omega (
    arith,
    same,
    v.balanced,
    total-set_or on s.gevents i e (omega (arith, v.table.slots)),
    total-append adds s.log k,
    total-append removals s.log k,
  );
}

put-IsRegistered :
    {s : Server} (i : ℕ) (e : Event)
    → IsRegistered s
    → i ≤ max_events
    → IsFit e
    → e.arg ≤ max_events
    → e.status ≡ (event s i).status
    → IsRegistered (put s i e)
put-IsRegistered {s} i e v h fit arg_in same =
    subst IsRegistered (ap (λ l. record (put s i e) { log = l }) (append-nil s.log))
      (write-IsRegistered i e [] v h fit arg_in (omega (arith, same)))

pub note-IsRegistered :
    {s : Server} (c : Call) → IsRegistered s → adds c ≡ 0 → removals c ≡ 0 → IsRegistered (note s c)
note-IsRegistered {s} c v a r = record {
  table = same-IsTable refl v.table;
  linked = v.linked;
  balanced = omega (
    arith,
    a,
    r,
    v.balanced,
    total-append adds s.log (c ∷ []),
    total-append removals s.log (c ∷ []),
  );
}

pub eventadd-IsRegistered :
    {s : Server} (x : Interest) (i : ℕ)
    → IsRegistered s
    → i ≤ max_events
    → IsRegistered (eventadd x i s)
unfolding eventadd
eventadd-IsRegistered {s} x i v h =
    let e = event s i in
    let fit = v.table.fit i in
    elim (Bool-cases (e.status == 0)) [
      | inl off ↦ rw off (
          write-IsRegistered i (record e { events = x; status = 1 }) (ctl_add e.fd x i ∷ []) v h
            (fit.0, omega arith) (v.linked i) (ground arith))
      | inr on_ ↦ rw on_ (
          write-IsRegistered i (record e { events = x }) (ctl_unset e.fd ∷ []) v h fit (v.linked i)
            refl)
    ]

pub eventdel-IsRegistered :
    {s : Server} (i : ℕ) → IsRegistered s → i ≤ max_events → IsRegistered (eventdel i s)
unfolding eventdel
eventdel-IsRegistered {s} i v h =
    let e = event s i in
    elim (Bool-cases (e.status == 1)) [
      | inl on_ ↦ rw on_ (
          write-IsRegistered i (record e { status = 0 }) (ctl_del e.fd ∷ []) v h
            ((v.table.fit i).0, omega arith) (v.linked i) (ground arith))
      | inr off ↦ rw off v
    ]

-- `eventset` for the event's own slot keeps `status`.
eventset-IsRegistered :
    {s : Server} (fd : ℕ) (c : Callback) (i now : ℕ) (e : Event)
    → IsRegistered s
    → i ≤ max_events
    → IsFit e
    → e.status ≡ (event s i).status
    → IsRegistered (put s i (eventset fd c i now e))
unfolding eventset
eventset-IsRegistered fd c i now e v h fit same =
    put-IsRegistered i _ v h (eventset-IsFit fd c i now e fit) h same

pub accept_conn-IsRegistered :
    {s : Server} (r : Option ℕ) (b : Bool) (now : ℕ)
    → IsRegistered s
    → IsRegistered (accept_conn r b now s)
unfolding accept_conn
accept_conn-IsRegistered none b now v = v
accept_conn-IsRegistered (some fd) false now v = v
accept_conn-IsRegistered {s} (some fd) true now v =
    let i = find_free s.gevents max_events 0 in
    let h = (search s).to in
    eventadd-IsRegistered epollin i
      (eventset-IsRegistered fd recvdata i now (event s i) v h (v.table.fit i) refl) h

recv_some-IsRegistered :
    {s : Server} (fd n i now : ℕ)
    → i ≤ max_events
    → IsRegistered s
    → IsRegistered (recv_some fd n i now s)
unfolding recv_some
recv_some-IsRegistered {s} fd n i now h v = elim (Bool-cases (ltb n buflen)) [
  | inl fits ↦ rw fits (sends v (v.table.fit i))
  | inr past ↦ rw past (sends (note-IsRegistered (stray_write i) v refl refl) (v.table.fit i))
]
  where
    sends :
        {t : Server}
        → IsRegistered t
        → IsFit (event t i)
        → IsRegistered
            (eventadd epollout i (put t i (eventset fd senddata i now (terminated n (event t i)))))
    sends {t} w fit =
        eventadd-IsRegistered epollout i
          (eventset-IsRegistered fd senddata i now (terminated n (event t i)) w h
            (length-set (event t i).buf n 0 ∙ fit.0, fit.1) refl)
          h

pub recv_data-IsRegistered :
    {s : Server} (fd i : ℕ) (r : Option (List ℕ)) (now : ℕ)
    → IsRecv r
    → i ≤ max_events
    → IsRegistered s
    → IsRegistered (recv_data fd i r now s)
unfolding recv_data
recv_data-IsRegistered fd i none now a h v =
    note-IsRegistered _ (eventdel-IsRegistered i v h) refl refl
recv_data-IsRegistered fd i (some []) now a h v =
    note-IsRegistered _ (eventdel-IsRegistered i v h) refl refl
recv_data-IsRegistered {s} fd i (some (b ∷ bs)) now a h v =
    recv_some-IsRegistered fd (length (b ∷ bs)) i now h (
      eventdel-IsRegistered i
        (put-IsRegistered i _ v h (received-IsFit (b ∷ bs) (event s i) a (v.table.fit i))
          (v.linked i) refl)
        h)

send_gone-IsRegistered :
    {s : Server} (i : ℕ) → i ≤ max_events → IsRegistered s → IsRegistered (send_gone i s)
unfolding send_gone
send_gone-IsRegistered i h v = eventdel-IsRegistered i (note-IsRegistered _ v refl refl) h

pub send_data-IsRegistered :
    {s : Server} (i : ℕ) (r : Option ℕ)
    → i ≤ max_events
    → IsRegistered s
    → IsRegistered (send_data i r s)
unfolding send_data
send_data-IsRegistered i none h v = note-IsRegistered _ (send_gone-IsRegistered i h v) refl refl
send_data-IsRegistered i (some zero) h v =
    note-IsRegistered _ (send_gone-IsRegistered i h v) refl refl
send_data-IsRegistered i (some (suc n)) h v =
    eventadd-IsRegistered epollin i (send_gone-IsRegistered i h v) h

pub init_listen_socket-IsRegistered :
    {s : Server} (lfd now : ℕ) → IsRegistered s → IsRegistered (init_listen_socket lfd now s)
unfolding init_listen_socket
init_listen_socket-IsRegistered {s} lfd now v =
    eventadd-IsRegistered epollin max_events
      (eventset-IsRegistered lfd acceptconn max_events now (event s max_events) v (omega arith)
        (v.table.fit max_events) refl)
      (omega arith)
