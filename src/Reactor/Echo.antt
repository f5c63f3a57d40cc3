-- ===== src/Reactor/Echo.antt =====
-- What socket/epoll/Reactor/main.cpp sends back for the bytes that it has received.
use codespaces_blank.Prelude.{
  ℕ, zero, suc, ◌≤◌, ◌≡◌, refl, ◌∙◌, ap, List, [], ◌∷◌, ◌++◌, some, arith, append_assoc, length,
  take, ltb, if◌then◌else◌, Bool-cases, inl, inr,
}
use codespaces_blank.Reactor.{
  max_events, buflen, epollout, Interest, senddata, Event, blank, Call, ctl_add, ctl_unset, ctl_del,
  sent, closed, stray_write, Server, event, put, note, eventset, eventadd, eventdel, received,
  terminated, recv_some, recv_data, send_gone, send_data,
}
use codespaces_blank.Reactor.Table.{
  IsFit, length-blank, received-IsFit, eventdel-IsTable, recv_data-IsTable, IsTable, event-put_self,
  put-IsTable, same-IsTable,
}

-- `eventadd` and `eventdel` on a slot of the table that is off, or on.
module _ (s : Server) (i : ℕ) (v : IsTable s) (h : i ≤ max_events) where
  eventadd_off :
      (x : Interest)
      → (event s i).status ≡ 0
      → (event (eventadd x i s) i ≡ record (event s i) { events = x; status = 1 })
        × ((eventadd x i s).log ≡ s.log ++ (ctl_add (event s i).fd x i ∷ []))
  unfolding eventadd
  eventadd_off x off =
      ground (arith, event-put_self s i (record (event s i) { events = x; status = 1 }) v h)

  eventdel_on :
      (event s i).status ≡ 1
      → (event (eventdel i s) i ≡ record (event s i) { status = 0 })
        × ((eventdel i s).log ≡ s.log ++ (ctl_del (event s i).fd ∷ []))
  unfolding eventdel
  eventdel_on on = ground (arith, event-put_self s i (record (event s i) { status = 0 }) v h)

-- A slot that is written with an event that is off, and then added.
pub eventadd-put :
    (s : Server) (i : ℕ) (e : Event) (x : Interest)
    → IsTable s
    → IsFit e
    → i ≤ max_events
    → e.status ≡ 0
    → (event (eventadd x i (put s i e)) i ≡ record e { events = x; status = 1 })
      × ((eventadd x i (put s i e)).log ≡ s.log ++ (ctl_add e.fd x i ∷ []))
eventadd-put s i e x v f h off =
    let here = event-put_self s i e v h in
    let (a, b) =
      eventadd_off (put s i e) i (put-IsTable i e v f) h x
        (ap (λ (k : Event). k.status) here ∙ off) in
    (
      a ∙ ap (λ (k : Event). record k { events = x; status = 1 }) here,
      b ∙ ap (λ (k : Event). s.log ++ (ctl_add k.fd x i ∷ [])) here,
    )

-- The same where the event is on: `op` stays unassigned.
pub eventadd_on :
    {s : Server} (i : ℕ) (e : Event) (x : Interest)
    → IsTable s
    → IsFit e
    → i ≤ max_events
    → e.status ≡ 1
    → (event (eventadd x i (put s i e)) i ≡ record e { events = x })
      × ((eventadd x i (put s i e)).log ≡ s.log ++ (ctl_unset e.fd ∷ []))
unfolding eventadd
eventadd_on {s} i e x v f h on = ground (
  arith,
  event-put_self s i e v h,
  event-put_self (put s i e) i (record e { events = x }) (put-IsTable i e v f) h,
)

-- What the call of `recv` leaves in the log beside the two changes of the registration.
abbrev pub overrun : ℕ → ℕ → List Call
overrun n i = if ltb n buflen then [] else stray_write i ∷ []

-- A slot that has just got its reply to send.
abbrev pub replying : (fd i now : ℕ) → Event
replying fd i now = record {
  fd = fd;
  events = epollout;
  arg = i;
  call_back = senddata;
  status = 1;
  buf = blank;
  len = 0;
  last_active = now;
}

recv_some_lem :
    (s : Server) (fd n i now : ℕ)
    → IsTable s
    → i ≤ max_events
    → (event s i).status ≡ 0
    → (event (recv_some fd n i now s) i ≡ replying fd i now)
      × ((recv_some fd n i now s).log ≡ s.log ++ (overrun n i ++ (ctl_add fd epollout i ∷ [])))
unfolding recv_some eventset
recv_some_lem s fd n i now v h off = elim (Bool-cases (ltb n buflen)) [
  | inl fits ↦ rw fits (eventadd-put s i reply epollout v reply-IsFit h off)
  | inr past ↦ rw past (
    (eventadd-put (note s (stray_write i)) i reply epollout (same-IsTable refl v) reply-IsFit h
        off).0,
    (eventadd-put (note s (stray_write i)) i reply epollout (same-IsTable refl v) reply-IsFit h
          off).1
        ∙ append_assoc s.log (stray_write i ∷ []) (ctl_add fd epollout i ∷ []),
  )
]
  where
    reply : Event
    reply = eventset fd senddata i now (terminated n (event s i))

    reply-IsFit : IsFit reply
    reply-IsFit = (length-blank, (v.fit i).1)

-- `recvdata` on a slot in the table that is registered, for 1 to 4096 bytes: the slot is
-- registered for writing, with `senddata` as its callback, a reply of length 0, and a buffer of
-- zeros, whatever was received; the log has one removal and one addition, and between them a
-- store behind the end of the buffer exactly if 4096 bytes were received.
pub recv_data_lem :
    (s : Server) (fd i now b : ℕ) (bs : List ℕ)
    → IsTable s
    → length (b ∷ bs) ≤ buflen
    → i ≤ max_events
    → (event s i).status ≡ 1
    → let t = recv_data fd i (some (b ∷ bs)) now s in
      (event t i ≡ replying fd i now)
      × (t.log
          ≡ s.log
            ++ (ctl_del (event s i).fd
                ∷ (overrun (length (b ∷ bs)) i ++ (ctl_add fd epollout i ∷ []))))
unfolding recv_data
recv_data_lem s fd i now b bs v fits h on =
    let got = received (b ∷ bs) (event s i) in
    let w = put-IsTable i got v (received-IsFit (b ∷ bs) (event s i) fits (v.fit i)) in
    let here = event-put_self s i got v h in
    let (off, log) = eventdel_on (put s i got) i w h (ap (λ (k : Event). k.status) here ∙ on) in
    let (slot, log') =
      recv_some_lem (eventdel i (put s i got)) fd (length (b ∷ bs)) i now (eventdel-IsTable i w) h
        (ap (λ (k : Event). k.status) off) in
    (
      slot,
      log'
          ∙ ap (λ l. l ++ (overrun (length (b ∷ bs)) i ++ (ctl_add fd epollout i ∷ [])))
              (log ∙ ap (λ (k : Event). s.log ++ (ctl_del k.fd ∷ [])) here)
          ∙ append_assoc s.log (ctl_del (event s i).fd ∷ []) _,
    )

send_replying :
    (t : Server) (fd i now n : ℕ)
    → IsTable t
    → i ≤ max_events
    → event t i ≡ replying fd i now
    → n ≤ (event t i).len
    → ((send_data i (some n) t).log ≡ t.log ++ (sent fd [] ∷ ctl_del fd ∷ closed fd ∷ []))
      × ((event (send_data i (some n) t) i).status ≡ 0)
unfolding send_data send_gone
send_replying t fd i now (suc n) v h e short = absurd (omega (arith, ap (λ (k : Event). k.len) e))
send_replying t fd i now zero v h e short =
    let call = sent (event t i).fd (take (event t i).len (event t i).buf) in
    let (off, log) =
      eventdel_on (note t call) i (same-IsTable refl v) h (ap (λ (k : Event). k.status) e) in
    (
      ap (λ l. l ++ (closed (event t i).fd ∷ [])) log
          ∙ append_assoc (t.log ++ (call ∷ [])) (ctl_del (event t i).fd ∷ []) _
          ∙ append_assoc t.log (call ∷ []) _
          ∙ ap
              (λ (k : Event).
                t.log ++ (sent k.fd (take k.len k.buf) ∷ ctl_del k.fd ∷ closed k.fd ∷ []))
              e,
      ap (λ (k : Event). k.status) off,
    )

-- The answer to any received bytes: once `recvdata` has run on a registered slot of the table
-- for 1 to 4096 bytes, and then `senddata` on that slot, where `send` returns no more than it was given, the log
-- goes on with the sending of no bytes at all, the removal from `epoll` and the closing of the
-- connection, and the slot is free.
pub reply_is_empty :
    (s : Server) (fd i now b n : ℕ) (bs : List ℕ)
    → IsTable s
    → length (b ∷ bs) ≤ buflen
    → i ≤ max_events
    → (event s i).status ≡ 1
    → n ≤ (event (recv_data fd i (some (b ∷ bs)) now s) i).len
    → let t = recv_data fd i (some (b ∷ bs)) now s in
      ((send_data i (some n) t).log ≡ t.log ++ (sent fd [] ∷ ctl_del fd ∷ closed fd ∷ []))
      × ((event (send_data i (some n) t) i).status ≡ 0)
reply_is_empty s fd i now b n bs v fits h on short =
    send_replying (recv_data fd i (some (b ∷ bs)) now s) fd i now n
      (recv_data-IsTable fd i (some (b ∷ bs)) now fits v) h
      (recv_data_lem s fd i now b bs v fits h on).0 short
