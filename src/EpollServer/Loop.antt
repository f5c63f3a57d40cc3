-- ===== src/EpollServer/Loop.antt =====
-- What `EventLoop` of socket/Server/Reactor.cpp does to the events that are ready for reading.
use codespaces_blank.Prelude.{
  ℕ, ◌≡◌, ◌≤◌, refl, ap, ◌∙◌, Bool, false, ◌&&◌, List, [], ◌∷◌, arith, if◌then◌else◌, ◌==◌,
  get_or-set_ne, ℕ_discrete, ◌||◌, Bool-cases, inl, inr,
}
use codespaces_blank.Reactor.{max_events, Event, zeroed, Server, event, is_epollin}
use codespaces_blank.Reactor.Table.{IsTable, event-put_self, put-IsTable}
use codespaces_blank.EpollServer.{ReadyEvent, reads, read_event, write_event, event_loop}

-- Whether slot `i` is among those of the list that are ready for reading.
abbrev pub is_readable : ℕ → List ReadyEvent → Bool
is_readable i [] = false
is_readable i (r ∷ rs) = ((r.slot == i) && r.readable) || is_readable i rs

-- An event as it is after the assignment, where that is made.
abbrev pub overwritten : (lfd : ℕ) → Bool → Event → Event
overwritten lfd b e = if b && is_epollin e.events then record e { fd = lfd } else e

-- No slot lies behind the table.
abbrev pub AllSlots : List ReadyEvent → Type 0
AllSlots [] = Unit
AllSlots (r ∷ rs) = (r.slot ≤ max_events) × AllSlots rs

pub read_event-event :
    (lfd i : ℕ) (r : ReadyEvent) (s : Server)
    → IsTable s
    → r.slot ≤ max_events
    → event (read_event lfd r s).0 i ≡ overwritten lfd ((r.slot == i) && r.readable) (event s i)
unfolding read_event
read_event-event lfd i r s v h = elim (ℕ_discrete r.slot i) [
  | yes e ↦
      rw (← e) (ground (arith, event-put_self s r.slot (record (event s r.slot) { fd = lfd }) v h))
  | no ne ↦ ground (arith, get_or-set_ne s.gevents (record (event s r.slot) { fd = lfd }) zeroed ne)
]

pub read_event-IsTable :
    (lfd : ℕ) (r : ReadyEvent) (s : Server) → IsTable s → IsTable (read_event lfd r s).0
unfolding read_event
read_event-IsTable lfd r s v = elim (Bool-cases (reads r s)) [
  | inl e ↦ rw e (put-IsTable r.slot (record (event s r.slot) { fd = lfd }) v (v.fit r.slot))
  | inr e ↦ rw e v
]

overwritten-overwritten :
    (lfd : ℕ) (a b : Bool) (e : Event)
    → overwritten lfd b (overwritten lfd a e) ≡ overwritten lfd (a || b) e
overwritten-overwritten lfd a b e = ground arith

-- None of the events is ready for writing.
abbrev pub NoneWritable : List ReadyEvent → Type 0
NoneWritable [] = Unit
NoneWritable (r ∷ rs) = (r.writable ≡ false) × NoneWritable rs

pub write_event_idle :
    (work : (slot fd : ℕ) → Server → Server) (r : ReadyEvent) (s : Server)
    → r.writable ≡ false
    → write_event work r s ≡ (s, [])
unfolding write_event
write_event_idle work r s h = rw h refl

-- On a table of its shape, after a round over events of which none is ready for writing, every event
-- that was ready for reading and watched for it has the descriptor `lfd`, whatever connection it
-- stands for; all else in it, and all other events, are as they were.
pub event_loop_overwrites_fd :
    (work : (slot fd : ℕ) → Server → Server) (lfd i : ℕ) (rs : List ReadyEvent) (s : Server)
    → IsTable s
    → AllSlots rs
    → NoneWritable rs
    → event (event_loop work lfd rs s).0 i ≡ overwritten lfd (is_readable i rs) (event s i)
unfolding event_loop
event_loop_overwrites_fd work lfd i [] s v h none = refl
event_loop_overwrites_fd work lfd i (r ∷ rs) s v h none =
    rw (write_event_idle work r (read_event lfd r s).0 none.0) (
      event_loop_overwrites_fd work lfd i rs (read_event lfd r s).0 (read_event-IsTable lfd r s v)
        h.1 none.1
      ∙ ap (overwritten lfd (is_readable i rs)) (read_event-event lfd i r s v h.0)
      ∙ overwritten-overwritten lfd ((r.slot == i) && r.readable) (is_readable i rs) (event s i))
