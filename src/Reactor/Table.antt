-- ===== src/Reactor/Table.antt =====
-- The table of socket/epoll/Reactor/main.cpp keeps its shape: 1025 events, each with 4096 bytes.
use codespaces_blank.Prelude.{
  ℕ, ◌+◌, ◌≤◌, ◌≡◌, refl, ◌∙◌, List, [], ◌∷◌, Option, none, some, arith, length, drop, length-set,
  length-drop, length-append, length-replicate, get_or-set_cases, get_or-set_self, Bool-cases, inl,
  inr, ap, ltb, ◌==◌, if◌then◌else◌,
}
use codespaces_blank.Reactor.{
  max_events, buflen, Interest, epollout, Callback, senddata, note, stray_write, Event, blank,
  zeroed, Server, event, put, eventset, eventadd, eventdel, received, terminated, recv_some,
  recv_data, Ready,
}

abbrev pub IsFit : Event → Type 0
IsFit e = (length e.buf ≡ buflen) × (e.status ≤ 1)

pub record IsTable (s : Server) : Type 0 where
  pub slots : length s.gevents ≡ max_events + 1
  pub fit : (i : ℕ) → IsFit (event s i)

pub event-put_self :
    (s : Server) (i : ℕ) (e : Event) → IsTable s → i ≤ max_events → event (put s i e) i ≡ e
event-put_self s i e v h = get_or-set_self s.gevents i e zeroed (omega (arith, v.slots))

pub length-blank : length blank ≡ buflen
unfolding blank
length-blank = length-replicate {A = ℕ} buflen 0

pub put-IsTable : {s : Server} (i : ℕ) (e : Event) → IsTable s → IsFit e → IsTable (put s i e)
put-IsTable {s} i e v f = record {
  slots = length-set s.gevents i e ∙ v.slots;
  fit = λ j. elim (get_or-set_cases s.gevents i j e zeroed) [
    | inl here ↦ rw here.1 f
    | inr there ↦ rw there (v.fit j)
  ];
}

-- The table is the same.
pub same-IsTable : {s t : Server} → t.gevents ≡ s.gevents → IsTable s → IsTable t
same-IsTable e v = record { slots = ap length e ∙ v.slots; fit = λ j. rw e (v.fit j) }

pub eventset-IsFit :
    (fd : ℕ) (c : Callback) (i now : ℕ) (e : Event) → IsFit e → IsFit (eventset fd c i now e)
unfolding eventset
eventset-IsFit fd c i now e f = (length-blank, f.1)

pub eventadd-IsTable : {s : Server} (x : Interest) (i : ℕ) → IsTable s → IsTable (eventadd x i s)
unfolding eventadd
eventadd-IsTable {s} x i v = elim (Bool-cases ((event s i).status == 0)) [
  | inl off ↦ rw off (same-IsTable refl (put-IsTable i _ v ((v.fit i).0, omega arith)))
  | inr on ↦ rw on (same-IsTable refl (put-IsTable i _ v (v.fit i)))
]

pub eventdel-IsTable : {s : Server} (i : ℕ) → IsTable s → IsTable (eventdel i s)
unfolding eventdel
eventdel-IsTable {s} i v = elim (Bool-cases ((event s i).status == 1)) [
  | inl on ↦ rw on (same-IsTable refl (put-IsTable i _ v ((v.fit i).0, omega arith)))
  | inr off ↦ rw off v
]

pub received-IsFit :
    (bytes : List ℕ) (e : Event) → length bytes ≤ buflen → IsFit e → IsFit (received bytes e)
received-IsFit bytes e h f = (
  omega
      (arith, length-append bytes (drop (length bytes) e.buf), length-drop (length bytes) e.buf, f),
  f.1,
)

recv_some-IsTable : {s : Server} (fd n i now : ℕ) → IsTable s → IsTable (recv_some fd n i now s)
unfolding recv_some
recv_some-IsTable {s} fd n i now v = eventadd-IsTable epollout i (
    put-IsTable i _ noted-IsTable (
      eventset-IsFit fd senddata i now (terminated n (event s i))
        (length-set (event s i).buf n 0 ∙ (v.fit i).0, (v.fit i).1)))
  where
    noted-IsTable : IsTable (if ltb n buflen then s else note s (stray_write i))
    noted-IsTable = elim (Bool-cases (ltb n buflen)) [
      | inl fits ↦ rw fits v
      | inr past ↦ rw past (same-IsTable refl v)
    ]

-- `recv` never writes more bytes than `sizeof(ev->buf)`.
abbrev pub IsRecv : Option (List ℕ) → Type 0
IsRecv none = Unit
IsRecv (some bytes) = length bytes ≤ buflen

pub recv_data-IsTable :
    {s : Server} (fd i : ℕ) (r : Option (List ℕ)) (now : ℕ)
    → IsRecv r
    → IsTable s
    → IsTable (recv_data fd i r now s)
unfolding recv_data
recv_data-IsTable fd i none now h v = same-IsTable refl (eventdel-IsTable i v)
recv_data-IsTable fd i (some []) now h v = same-IsTable refl (eventdel-IsTable i v)
recv_data-IsTable {s} fd i (some (b ∷ bs)) now h v =
    recv_some-IsTable fd (length (b ∷ bs)) i now
      (eventdel-IsTable i (put-IsTable i _ v (received-IsFit (b ∷ bs) (event s i) h (v.fit i))))

-- The answers to a ready event keep to what `recv` may write.
abbrev pub IsAnswered : Ready → Type 0
IsAnswered r = IsRecv r.reading.bytes × IsRecv r.writing.bytes

abbrev pub AllAnswered : List Ready → Type 0
AllAnswered [] = Unit
AllAnswered (r ∷ rs) = IsAnswered r × AllAnswered rs
