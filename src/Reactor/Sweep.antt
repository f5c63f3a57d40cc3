-- ===== src/Reactor/Sweep.antt =====
-- The timeout check and the main loop of socket/epoll/Reactor/main.cpp.
use codespaces_blank.Prelude.{
  ℕ, zero, suc, ◌+◌, ◌-◌, ◌≤◌, ◌<◌, ◌≡◌, ◌⊎◌, refl, ◌∙◌, ap, Bool, true, false, ◌||◌, List, Option,
  some, none, arith, leb, ◌==◌, if◌then◌else◌, Bool-cases, inl, inr, get_or-set_cases,
  get_or-set_ne, dec_lt, ◌≢◌, not, ◌&&◌, ◌++◌, [], ◌∷◌, sym, ap₂, append-nil, append_assoc, total,
  is_number, ℕ_discrete,
}
use codespaces_blank.Reactor.{
  max_events, Event, zeroed, Call, closed, ctl_del, Server, event, note, eventdel, Ready,
  handle_all,
}
use codespaces_blank.Reactor.Table.{IsTable, event-put_self, eventdel-IsTable, same-IsTable}

-- The loop's body for slot `i`. The difference is not negative, or it is below 60 as here.
unfoldable pub check_slot : (now i : ℕ) → Server → Server
check_slot now i s =
    if (event s i).status == 0
    then s
    else if leb 60 (now - (event s i).last_active)
    then eventdel i (note s (closed (event s i).fd))
    else s

-- `if (checkpos == MAX_EVENTS) checkpos = 0;`
abbrev pub wrapped : ℕ → ℕ
wrapped c = if c == max_events then 0 else c

-- The loop with `n` rounds left: `checkpos` and the table after it.
unfoldable pub sweep : (n now checkpos : ℕ) → Server → ℕ × Server
sweep zero now c s = (c, s)
sweep (suc n) now c s = sweep n now (wrapped c + 1) (check_slot now (wrapped c) s)

-- One turn of `while (1)`, with what `epoll_wait` returns: `none` for the error that ends the loop.
unfoldable pub turn : Option (List Ready) → (now checkpos : ℕ) → Server → Option (ℕ × Server)
turn none now c s = none
turn (some rs) now c s = let (c', t) = sweep 100 now c s in some (c', handle_all rs t)

-- Whether `n` rounds from `c` look at slot `j`.
pub visits : (n c j : ℕ) → Bool
visits zero c j = false
visits (suc n) c j = (wrapped c == j) || visits n (wrapped c + 1) j

-- No timeout is due for the event.
abbrev pub IsSettled : ℕ → Event → Type 0
IsSettled now e = (e.status ≡ 0) ⊎ (now < e.last_active + 60)

-- What `eventdel` does to a slot: nothing, or it frees the slot that it is called for.
eventdel-cases :
    (i j : ℕ) (s : Server)
    → (event (eventdel i s) j ≡ event s j)
      ⊎ ((i ≡ j) × (event (eventdel i s) j ≡ record (event s j) { status = 0 }))
unfolding eventdel
eventdel-cases i j s = elim (Bool-cases ((event s i).status == 1)) [
  | inr off ↦ rw off (inl refl)
  | inl on ↦
      rw on (elim (get_or-set_cases s.gevents i j (record (event s i) { status = 0 }) zeroed) [
        | inl here ↦ inr (here.0, here.1 ∙ ap (λ k. record (event s k) { status = 0 }) here.0)
        | inr there ↦ inl there
      ])
]

-- What one round does to a slot: nothing, or it frees the slot for which a timeout is due.
check_slot-cases :
    (now i j : ℕ) (s : Server)
    → (event (check_slot now i s) j ≡ event s j)
      ⊎ ((event (check_slot now i s) j ≡ record (event s j) { status = 0 })
          × (60 ≤ now - (event s j).last_active))
unfolding check_slot
check_slot-cases now i j s =
    ground (
      arith,
      eventdel-cases i j (note s (closed (event s i).fd)),
      ap (λ k. (event s k).last_active),
    )

check_slot-IsTable : {s : Server} (now i : ℕ) → IsTable s → IsTable (check_slot now i s)
unfolding check_slot
check_slot-IsTable {s} now i v =
    ground (arith, v, eventdel-IsTable i (same-IsTable {t = note s (closed (event s i).fd)} refl v))

-- The slot that the round looks at is settled after it.
check_slot-settles :
    (now i : ℕ) (s : Server)
    → IsTable s
    → i ≤ max_events
    → IsSettled now (event (check_slot now i s) i)
unfolding check_slot eventdel
check_slot-settles now i s v h =
    ground (arith, v.fit i, event-put_self s i (record (event s i) { status = 0 }) v h)

check_slot-IsSettled :
    (now i j : ℕ) (s : Server)
    → IsSettled now (event s j)
    → IsSettled now (event (check_slot now i s) j)
check_slot-IsSettled now i j s p = elim (check_slot-cases now i j s) [
  | inl same ↦ rw same p
  | inr freed ↦ rw freed.0 (inl refl)
]

sweep-IsSettled :
    (n now c j : ℕ) (s : Server)
    → IsSettled now (event s j)
    → IsSettled now (event (sweep n now c s).1 j)
unfolding sweep
sweep-IsSettled zero now c j s p = p
sweep-IsSettled (suc n) now c j s p =
    sweep-IsSettled n now (wrapped c + 1) j (check_slot now (wrapped c) s)
      (check_slot-IsSettled now (wrapped c) j s p)

sweep-IsTable : (n now c : ℕ) {s : Server} → IsTable s → IsTable (sweep n now c s).1
unfolding sweep
sweep-IsTable zero now c v = v
sweep-IsTable (suc n) now c v =
    sweep-IsTable n now (wrapped c + 1) (check_slot-IsTable now (wrapped c) v)

sweep_settles :
    (n now c j : ℕ) (s : Server)
    → IsTable s
    → c ≤ max_events
    → visits n c j ≡ true
    → IsSettled now (event (sweep n now c s).1 j)
unfolding sweep visits
sweep_settles zero now c j s v h e = cc
sweep_settles (suc n) now c j s v h e = elim (Bool-cases (wrapped c == j)) [
  | inl here ↦
      sweep-IsSettled n now (wrapped c + 1) j (check_slot now (wrapped c) s)
        (rw (← same here) (check_slot-settles now (wrapped c) s v (ground arith)))
  | inr there ↦
      sweep_settles n now (wrapped c + 1) j (check_slot now (wrapped c) s)
        (check_slot-IsTable now (wrapped c) v) (ground arith) (ground arith)
]
  where
    same : (wrapped c == j) ≡ true → wrapped c ≡ j
    same p = ground arith

-- A slot whose connection was active in the last 60 seconds is left as it is.
sweep_keeps_active :
    (n now c j : ℕ) (s : Server)
    → now < (event s j).last_active + 60
    → event (sweep n now c s).1 j ≡ event s j
unfolding sweep
sweep_keeps_active zero now c j s h = refl
sweep_keeps_active (suc n) now c j s h = elim (check_slot-cases now (wrapped c) j s) [
  | inl same ↦
      sweep_keeps_active n now (wrapped c + 1) j (check_slot now (wrapped c) s) (rw same h) ∙ same
  | inr freed ↦ absurd (omega (arith, freed.1))
]

-- Whether a timeout is due for the event.
abbrev pub is_idle : ℕ → Event → Bool
is_idle now e = not (e.status == 0) && leb 60 (now - e.last_active)

-- The calls that close these slots.
abbrev pub closings : Server → List ℕ → List Call
closings s [] = []
closings s (j ∷ js) = closed (event s j).fd ∷ ctl_del (event s j).fd ∷ closings s js

closings-same :
    (s t : Server)
    → ((j : ℕ) → (event t j).fd ≡ (event s j).fd)
    → (js : List ℕ) → closings t js ≡ closings s js
closings-same s t h [] = refl
closings-same s t h (j ∷ js) = rw (h j, closings-same s t h js) refl

check_slot-fd :
    (now i : ℕ) (s : Server) (j : ℕ) → (event (check_slot now i s) j).fd ≡ (event s j).fd
check_slot-fd now i s j = elim (check_slot-cases now i j s) [
  | inl same ↦ ap (λ (e : Event). e.fd) same
  | inr freed ↦ ap (λ (e : Event). e.fd) freed.0
]

check_slot_calm :
    (now i : ℕ) (s : Server) → is_idle now (event s i) ≡ false → check_slot now i s ≡ s
unfolding check_slot
check_slot_calm now i s h = ground arith

-- What a round does to a slot for which a timeout is due, and to the others.
check_slot_closes :
    (now i : ℕ) (s : Server)
    → IsTable s
    → is_idle now (event s i) ≡ true
    → (check_slot now i s).log ≡ s.log ++ (closed (event s i).fd ∷ ctl_del (event s i).fd ∷ [])
unfolding check_slot eventdel
check_slot_closes now i s v h =
    ground (
      arith,
      v.fit i,
      append_assoc s.log (closed (event s i).fd ∷ []) (ctl_del (event s i).fd ∷ []),
    )

check_slot-other : (now i j : ℕ) (s : Server) → i ≢ j → event (check_slot now i s) j ≡ event s j
unfolding check_slot eventdel
check_slot-other now i j s h =
    ground (arith, get_or-set_ne s.gevents (record (event s i) { status = 0 }) zeroed h)

settled-is_idle : (now : ℕ) (e : Event) → IsSettled now e → is_idle now e ≡ false
settled-is_idle now e h = ground (arith, h)

due-once :
    (i k rest : ℕ) (seen before after : Bool)
    → rest ≡ (if seen && after then 1 else 0)
    → (i ≡ k → (before ≡ true) × (after ≡ false))
    → (i ≢ k → after ≡ before)
    → is_number k i + rest ≡ (if (i == k || seen) && before then 1 else 0)
due-once i k rest seen before after r here there = elim (ℕ_discrete i k) [
  | yes e ↦ let (a, b) = here e in ground (arith, r, a, b, e)
  | no e ↦ let a = there e in ground (arith, r, a, e)
]

calm-never :
    (i k rest : ℕ) (seen before : Bool)
    → rest ≡ (if seen && before then 1 else 0)
    → (i ≡ k → before ≡ false)
    → rest ≡ (if (i == k || seen) && before then 1 else 0)
calm-never i k rest seen before r here = elim (ℕ_discrete i k) [
  | yes e ↦ let a = here e in ground (arith, r, a, e)
  | no e ↦ ground (arith, r, e)
]

-- The slots that a sweep closes, each as often as it closes it.
record Closes (n now c : ℕ) (s : Server) : Type 0 where
  js : List ℕ
  calls : (sweep n now c s).1.log ≡ s.log ++ closings s js
  once :
      (k : ℕ) → total (is_number k) js ≡ (if visits n c k && is_idle now (event s k) then 1 else 0)

sweep-Closes : (n now c : ℕ) (s : Server) → IsTable s → c ≤ max_events → Closes n now c s
unfolding sweep visits
sweep-Closes zero now c s v h = record { js = []; calls = sym (append-nil s.log); once = λ k. refl }
sweep-Closes (suc n) now c s v h =
    let i = wrapped c in
    let t = check_slot now i s in
    let r = sweep-Closes n now (i + 1) t (check_slot-IsTable now i v) (ground arith) in
    let same = closings-same s t (check_slot-fd now i s) r.js in
    let gone = settled-is_idle now (event t i) (check_slot-settles now i s v (ground arith)) in
    elim (Bool-cases (is_idle now (event s i))) [
      | inr calm ↦
          let still : t ≡ s = check_slot_calm now i s calm in
          record {
            js = r.js;
            calls =
                r.calls
                ∙ ap (λ l. l ++ closings t r.js) (ap (λ u. u.log) still)
                ∙ ap (λ l. s.log ++ l) same;
            once = λ k.
                calm-never i k (total (is_number k) r.js) (visits n (i + 1) k)
                  (is_idle now (event s k))
                  (r.once k
                    ∙ ap (λ u. if visits n (i + 1) k && is_idle now (event u k) then 1 else 0)
                        still)
                  (λ e. ap (λ x. is_idle now (event s x)) (sym e) ∙ calm);
          }
      | inl due ↦ record {
        js = i ∷ r.js;
        calls =
            r.calls
            ∙ ap₂ ◌++◌ (check_slot_closes now i s v due) same
            ∙ append_assoc s.log (closed (event s i).fd ∷ ctl_del (event s i).fd ∷ [])
                (closings s r.js);
        once = λ k.
            due-once i k (total (is_number k) r.js) (visits n (i + 1) k) (is_idle now (event s k))
              (is_idle now (event t k)) (r.once k)
              (λ e. (
                ap (λ x. is_idle now (event s x)) (sym e) ∙ due,
                ap (λ x. is_idle now (event t x)) (sym e) ∙ gone,
              ))
              (λ e. ap (is_idle now) (check_slot-other now i k s e));
      }
    ]

-- On a table of its shape, from a position of at most 1024, a pass of `n` rounds closes what is idle
-- in the slots that it looks at, and nothing else: what is new in the log is the closing and the
-- removal from `epoll` of the descriptors of some slots, and among these is each slot once that it
-- looks at and for which a timeout is due, and no other. After it a slot that it looks at is free or
-- was active in the last 60 seconds; and it is as it was before, or was last active at least 60
-- seconds ago.
pub sweep_closes_idle :
    (n now c j : ℕ) (s : Server)
    → IsTable s
    → c ≤ max_events
    → visits n c j ≡ true
    → ((js : List ℕ) × ((sweep n now c s).1.log ≡ s.log ++ closings s js)
        × ((k : ℕ)
            → total (is_number k) js ≡ (if visits n c k && is_idle now (event s k) then 1 else 0)))
      × IsSettled now (event (sweep n now c s).1 j)
      × ((event (sweep n now c s).1 j ≡ event s j) ⊎ ((event s j).last_active + 60 ≤ now))
sweep_closes_idle n now c j s v h e =
    let r = sweep-Closes n now c s v h in
    (
      (r.js, r.calls, r.once),
      sweep_settles n now c j s v h e,
      elim (dec_lt now ((event s j).last_active + 60)) [
        | yes p ↦ inl (sweep_keeps_active n now c j s p)
        | no p ↦ inr (omega arith)
      ],
    )

pub visits_ahead : (n c j : ℕ) → c ≤ j → j < c + n → j < max_events → visits n c j ≡ true
unfolding visits
visits_ahead zero c j a b h = absurd (omega arith)
visits_ahead (suc n) c j a b h = ground (arith, visits_ahead n (c + 1) j)

pub wrapped_lem : (c : ℕ) → c ≤ max_events → wrapped c < max_events
wrapped_lem c h = ground arith
