-- ===== src/SelectServer/Watching.antt =====
-- Which descriptors the server of socket/select/select.cpp watches.
use codespaces_blank.Prelude.{
  ℕ, zero, suc, ◌+◌, ◌-◌, ◌<◌, ◌≡◌, ◌≢◌, refl, sym, ◌∙◌, ap, Bool, true, false, ◌&&◌, List, [], ◌∷◌,
  Option, none, some, arith, ◌==◌, if◌then◌else◌, Bool-cases, inl, inr,
}
use codespaces_blank.SelectServer.{
  FdSet, Server, Selected, Answers, listening, read_client, serve_clients, clients, add_client,
  after_select, turn, turns,
}

-- What holds where the server has not exited.
abbrev pub Holds : (Server → Type 0) → Option Server → Type 0
Holds P none = Unit
Holds P (some t) = P t

Holds-then :
    (P Q : Server → Type 0) (r : Option Server) (f : Server → Option Server)
    → Holds P r
    → ((t : Server) → P t → Holds Q (f t))
    → Holds Q (elim r [ none ↦ none | some t ↦ f t ])
Holds-then P Q none f h k = tt
Holds-then P Q (some t) f h k = k t h

-- The descriptor is not watched.
abbrev pub IsUnwatched : ℕ → Server → Type 0
IsUnwatched j s = s.allset j ≡ false

-- Every descriptor that is watched is in the range that `select` is given.
abbrev pub IsInRange : Server → Type 0
IsInRange s = (j : ℕ) → s.allset j ≡ true → j < s.nfds

-- `accept` does not return the descriptor in any of the turns.
abbrev pub NeverAccepted : ℕ → List Answers → Type 0
NeverAccepted j [] = Unit
NeverAccepted j (a ∷ rest) = (a.connfd ≢ j) × NeverAccepted j rest

module _ (toupper : ℕ → ℕ) where
  -- What each round of the loop over the clients keeps, the loop keeps.
  serve_clients_keeps :
      (P : Server → Type 0)
      → ((i : ℕ) (r : Option (List ℕ)) (s : Server) → P s → Holds P (read_client toupper i r s))
      → (rset : FdSet) (reads : ℕ → Option (List ℕ)) (n i : ℕ) (s : Server) → P s
      → Holds P (serve_clients toupper rset reads n i s)
  unfolding serve_clients
  serve_clients_keeps P k rset reads zero i s p = p
  serve_clients_keeps P k rset reads (suc n) i s p =
      Holds-then P P (if rset i then read_client toupper i (reads i) s else some s) _
        (elim (Bool-cases (rset i)) [ inl e ↦ rw e (k i (reads i) s p) | inr e ↦ rw e p ])
        (serve_clients_keeps P k rset reads n (i + 1))

  -- What each round and a new client keep, a turn keeps behind `select`.
  after_select_keeps :
      (P : Server → Type 0) (listenfd : ℕ) (rset : FdSet) (ret : ℕ) (a : Answers) (s : Server)
      → ((i : ℕ) (r : Option (List ℕ)) (t : Server) → P t → Holds P (read_client toupper i r t))
      → ((t : Server) → P t → P (add_client toupper a.connfd t))
      → P s
      → Holds P (after_select toupper listenfd rset ret a s)
  unfolding after_select clients
  after_select_keeps P listenfd rset ret a s reads adds p =
      let serves = λ (t : Server).
        serve_clients_keeps P reads rset a.reads (t.nfds - (listenfd + 1)) (listenfd + 1) t in
      elim (Bool-cases (s.allset listenfd)) [
        | inr quiet ↦ rw quiet (serves s p)
        | inl called ↦ rw called (elim (Bool-cases (ret == 1)) [
          | inl alone ↦ rw alone (adds s p)
          | inr others ↦ rw others (serves _ (adds s p))
        ])
      ]

  read_client-IsUnwatched :
      (j i : ℕ) (r : Option (List ℕ)) (s : Server)
      → IsUnwatched j s
      → Holds (IsUnwatched j) (read_client toupper i r s)
  unfolding read_client
  read_client-IsUnwatched j i none s h = tt
  read_client-IsUnwatched j i (some []) s h = ground (arith, h)
  read_client-IsUnwatched j i (some (b ∷ bs)) s h = h

  add_client-IsUnwatched :
      (j c : ℕ) (s : Server) → c ≢ j → IsUnwatched j s → IsUnwatched j (add_client toupper c s)
  unfolding add_client
  add_client-IsUnwatched j c s ne h = ground (arith, h)

  read_client-IsInRange :
      (i : ℕ) (r : Option (List ℕ)) (s : Server)
      → IsInRange s
      → Holds IsInRange (read_client toupper i r s)
  unfolding read_client
  read_client-IsInRange i none s h = tt
  read_client-IsInRange i (some []) s h = λ j w. h j (ground (arith, w))
  read_client-IsInRange i (some (b ∷ bs)) s h = h

  add_client-IsInRange : (c : ℕ) (s : Server) → IsInRange s → IsInRange (add_client toupper c s)
  unfolding add_client
  add_client-IsInRange c s h = λ j w. ground (arith, h j)

  -- What a turn keeps, with what it may ask of what `select` finds.
  turn_keeps :
      (P : Server → Type 0) (listenfd : ℕ) (a : Answers) (s : Server)
      → ((i : ℕ) (r : Option (List ℕ)) (t : Server) → P t → Holds P (read_client toupper i r t))
      → ((t : Server) → P t → P (add_client toupper a.connfd t))
      → ((sel : Selected)
          → a.selected ≡ some sel
          → P (record s { allset = λ i. s.allset i && sel.ready i }))
      → Holds P (turn toupper listenfd a s)
  unfolding turn
  turn_keeps P listenfd a s reads adds selects = found a.selected selects
    where
      found :
          (r : Option Selected)
          → ((sel : Selected)
              → r ≡ some sel
              → P (record s { allset = λ i. s.allset i && sel.ready i }))
          → Holds P (elim r [
            | none ↦ none
            | some sel ↦
                after_select toupper listenfd s.allset sel.ret a
                  (record s { allset = λ i. s.allset i && sel.ready i })
          ])
      found none k = tt
      found (some sel) k =
          after_select_keeps P listenfd s.allset sel.ret a
            (record s { allset = λ i. s.allset i && sel.ready i }) reads adds (k sel refl)

  turns-IsUnwatched :
      (j listenfd : ℕ) (rest : List Answers) (s : Server)
      → NeverAccepted j rest
      → IsUnwatched j s
      → Holds (IsUnwatched j) (turns toupper listenfd rest s)
  unfolding turns
  turns-IsUnwatched j listenfd [] s n h = h
  turns-IsUnwatched j listenfd (a ∷ rest) s n h =
      Holds-then (IsUnwatched j) (IsUnwatched j) (turn toupper listenfd a s) _
        (turn_keeps (IsUnwatched j) listenfd a s (read_client-IsUnwatched j)
          (λ t. add_client-IsUnwatched j a.connfd t n.0) (λ sel e. ground (arith, h)))
        (λ t. turns-IsUnwatched j listenfd rest t n.1)

  -- A client that is not ready in one turn is forgotten: after that turn and any further ones,
  -- `accept` not returning its descriptor in any of them, the server, if it has not exited, does
  -- not watch it.
  pub idle_client_forgotten :
      (j listenfd : ℕ) (a : Answers) (sel : Selected) (rest : List Answers) (s : Server)
      → a.selected ≡ some sel
      → sel.ready j ≡ false
      → NeverAccepted j (a ∷ rest)
      → Holds (IsUnwatched j) (turns toupper listenfd (a ∷ rest) s)
  unfolding turns
  idle_client_forgotten j listenfd a sel rest s e idle n =
      Holds-then (IsUnwatched j) (IsUnwatched j) (turn toupper listenfd a s) _
        (turn_keeps (IsUnwatched j) listenfd a s (read_client-IsUnwatched j)
          (λ t. add_client-IsUnwatched j a.connfd t n.0)
          (λ x p.
            let idle_x : x.ready j ≡ false = ap ready_at (sym p ∙ e) ∙ idle in
            ground (arith, idle_x)))
        (λ t. turns-IsUnwatched j listenfd rest t n.1)
    where
      ready_at : Option Selected → Bool
      ready_at none = false
      ready_at (some k) = k.ready j

  turns-IsInRange :
      (listenfd : ℕ) (rest : List Answers) (s : Server)
      → IsInRange s
      → Holds IsInRange (turns toupper listenfd rest s)
  unfolding turns
  turns-IsInRange listenfd [] s h = h
  turns-IsInRange listenfd (a ∷ rest) s h =
      Holds-then IsInRange IsInRange (turn toupper listenfd a s) _
        (turn_keeps IsInRange listenfd a s read_client-IsInRange (add_client-IsInRange a.connfd)
          (λ sel e j w. h j (ground (arith, w))))
        (turns-IsInRange listenfd rest)

  -- From the start of the loop, through any turns up to an exit: every descriptor that is watched
  -- is below `nfds`.
  pub nfds_covers :
      (listenfd : ℕ) (recv_buf : List ℕ) (rest : List Answers)
      → Holds IsInRange (turns toupper listenfd rest (listening listenfd recv_buf))
  nfds_covers listenfd recv_buf rest =
      turns-IsInRange listenfd rest (listening listenfd recv_buf) (λ j w. ground (arith, w))
