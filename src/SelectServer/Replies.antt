-- ===== src/SelectServer/Replies.antt =====
-- What the server of socket/select/select.cpp answers.
use codespaces_blank.Prelude.{
  ℕ, zero, suc, ◌+◌, ◌≤◌, ◌≡◌, refl, ap, ◌∙◌, true, List, [], ◌∷◌, ◌++◌, Option, none, some, arith,
  length, drop, append_assoc, if◌then◌else◌,
}
use mathlib.Core.List.{map}
use codespaces_blank.SelectServer.{
  FdSet, Server, replied, printed, upper, read_client, serve_clients,
}

module _ (toupper : ℕ → ℕ) where
  upper_lem : (xs ys : List ℕ) → upper toupper (length xs) (xs ++ ys) ≡ map toupper xs ++ ys
  unfolding upper
  upper_lem [] ys = refl
  upper_lem (x ∷ xs) ys = ap (λ k. toupper x ∷ k) (upper_lem xs ys)

  -- What is in `recvBuf` after a client has sent these bytes.
  abbrev pub answered : List ℕ → List ℕ → List ℕ
  answered bytes buf = map toupper bytes ++ drop (length bytes) buf

  abbrev pub after_reply : ℕ → List ℕ → Server → Server
  after_reply i buf s = record s {
    recv_buf = buf;
    log = s.log ++ (replied i buf ∷ printed buf ∷ []);
  }

  read_client_lem :
      (i x : ℕ) (xs : List ℕ) (s : Server)
      → read_client toupper i (some (x ∷ xs)) s
        ≡ some (after_reply i (answered (x ∷ xs) s.recv_buf) s)
  unfolding read_client
  read_client_lem i x xs s =
      ap (λ buf. some (after_reply i buf s))
        (upper_lem (x ∷ xs) (drop (length (x ∷ xs)) s.recv_buf))

  serve_clients_reply :
      (rset : FdSet) (reads : ℕ → Option (List ℕ)) (n i x : ℕ) (xs : List ℕ) (s : Server)
      → rset i ≡ true
      → reads i ≡ some (x ∷ xs)
      → serve_clients toupper rset reads (suc n) i s
        ≡ serve_clients toupper rset reads n
            (i + 1)
            (after_reply i (answered (x ∷ xs) s.recv_buf) s)
  unfolding serve_clients
  serve_clients_reply rset reads n i x xs s a c =
      ap
        (λ (k : Option Server). elim k [
          | none ↦ none
          | some t ↦ serve_clients toupper rset reads n (i + 1) t
        ])
        served
    where
      served :
          (if rset i then read_client toupper i (reads i) s else some s)
          ≡ some (after_reply i (answered (x ∷ xs) s.recv_buf) s)
      served = rw (a, c) (read_client_lem i x xs s)

  length-map : (xs : List ℕ) → length (map toupper xs) ≡ length xs
  length-map [] = refl
  length-map (x ∷ xs) = ap suc (length-map xs)

  drop_within : (n : ℕ) (xs ys : List ℕ) → n ≤ length xs → drop n (xs ++ ys) ≡ drop n xs ++ ys
  drop_within zero xs ys h = refl
  drop_within (suc n) [] ys h = absurd (omega arith)
  drop_within (suc n) (x ∷ xs) ys h = drop_within n xs ys (omega arith)

  -- Two clients with adjacent descriptors each send at least one byte, the second no more than the
  -- first. Each reply is the whole of `recvBuf`: to the second client it holds its own bytes in
  -- upper case, then those of the first client from there on, then what was in the buffer.
  pub reply_discloses :
      (rset : FdSet) (reads : ℕ → Option (List ℕ)) (i x y : ℕ) (xs ys : List ℕ) (s : Server)
      → rset i ≡ true
      → rset (i + 1) ≡ true
      → reads i ≡ some (x ∷ xs)
      → reads (i + 1) ≡ some (y ∷ ys)
      → length ys ≤ length xs
      → let first = map toupper (x ∷ xs) ++ drop (length (x ∷ xs)) s.recv_buf in
        let second =
          map toupper (y ∷ ys)
          ++ (drop (length ys) (map toupper xs) ++ drop (length (x ∷ xs)) s.recv_buf) in
        serve_clients toupper rset reads 2 i s
        ≡ some (record s {
          recv_buf = second;
          log =
              s.log
              ++ (replied i first ∷ printed first ∷ replied (i + 1) second ∷ printed second ∷ []);
        })
  unfolding serve_clients
  reply_discloses rset reads i x y xs ys s a b c d h =
      serve_clients_reply rset reads 1 i x xs s a c
      ∙ serve_clients_reply rset reads 0 (i + 1) y ys (after_reply i first s) b d
      ∙ ap (λ buf. some (after_reply (i + 1) buf (after_reply i first s))) mixed
      ∙ ap (λ l. some (record s { recv_buf = second; log = l }))
          (append_assoc s.log (replied i first ∷ printed first ∷ [])
            (replied (i + 1) second ∷ printed second ∷ []))
    where
      first : List ℕ
      first = answered (x ∷ xs) s.recv_buf

      second : List ℕ
      second =
          map toupper (y ∷ ys)
          ++ (drop (length ys) (map toupper xs) ++ drop (length (x ∷ xs)) s.recv_buf)

      mixed : answered (y ∷ ys) first ≡ second
      mixed =
          ap (λ k. map toupper (y ∷ ys) ++ k)
            (drop_within (length ys) (map toupper xs) (drop (length (x ∷ xs)) s.recv_buf)
              (omega (arith, h, length-map xs)))
