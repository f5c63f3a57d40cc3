-- ===== src/EpollServer/Packets.antt =====
-- Packets through `Recv_task` of socket/Server/Reactor.cpp.
use codespaces_blank.Prelude.{
  true, ℕ, zero, suc, ◌-◌, ◌/◌, ◌%◌, ◌^◌, ◌<◌, ◌≡◌, refl, sym, ap, ◌∙◌, List, [], ◌∷◌, ◌++◌, some,
  arith, append_assoc, append-nil, ltb, length, length-append, take_all,
}
use codespaces_blank.EpollServer.{DataBuffer, handed, pack_size, gather, recv_task, send_task}

-- The four bytes of a size, the lowest first.
abbrev pub size_bytes : ℕ → List ℕ
size_bytes n = n % 256 ∷ n / 256 % 256 ∷ n / 65536 % 256 ∷ n / 16777216 % 256 ∷ []

pack_size-size_bytes : (n : ℕ) → n < 2 ^ 32 → pack_size (size_bytes n) ≡ n
unfolding pack_size
pack_size-size_bytes n h = omega arith

abbrev pub concat : List (List ℕ) → List ℕ
concat [] = []
concat (c ∷ cs) = c ++ concat cs

-- No call of `recv` ends the packet early.
abbrev pub AllSome : List (List ℕ) → Type 0
AllSome [] = Unit
AllSome (c ∷ cs) = (0 < length c) × AllSome cs

gather-concat :
    (cs rest : List (List ℕ)) (n : ℕ) (got : List ℕ)
    → AllSome cs
    → length (concat cs) ≡ n
    → gather n got (cs ++ rest) ≡ got ++ concat cs
unfolding gather
gather-concat [] rest zero got h e = sym (append-nil got)
gather-concat [] rest (suc n) got h e = absurd (omega arith)
gather-concat ([] ∷ cs) rest n got h e = absurd (omega (arith, h))
gather-concat ((b ∷ bs) ∷ cs) rest zero got h e = absurd (omega arith)
gather-concat ((b ∷ bs) ∷ cs) rest (suc n) got h e =
    gather-concat cs rest (suc n - length (b ∷ bs)) (got ++ (b ∷ bs)) h.1
      (omega (arith, e, length-append (b ∷ bs) (concat cs)))
    ∙ append_assoc got (b ∷ bs) (concat cs)

-- A packet that is sent as its size in four bytes and then its bytes, fewer than 2 ^ 31, arrives
-- whole: in whatever pieces `recv` gives the bytes, and whatever further calls of `recv` would give,
-- `Recv_task` hands on a buffer with exactly these, and `Send_task` sends exactly these back.
pub packet_round_trip :
    (fd : ℕ) (cs rest : List (List ℕ))
    → AllSome cs
    → length (concat cs) < 2 ^ 31
    → (d : DataBuffer) × (recv_task fd (some (size_bytes (length (concat cs)))) (cs ++ rest)
        ≡ handed d)
      × (send_task d ≡ (fd, concat cs))
unfolding recv_task send_task
packet_round_trip fd cs rest h small =
    let n = length (concat cs) in
    let size = pack_size-size_bytes n (omega arith) in
    let got = ap (λ k. gather k [] (cs ++ rest)) size ∙ gather-concat cs rest n [] h refl in
    let fits : ltb (pack_size (size_bytes n)) (2 ^ 31) ≡ true = ground (arith, size) in
    (
      record { sockfd = fd; buf = concat cs; nlen = n },
      rw fits (ap (λ (k : List ℕ). handed (record { sockfd = fd; buf = k; nlen = length k })) got),
      ap (λ (k : List ℕ). (fd, k)) (take_all n (concat cs) refl),
    )

gather-short :
    (cs rest : List (List ℕ)) (n : ℕ) (got : List ℕ)
    → AllSome cs
    → length (concat cs) < n
    → gather n got (cs ++ ([] ∷ rest)) ≡ got ++ concat cs
unfolding gather
gather-short cs rest zero got h short = absurd (omega arith)
gather-short [] rest (suc n) got h short = sym (append-nil got)
gather-short ([] ∷ cs) rest (suc n) got h short = absurd (omega (arith, h))
gather-short ((b ∷ bs) ∷ cs) rest (suc n) got h short =
    gather-short cs rest (suc n - length (b ∷ bs)) (got ++ (b ∷ bs)) h.1
      (omega (arith, length-append (b ∷ bs) (concat cs)))
    ∙ append_assoc got (b ∷ bs) (concat cs)

-- A packet that breaks off is taken for a whole one: where a size of `n` bytes below 2 ^ 31 is
-- announced and `recv` gives fewer bytes before it fails or finds the connection closed,
-- `Recv_task` hands on a buffer with the bytes so far, and does not close the connection.
pub broken_packet_is_handed :
    (fd n : ℕ) (cs rest : List (List ℕ))
    → n < 2 ^ 31
    → AllSome cs
    → length (concat cs) < n
    → recv_task fd (some (size_bytes n)) (cs ++ ([] ∷ rest))
      ≡ handed (record { sockfd = fd; buf = concat cs; nlen = length (concat cs) })
unfolding recv_task
broken_packet_is_handed fd n cs rest small h short =
    let size = pack_size-size_bytes n (omega arith) in
    let got = ap (λ k. gather k [] (cs ++ ([] ∷ rest))) size ∙ gather-short cs rest n [] h short in
    let fits : ltb (pack_size (size_bytes n)) (2 ^ 31) ≡ true = ground (arith, size) in
    rw fits (ap (λ (k : List ℕ). handed (record { sockfd = fd; buf = k; nlen = length k })) got)
