-- ===== src/EdgeReader/Drains.antt =====
-- The server of socket/epoll/non_block/server.cpp leaves no byte unread.
use codespaces_blank.Prelude.{
  ℕ, zero, suc, ◌∷◌, ◌≡◌, refl, sym, ap, ◌∙◌, ◌⊎◌, inl, inr, true, List, [], ◌++◌, append_assoc,
  append-nil, take, drop,
}
use codespaces_blank.EdgeReader.{
  draining, Connection, added, Step, arrives, wakes, reads, finds_none, Reach, here, next,
}

take-drop : (n : ℕ) (xs : List ℕ) → take n xs ++ drop n xs ≡ xs
take-drop zero xs = refl
take-drop (suc n) [] = refl
take-drop (suc n) (x ∷ xs) = ap (λ l. x ∷ l) (take-drop n xs)

-- What has come is written or still to be read; and `epoll_wait` will return, or the server is
-- reading, or there is nothing to read.
record Inv (s : Connection) : Type 0 where
  whole : s.output ++ s.pending ≡ s.arrived
  noticed : (s.edge ≡ true) ⊎ (s.phase ≡ draining) ⊎ (s.pending ≡ [])

step-Inv : {s t : Connection} → Inv s → Step s t → Inv t
step-Inv {s} v (arrives bytes) = record {
  whole = sym (append_assoc s.output s.pending bytes) ∙ ap (λ l. l ++ bytes) v.whole;
  noticed = inl refl;
}
step-Inv v (wakes w e) = record { whole = v.whole; noticed = inr (inl refl) }
step-Inv {s} v (reads n d p m l) = record {
  whole =
      append_assoc s.output (take n s.pending) (drop n s.pending)
      ∙ ap (λ k. s.output ++ k) (take-drop n s.pending)
      ∙ v.whole;
  noticed = inr (inl d);
}
step-Inv v (finds_none d none_) = record { whole = v.whole; noticed = inr (inr none_) }

Reach-Inv : {bytes : List ℕ} {s : Connection} → Reach (added bytes) s → Inv s
Reach-Inv here = record { whole = refl; noticed = inl refl }
Reach-Inv (next r x) = step-Inv (Reach-Inv r) x

-- However bytes come while the server reads, and however few each `read` gives: what is written
-- is always a first part of what has come, and whenever the server waits and `epoll_wait` has
-- nothing to return for, all that has come is written.
pub no_byte_overlooked :
    (bytes : List ℕ) (s : Connection)
    → Reach (added bytes) s
    → (s.output ++ s.pending ≡ s.arrived)
      × ((s.edge ≡ true) ⊎ (s.phase ≡ draining) ⊎ (s.output ≡ s.arrived))
no_byte_overlooked bytes s r =
    let v = Reach-Inv r in
    (
      v.whole,
      elim v.noticed [
        | inl e ↦ inl e
        | inr (inl d) ↦ inr (inl d)
        | inr (inr none_) ↦
            inr (inr (sym (append-nil s.output) ∙ ap (λ l. s.output ++ l) (sym none_) ∙ v.whole))
      ],
    )
