-- ===== src/WordCount/Ends.antt =====
-- `wc` of IPC/mywc.cpp comes to the end of its input.
use codespaces_blank.Prelude.{
  ℕ, ◌≡◌, refl, sym, ap, ap₂, subst, length, ◌<◌, ◌∙◌, ◌⊎◌, inl, inr, true, false, Bool-cases, List,
  [], ◌∷◌, ◌++◌, append-nil, arith, total,
}
use codespaces_blank.WordCount.{
  file, closes, dups, act, System, start, is_reader, is_writer, holders, Step, parent_acts,
  child_acts, writes, ends, reads, reads_end, Reach, here, next,
}
use codespaces_blank.WordCount.Stages.{
  ls_table, wc_table, ParentAt, begins, half, lists, over, ChildAt, Reach-Inv,
}

-- A pipe that takes at least one byte.
module _ (n : ℕ) (some_room : 0 < n) where
  -- `wc` has come to its end.
  abbrev pub Done : System → Type 0
  Done s = (t : System) × Reach n s t × (t.done ≡ true)

  Reach-trans : {s t u : System} → Reach n s t → Reach n t u → Reach n s u
  Reach-trans a here = a
  Reach-trans a (next b st) = next (Reach-trans a b) st

  then-Done : {s t : System} → Step n s t → Done t → Done s
  then-Done st (u, r, d) = (u, Reach-trans (next here st) r, d)

  -- `wc` has its descriptors.
  record IsCounting (s : System) : Type 0 where
    todo : s.child_todo ≡ []
    table : s.child ≡ wc_table

  -- `wc` reads what is in the pipe.
  drains :
      (bs : List ℕ) (s : System)
      → IsCounting s
      → s.pipe ≡ bs
      → ((xs : List ℕ) → Done (record s { pipe = []; counted = xs }))
      → Done s
  drains [] s c e k =
      let same : s ≡ record s { pipe = []; counted = s.counted } =
        ap (λ p. record s { pipe = p }) e in
      subst Done (sym same) (k s.counted)
  drains (b ∷ bs) s c e k = then-Done (reads b bs c.todo (ap (λ t. file t 0) c.table) e) (
      drains bs (record s { pipe = bs; counted = s.counted ++ (b ∷ []) })
        (record { todo = c.todo; table = c.table }) refl k)

  -- `ls` is over, and the pipe is empty.
  sees_end : (s : System) → IsCounting s → s.parent ≡ [] → s.pipe ≡ [] → Done s
  sees_end s c p e = (_, next here (reads_end c.todo (ap (λ t. file t 0) c.table) e nobody), refl)
    where
      nobody : holders is_writer s ≡ 0
      nobody = omega (arith, ap (total is_writer) c.table, ap (total is_writer) p)

  -- `ls` writes what it has to write, and `wc` reads each byte at once.
  lists_all :
      (bs : List ℕ) (s : System)
      → IsCounting s
      → s.parent_todo ≡ []
      → s.parent ≡ ls_table
      → s.pipe ≡ []
      → s.unwritten ≡ bs
      → Done s
  lists_all [] s c p t f e =
      then-Done (ends p e) (sees_end _ (record { todo = c.todo; table = c.table }) refl f)
  lists_all (b ∷ bs) s c p t f e =
      then-Done
        (writes b bs p (ap (λ k. file k 1) t) e (omega (arith, ap (total is_reader) c.table))
          (omega (arith, some_room, ap length f)))
        (then-Done (reads b [] c.todo (ap (λ k. file k 0) c.table) (ap (λ k. k ++ (b ∷ [])) f))
          (lists_all bs _ (record { todo = c.todo; table = c.table }) p t refl refl))

  -- The child is `wc`, and the parent is `ls` or over.
  lists_on : (s : System) → IsCounting s → s.parent_todo ≡ [] → s.parent ≡ ls_table → Done s
  lists_on s c p t =
      drains s.pipe s c refl
        (λ xs. lists_all s.unwritten _ (record { todo = c.todo; table = c.table }) p t refl refl)

  -- The child is `wc`, wherever the parent is.
  parent_goes : (s : System) → IsCounting s → ParentAt s.parent_todo s.parent s.unwritten → Done s
  unfolding act
  parent_goes s c (begins p t) = then-Done (parent_acts (closes 3) _ p) (
      then-Done (parent_acts (dups 4 1) _ refl) (
        lists_on _ (record { todo = c.todo; table = c.table }) refl
          (ap (λ k. act (dups 4 1) (act (closes 3) k)) t)))
  parent_goes s c (half p t) =
      then-Done (parent_acts (dups 4 1) _ p)
        (lists_on _ (record { todo = c.todo; table = c.table }) refl (ap (act (dups 4 1)) t))
  parent_goes s c (lists p t) = lists_on s c p t
  parent_goes s c (over p t e) =
      drains s.pipe s c refl (λ xs. sees_end _ (record { todo = c.todo; table = c.table }) t refl)

  goes :
      (s : System)
      → ParentAt s.parent_todo s.parent s.unwritten
      → ChildAt s.child_todo s.child s.done
      → Done s
  unfolding act
  goes s v (ChildAt.begins c t d) = then-Done (child_acts (closes 4) _ c) (
      then-Done (child_acts (dups 3 0) _ refl) (
        parent_goes _
          (record { todo = refl; table = ap (λ k. act (dups 3 0) (act (closes 4) k)) t }) v))
  goes s v (ChildAt.half c t d) =
      then-Done (child_acts (dups 3 0) _ c)
        (parent_goes _ (record { todo = refl; table = ap (act (dups 3 0)) t }) v)
  goes s v (ChildAt.counts c t d) = parent_goes s (record { todo = c; table = t }) v
  goes s v (ChildAt.over c t d) = (s, here, d)

  -- What `wc` has counted at its end.
  counted-all : (o : List ℕ) {s : System} → Reach n (start o) s → s.done ≡ true → s.counted ≡ o
  counted-all o {s} r d =
      let v = Reach-Inv o r in
      let (_, left, p) = v.finished d in
      sym (append-nil s.counted) ∙ ap₂ (λ x y. s.counted ++ (x ++ y)) (sym p) (sym left) ∙ v.bytes

  -- Whatever bytes `ls` writes, and however parent and child take turns with their descriptors and
  -- a pipe that takes at least one byte at a time: in every state that they reach, `wc` has not come to the end of its input, or has read
  -- exactly what `ls` writes; and from there some steps lead to a state in which it has come to the
  -- end.
  pub wc_counts_all :
      (output : List ℕ) {s : System}
      → Reach n (start output) s
      → ((s.done ≡ false) ⊎ (s.counted ≡ output))
        × ((t : System) × Reach n s t × (t.done ≡ true) × (t.counted ≡ output))
  wc_counts_all o {s} r =
      let v = Reach-Inv o r in
      let (t, x, d) = goes s v.parent_at v.child_at in
      (
        elim (Bool-cases s.done) [ inl e ↦ inr (counted-all o r e) | inr e ↦ inl e ],
        (t, x, d, counted-all o (Reach-trans r x) d),
      )
