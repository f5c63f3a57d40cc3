-- ===== src/WordCount/Stages.antt =====
-- Where parent and child of IPC/mywc.cpp stand, and that no byte is lost.
use mathlib.Core.Bool.{true≢false}
use codespaces_blank.Prelude.{
  Bool-cases, ap₂, ℕ, ◌<◌, ◌≡◌, ◌≢◌, refl, sym, ap, ◌∙◌, inl, inr, Bool, true, false, List, [], ◌∷◌,
  ◌++◌, append_assoc, arith, total,
}
use codespaces_blank.WordCount.{
  File, closed, terminal, read_end, write_end, Action, closes, dups, act, forked, child_actions,
  parent_actions, System, start, is_reader, is_writer, Step, parent_acts, child_acts, writes,
  breaks, ends, reads, reads_end, Reach, here, next,
}

-- The tables behind the actions.
abbrev pub ls_table : List File
ls_table = terminal ∷ write_end ∷ terminal ∷ closed ∷ write_end ∷ []

abbrev pub wc_table : List File
wc_table = read_end ∷ terminal ∷ terminal ∷ read_end ∷ closed ∷ []

-- The parent: before its actions, behind the first, as `ls`, over.
pub data ParentAt (todo : List Action) (t : List File) (left : List ℕ) : Type 0 where
  begins : todo ≡ parent_actions → t ≡ forked → ParentAt todo t left
  half :
      todo ≡ dups 4 1 ∷ []
      → t ≡ terminal ∷ terminal ∷ terminal ∷ closed ∷ write_end ∷ []
      → ParentAt todo t left
  lists : todo ≡ [] → t ≡ ls_table → ParentAt todo t left
  over : todo ≡ [] → t ≡ [] → left ≡ [] → ParentAt todo t left

-- The child likewise, as `wc`.
pub data ChildAt (todo : List Action) (t : List File) (done : Bool) : Type 0 where
  begins : todo ≡ child_actions → t ≡ forked → done ≡ false → ChildAt todo t done
  half :
      todo ≡ dups 3 0 ∷ []
      → t ≡ terminal ∷ terminal ∷ terminal ∷ read_end ∷ closed ∷ []
      → done ≡ false
      → ChildAt todo t done
  counts : todo ≡ [] → t ≡ wc_table → done ≡ false → ChildAt todo t done
  over : todo ≡ [] → t ≡ [] → done ≡ true → ChildAt todo t done

pub record Inv (output : List ℕ) (s : System) : Type 0 where
  pub parent_at : ParentAt s.parent_todo s.parent s.unwritten
  pub child_at : ChildAt s.child_todo s.child s.done
  pub bytes : s.counted ++ (s.pipe ++ s.unwritten) ≡ output
  pub finished : s.done ≡ true → (s.parent ≡ []) × (s.unwritten ≡ []) × (s.pipe ≡ [])

parent_acts-ParentAt :
    {todo rest : List Action} {t : List File} {left : List ℕ} (a : Action)
    → ParentAt todo t left
    → todo ≡ a ∷ rest
    → ParentAt rest (act a t) left × (t ≢ [])
unfolding act
parent_acts-ParentAt {rest = rest} a (begins p q) e =
    let first : a ≡ closes 3 = cc in
    let others : rest ≡ dups 4 1 ∷ [] = cc in (half others (ap₂ act first q), λ h. cc)
parent_acts-ParentAt {rest = rest} a (half p q) e =
    let last : a ≡ dups 4 1 = cc in
    let others : rest ≡ [] = cc in (lists others (ap₂ act last q), λ h. cc)
parent_acts-ParentAt a (lists p q) e = absurd cc
parent_acts-ParentAt a (over p q r) e = absurd cc

child_acts-ChildAt :
    {todo rest : List Action} {t : List File} {done : Bool} (a : Action)
    → ChildAt todo t done
    → todo ≡ a ∷ rest
    → ChildAt rest (act a t) done
unfolding act
child_acts-ChildAt {rest = rest} a (begins p q d) e =
    let first : a ≡ closes 4 = cc in
    let others : rest ≡ dups 3 0 ∷ [] = cc in half others (ap₂ act first q) d
child_acts-ChildAt {rest = rest} a (half p q d) e =
    let last : a ≡ dups 3 0 = cc in let others : rest ≡ [] = cc in counts others (ap₂ act last q) d
child_acts-ChildAt a (counts p q d) e = absurd cc
child_acts-ChildAt a (over p q d) e = absurd cc

-- While the child has not come to the end of the pipe it holds a descriptor to read it.
reader :
    {todo : List Action} {t : List File} {done : Bool}
    → ChildAt todo t done
    → done ≡ false
    → 0 < total is_reader t
reader (begins p q d) h = omega (arith, ap (total is_reader) q)
reader (half p q d) h = omega (arith, ap (total is_reader) q)
reader (counts p q d) h = omega (arith, ap (total is_reader) q)
reader (over p q d) h = absurd (true≢false (sym d ∙ h))

-- Until the parent is over it holds a descriptor to write.
writer :
    {todo : List Action} {t : List File} {left : List ℕ}
    → ParentAt todo t left
    → total is_writer t ≡ 0
    → (t ≡ []) × (left ≡ [])
writer (begins p q) h = absurd (omega (arith, ap (total is_writer) q))
writer (half p q) h = absurd (omega (arith, ap (total is_writer) q))
writer (lists p q) h = absurd (omega (arith, ap (total is_writer) q))
writer (over p q r) h = (q, r)

still_lists :
    {todo : List Action} {t : List File} {left : List ℕ}
    → ParentAt todo t left
    → todo ≡ []
    → t ≢ []
    → t ≡ ls_table
still_lists (begins p q) e h = absurd cc
still_lists (half p q) e h = absurd cc
still_lists (lists p q) e h = q
still_lists (over p q r) e h = absurd (h q)

step-Inv : {n : ℕ} {o : List ℕ} {s u : System} → Inv o s → Step n s u → Inv o u
step-Inv {s = s} v (parent_acts a rest e) =
    let (at_, open_) = parent_acts-ParentAt a v.parent_at e in
    record {
      parent_at = at_;
      child_at = v.child_at;
      bytes = v.bytes;
      finished = λ d. absurd (open_ (v.finished d).0);
    }
step-Inv {s = s} v (child_acts a rest e) = record {
  parent_at = v.parent_at;
  child_at = child_acts-ChildAt a v.child_at e;
  bytes = v.bytes;
  finished = v.finished;
}
step-Inv {s = s} v (writes b rest e f left h room) =
    let open_ : s.parent ≢ [] = λ n. cc in
    record {
      parent_at = lists e (still_lists v.parent_at e open_);
      child_at = v.child_at;
      bytes =
          ap (λ k. s.counted ++ k)
            (append_assoc s.pipe (b ∷ []) rest ∙ ap (λ k. s.pipe ++ k) (sym left))
          ∙ v.bytes;
      finished = λ d. absurd (open_ (v.finished d).0);
    }
step-Inv {s = s} v (breaks e f h) = elim (Bool-cases s.done) [
  | inl d ↦ absurd (cc (v.finished d).0)
  | inr d ↦ absurd (omega (arith, h, reader v.child_at d))
]
step-Inv {s = s} v (ends e left) = record {
  parent_at = over e refl left;
  child_at = v.child_at;
  bytes = v.bytes;
  finished = λ d. (refl, (v.finished d).1, (v.finished d).2);
}
step-Inv {s = s} v (reads b rest e f p) = record {
  parent_at = v.parent_at;
  child_at = v.child_at;
  bytes =
      append_assoc s.counted (b ∷ []) (rest ++ s.unwritten)
      ∙ ap (λ k. s.counted ++ (k ++ s.unwritten)) (sym p)
      ∙ v.bytes;
  finished = λ d. absurd (cc (v.finished d).2);
}
step-Inv {s = s} v (reads_end e f p h) =
    let (gone, left) = writer v.parent_at (omega (arith, h)) in
    record {
      parent_at = v.parent_at;
      child_at = over e refl refl;
      bytes = v.bytes;
      finished = λ d. (gone, left, p);
    }

pub Reach-Inv : {n : ℕ} (o : List ℕ) {s : System} → Reach n (start o) s → Inv o s
Reach-Inv o here = record {
  parent_at = begins refl refl;
  child_at = begins refl refl refl;
  bytes = refl;
  finished = λ d. absurd cc;
}
Reach-Inv o (next r x) = step-Inv (Reach-Inv o r) x
