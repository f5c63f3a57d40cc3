-- ===== src/ChildReaper/Collects.antt =====
-- signal/recovery.cpp overlooks no dead child.
use codespaces_blank.Prelude.{
  ℕ, zero, suc, ◌≡◌, ◌<◌, ◌≢◌, dec_lt, ◌⊎◌, inl, inr, refl, sym, ap, ◌∙◌, Bool, true, false, List,
  [], ◌∷◌, ◌++◌, some, arith, get_elem?, set, replicate, subst, ◌||◌, total, total-append,
}
use codespaces_blank.ChildReaper.{
  Child, alive, zombie, Action, block, fork, fork_or_exit, install, unblock, Handler, idle, waiting,
  returning, Family, recovery, start, raise, Step, blocks, forks, fork_fails, forks_or_exits,
  installs, unblocks, exits, delivers, collects, finds_none, returns, Reach, here, next, is_zombie,
  zombies,
}

-- A program that forks only while SIGCHLD is blocked or has its handler, takes off the block only
-- after it has set the handler, and ends with the handler set and nothing blocked.
abbrev pub IsCareful : List Action → (blocked installed : Bool) → Type 0
IsCareful [] b i = (b ≡ false) × (i ≡ true)
IsCareful (block ∷ l) b i = IsCareful l true i
IsCareful (fork ∷ l) b i = (b || i ≡ true) × IsCareful l b i
IsCareful (fork_or_exit ∷ l) b i = (b || i ≡ true) × IsCareful l b i
IsCareful (install ∷ l) b i = IsCareful l b true
IsCareful (unblock ∷ l) b i = (i ≡ true) × IsCareful l false i

forks-IsCareful : (n : ℕ) → IsCareful (replicate n fork ++ (install ∷ unblock ∷ [])) true false
forks-IsCareful zero = (refl, (refl, refl))
forks-IsCareful (suc n) = (refl, forks-IsCareful n)

record Inv (s : Family) : Type 0 where
  careful : IsCareful s.todo s.blocked s.installed
  guarded : (s.children ≡ []) ⊎ (s.blocked || s.installed ≡ true)
  quiet : s.installed ≡ false → s.handler ≡ idle
  noticed : 0 < zombies s → (s.pending ≡ true) ⊎ (s.handler ≡ waiting)

no_zombie : (l : List Child) → ((i : ℕ) → get_elem? l i ≡ some zombie → ⊥) → total is_zombie l ≡ 0
no_zombie [] h = refl
no_zombie (c ∷ l) h = omega (arith, first c (h 0), no_zombie l (λ i. h (suc i)))
  where
    first : (c : Child) → (some c ≡ some zombie → ⊥) → is_zombie c ≡ 0
    first zombie q = absurd (q refl)
    first _ q = refl

-- A signal that comes while it is blocked or has its handler is noticed.
raise-Inv :
    (s : Family)
    → IsCareful s.todo s.blocked s.installed
    → (s.blocked || s.installed ≡ true)
    → (s.installed ≡ false → s.handler ≡ idle)
    → Inv (raise s)
unfolding raise
raise-Inv s c w q = by_cases s.blocked s.installed s.handler c w q
  where
    by_cases :
        (b i : Bool) (h : Handler)
        → IsCareful s.todo b i
        → (b || i ≡ true)
        → (i ≡ false → h ≡ idle)
        → Inv (raise (record s { blocked = b; installed = i; handler = h }))
    by_cases true i h c w q = record {
      careful = c;
      guarded = inr refl;
      quiet = q;
      noticed = λ z. inl refl;
    }
    by_cases false true idle c w q = record {
      careful = c;
      guarded = inr refl;
      quiet = λ e. cc;
      noticed = λ z. inr refl;
    }
    by_cases false true waiting c w q = record {
      careful = c;
      guarded = inr refl;
      quiet = λ e. cc;
      noticed = λ z. inl refl;
    }
    by_cases false true returning c w q = record {
      careful = c;
      guarded = inr refl;
      quiet = λ e. cc;
      noticed = λ z. inl refl;
    }
    by_cases false false h c w q = cc

-- Where there is no child, nothing is lost with a signal.
raise_childless-Inv :
    (s : Family)
    → IsCareful s.todo s.blocked s.installed
    → s.children ≡ []
    → (s.installed ≡ false → s.handler ≡ idle)
    → Inv (raise s)
unfolding raise
raise_childless-Inv s c none q = by_cases s.blocked s.installed s.handler c q
  where
    no_zombies : 0 < zombies s → ⊥
    no_zombies z = omega (arith, ap (total is_zombie) none)

    by_cases :
        (b i : Bool) (h : Handler)
        → IsCareful s.todo b i
        → (i ≡ false → h ≡ idle)
        → Inv (raise (record s { blocked = b; installed = i; handler = h }))
    by_cases true i h c q = record {
      careful = c;
      guarded = inl none;
      quiet = q;
      noticed = λ z. inl refl;
    }
    by_cases false true idle c q = record {
      careful = c;
      guarded = inl none;
      quiet = λ e. cc;
      noticed = λ z. inr refl;
    }
    by_cases false false idle c q = record {
      careful = c;
      guarded = inl none;
      quiet = λ e. refl;
      noticed = λ z. absurd (no_zombies z);
    }
    by_cases false i waiting c q = record {
      careful = c;
      guarded = inl none;
      quiet = q;
      noticed = λ z. inl refl;
    }
    by_cases false i returning c q = record {
      careful = c;
      guarded = inl none;
      quiet = q;
      noticed = λ z. inl refl;
    }

or_true : (b : Bool) → b || true ≡ true
or_true b = ground arith

some_child : (l : List Child) (i : ℕ) {c : Child} → get_elem? l i ≡ some c → l ≡ [] → ⊥
some_child [] i e h = cc
some_child (x ∷ l) i e h = cc

main-IsCareful :
    {s : Family} {a : Action} {l : List Action}
    → Inv s
    → s.todo ≡ a ∷ l
    → IsCareful (a ∷ l) s.blocked s.installed
main-IsCareful {s} v e = subst (λ k. IsCareful k s.blocked s.installed) e v.careful

waiting≢returning : waiting ≡ returning → ⊥
waiting≢returning e = cc

Step-Inv : {s t : Family} → Step s t → Inv s → Inv t
Step-Inv {s} (blocks l h e) v = record {
  careful = main-IsCareful v e;
  guarded = inr refl;
  quiet = v.quiet;
  noticed = v.noticed;
}
Step-Inv {s} (forks l h e) v = record {
  careful = (main-IsCareful v e).1;
  guarded = inr (main-IsCareful v e).0;
  quiet = v.quiet;
  noticed = λ z. v.noticed (omega (arith, total-append is_zombie s.children (alive ∷ [])));
}
Step-Inv {s} (fork_fails l h e) v = record {
  careful = (main-IsCareful v e).1;
  guarded = v.guarded;
  quiet = v.quiet;
  noticed = v.noticed;
}
Step-Inv {s} (forks_or_exits l h e) v = record {
  careful = (main-IsCareful v e).1;
  guarded = inr (main-IsCareful v e).0;
  quiet = v.quiet;
  noticed = λ z. v.noticed (omega (arith, total-append is_zombie s.children (alive ∷ [])));
}
Step-Inv {s} (installs l h e) v = record {
  careful = main-IsCareful v e;
  guarded = inr (or_true s.blocked);
  quiet = λ k. cc;
  noticed = v.noticed;
}
Step-Inv {s} (unblocks l h e) v = record {
  careful = (main-IsCareful v e).1;
  guarded = inr (main-IsCareful v e).0;
  quiet = v.quiet;
  noticed = v.noticed;
}
Step-Inv {s} (exits i e) v =
    raise-Inv (record s { children = set s.children i zombie }) v.careful
      (elim v.guarded [ inl none ↦ absurd (some_child s.children i e none) | inr w ↦ w ]) v.quiet
Step-Inv {s} (delivers p b h) v = elim v.guarded [
  | inl none ↦ raise_childless-Inv s v.careful none v.quiet
  | inr w ↦ raise-Inv s v.careful w v.quiet
]
Step-Inv {s} (collects i h e) v = record {
  careful = v.careful;
  guarded = elim v.guarded [ inl none ↦ absurd (some_child s.children i e none) | inr w ↦ inr w ];
  quiet = v.quiet;
  noticed = λ z. inr h;
}
Step-Inv {s} (finds_none h none) v = record {
  careful = v.careful;
  guarded = v.guarded;
  quiet = λ k. cc (v.quiet k);
  noticed = λ z. absurd (omega (arith, no_zombie s.children none));
}
Step-Inv {s} (returns h) v = record {
  careful = v.careful;
  guarded = v.guarded;
  quiet = λ k. refl;
  noticed =
      λ z. elim (v.noticed z) [ inl p ↦ inl p | inr w ↦ absurd (waiting≢returning (sym w ∙ h)) ];
}

Reach-Inv : {s t : Family} → Inv s → Reach s t → Inv t
Reach-Inv v here = v
Reach-Inv v (next r st) = Step-Inv st (Reach-Inv v r)

-- No child that has exited is overlooked by signal/recovery.cpp: in every reachable state, for any
-- number of children, while one is dead and not waited for, SIGCHLD is pending or the handler is
-- at its call of `waitpid`; and once `main` has come to its endless loop, nothing is blocked and
-- the handler is set, so that a pending signal is delivered.
pub no_child_overlooked :
    (n : ℕ) {s : Family}
    → Reach (start (recovery n)) s
    → ((zombies s ≡ 0) ⊎ (s.pending ≡ true) ⊎ (s.handler ≡ waiting))
      × ((s.todo ≢ []) ⊎ ((s.blocked ≡ false) × (s.installed ≡ true)))
no_child_overlooked n {s} r =
    let v =
      Reach-Inv
        (record {
          careful = forks-IsCareful n;
          guarded = inl refl;
          quiet = λ e. refl;
          noticed = λ z. absurd (omega arith);
        })
        r in
    (
      elim (dec_lt 0 (zombies s)) [
        | yes some_ ↦ inr (v.noticed some_)
        | no none_ ↦ inl (omega arith)
      ],
      at_end s.todo s.blocked s.installed v.careful,
    )
  where
    at_end :
        (l : List Action) (b i : Bool) → IsCareful l b i → (l ≢ []) ⊎ ((b ≡ false) × (i ≡ true))
    at_end [] b i c = inr c
    at_end (a ∷ l) b i c = inl (λ e. cc)
