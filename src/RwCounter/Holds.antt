-- ===== src/RwCounter/Holds.antt =====
-- The threads of lock/rwlock.cpp let go of their lock.
use codespaces_blank.Prelude.{
  ℕ, zero, suc, ◌+◌, ◌≤◌, ◌<◌, ◌≡◌, refl, ap, ◌∙◌, [], ◌∷◌, some, arith, get_elem?, set, length,
  length-append, total, total-set, some_of_total, dec_lt, get_elem?-set_within,
}
use codespaces_blank.RwCounter.{
  Thread, idle, counted, writing, increased, wrote, resting, reading, fetched, showed, written,
  shown, Shared, Step, increases, writes, write_unlocks, fetches, shows, read_unlocks, Reach, here,
  next,
}
use codespaces_blank.RwCounter.Locks.{Inv}
use codespaces_blank.RwCounter.Lines.{step-Inv}

-- The steps of a thread to the end of its hold on the lock.
abbrev pub to_unlock : Thread → ℕ
to_unlock (writing t) = 3
to_unlock (increased t c) = 2
to_unlock wrote = 1
to_unlock reading = 3
to_unlock (fetched c) = 2
to_unlock showed = 1
to_unlock _ = 0

-- A step of thread `j`, which stands at `a`, towards the end of its hold.
record Nearer (s : Shared) (j : ℕ) (a : Thread) : Type 0 where
  then : Shared
  step : Step s then
  end : Thread
  becomes : then.threads ≡ set s.threads j end
  less : to_unlock a ≡ to_unlock end + 1
  kept : length s.lines ≤ length then.lines

comes-Nearer :
    (s : Shared) (j : ℕ) (a : Thread)
    → get_elem? s.threads j ≡ some a
    → 0 < to_unlock a
    → Nearer s j a
comes-Nearer s j (writing t) e h = record {
  then = _;
  step = increases j t e;
  end = increased t (s.count + 1);
  becomes = refl;
  less = omega arith;
  kept = omega arith;
}
comes-Nearer s j (increased t c) e h = record {
  then = _;
  step = writes j t c e;
  end = wrote;
  becomes = refl;
  less = omega arith;
  kept = omega (arith, length-append s.lines (written t c ∷ []));
}
comes-Nearer s j wrote e h = record {
  then = _;
  step = write_unlocks j e;
  end = idle;
  becomes = refl;
  less = omega arith;
  kept = omega arith;
}
comes-Nearer s j reading e h = record {
  then = _;
  step = fetches j e;
  end = fetched s.count;
  becomes = refl;
  less = omega arith;
  kept = omega arith;
}
comes-Nearer s j (fetched c) e h = record {
  then = _;
  step = shows j c e;
  end = showed;
  becomes = refl;
  less = omega arith;
  kept = omega (arith, length-append s.lines (shown c ∷ []));
}
comes-Nearer s j showed e h = record {
  then = _;
  step = read_unlocks j e;
  end = resting;
  becomes = refl;
  less = omega arith;
  kept = omega arith;
}
comes-Nearer s j idle e h = absurd (omega arith)
comes-Nearer s j (counted t) e h = absurd (omega arith)
comes-Nearer s j resting e h = absurd (omega arith)

pub Reach-trans : {s t u : Shared} → Reach s t → Reach t u → Reach s u
Reach-trans a here = a
Reach-trans a (next b st) = next (Reach-trans a b) st

-- A state after `s` in which thread `i` stands somewhere and nobody holds the lock.
pub record Cleared (s : Shared) (i : ℕ) : Type 0 where
  pub then : Shared
  pub reach : Reach s then
  pub inv : Inv then
  pub place : Thread
  pub there : get_elem? then.threads i ≡ some place
  pub nobody : total to_unlock then.threads ≡ 0
  pub kept : length s.lines ≤ length then.lines

Cleared-now :
    (s : Shared) (i : ℕ) (w : Thread)
    → Inv s
    → get_elem? s.threads i ≡ some w
    → total to_unlock s.threads ≡ 0
    → Cleared s i
Cleared-now s i w v e h = record {
  then = s;
  reach = here;
  inv = v;
  place = w;
  there = e;
  nobody = h;
  kept = omega arith;
}

after_step :
    {s t : Shared} (i : ℕ) → Step s t → length s.lines ≤ length t.lines → Cleared t i → Cleared s i
after_step i st h c = record {
  then = c.then;
  reach = Reach-trans (next here st) c.reach;
  inv = c.inv;
  place = c.place;
  there = c.there;
  nobody = c.nobody;
  kept = omega (arith, h, c.kept);
}

pub clear :
    (n : ℕ) (s : Shared) (i : ℕ) (w : Thread)
    → Inv s
    → get_elem? s.threads i ≡ some w
    → total to_unlock s.threads ≤ n
    → Cleared s i
clear zero s i w v e h = Cleared-now s i w v e (omega arith)
clear (suc n) s i w v e h = elim (dec_lt 0 (total to_unlock s.threads)) [
  | no over ↦ Cleared-now s i w v e (omega arith)
  | yes more ↦
      let (j, a, at_j, p) = some_of_total to_unlock s.threads more in
      let m = comes-Nearer s j a at_j p in
      let (c, still) = get_elem?-set_within s.threads i j m.end e in
      after_step i m.step m.kept (
        clear n m.then i c (step-Inv v m.step) (ap (λ ts. get_elem? ts i) m.becomes ∙ still) (
          omega (
            arith,
            h,
            m.less,
            ap (total to_unlock) m.becomes,
            total-set to_unlock s.threads j m.end at_j,
          )))
]
