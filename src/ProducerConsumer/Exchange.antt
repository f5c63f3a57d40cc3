-- ===== src/ProducerConsumer/Exchange.antt =====
-- Every product of thread/P_C_Model/Signal_type.cpp is consumed at most once, and none waits unseen.
use codespaces_blank.Prelude.{
  ℕ, ◌+◌, ◌≡◌, ◌≢◌, refl, ap, List, [], ◌∷◌, arith, ltb, ◌==◌, if◌then◌else◌, total, total-append,
}
use codespaces_blank.ProducerConsumer.{
  signalling, Consumer, waiting, holding, Shop, push, take_head, wake, Step, produce, signal, lock,
  relock, spurious, print, opening, Reach, here, next,
}

abbrev pub is : ℕ → ℕ → ℕ
is x y = if y == x then 1 else 0

-- How often the consumer has `x` in its hands.
abbrev pub holds : ℕ → Consumer → ℕ
holds x (holding y) = is x y
holds x _ = 0

abbrev pub made : ℕ → ℕ → ℕ
made x cnt = if ltb x cnt then 1 else 0

record Inv (s : Shop) : Type 0 where
  whole : (x : ℕ) → total (is x) s.head + holds x s.consumer + total (is x) s.printed ≡ made x s.cnt
  seen : s.consumer ≡ waiting → s.head ≢ [] → s.producer ≡ signalling

made-suc : (x cnt : ℕ) → made x (cnt + 1) ≡ made x cnt + is x cnt
made-suc x cnt = ground arith

push-Inv : (s : Shop) → Inv s → Inv (push s)
unfolding push
push-Inv s v = record {
  whole = λ x. omega (arith, v.whole x, made-suc x s.cnt);
  seen = λ a b. refl;
}

take-Inv :
    (s : Shop) (l : List ℕ)
    → s.head ≡ l
    → ((x : ℕ) → holds x s.consumer ≡ 0)
    → Inv s
    → Inv (take_head s l)
unfolding take_head
take-Inv s [] e h v = record {
  whole = λ x. omega (arith, v.whole x, h x);
  seen = λ a b. absurd (b e);
}
take-Inv s (y ∷ l) e h v = record {
  whole = λ x. omega (arith, v.whole x, h x, ap (total (is x)) e);
  seen = λ a b. cc;
}

wake-holds : (x : ℕ) (c : Consumer) → holds x (wake c) ≡ holds x c
unfolding wake
wake-holds x c = ground arith

wake-waiting : (c : Consumer) → wake c ≢ waiting
unfolding wake
wake-waiting c = ground arith

Step-Inv : {s t : Shop} → Step s t → Inv s → Inv t
Step-Inv {s} (produce e) v = push-Inv s v
Step-Inv {s} (signal e) v = record {
  whole = λ x. omega (arith, v.whole x, wake-holds x s.consumer);
  seen = λ a b. absurd (wake-waiting s.consumer a);
}
Step-Inv {s} (lock e) v = take-Inv s s.head refl (λ x. ap (holds x) e) v
Step-Inv {s} (relock e) v = take-Inv s s.head refl (λ x. ap (holds x) e) v
Step-Inv {s} (spurious e) v = record {
  whole = λ x. omega (arith, v.whole x, ap (holds x) e);
  seen = λ a b. cc;
}
Step-Inv {s} (print y e) v = record {
  whole = λ x. omega (arith, v.whole x, ap (holds x) e, total-append (is x) s.printed (y ∷ []));
  seen = λ a b. cc;
}

opening-Inv : Inv opening
opening-Inv = record { whole = λ x. ground arith; seen = λ a b. absurd (b refl) }

Reach-Inv : {s : Shop} → Reach opening s → Inv s
Reach-Inv here = opening-Inv
Reach-Inv (next r st) = Step-Inv st (Reach-Inv r)

-- In every reachable state each number below `cnt` is in the list, in the consumer's hands or
-- printed, in exactly one of these places and once, and no other number is; and the consumer never
-- waits beside a list that is not empty, unless the producer is about to signal.
pub each_product_once :
    {s : Shop}
    → Reach opening s
    → ((x : ℕ) → total (is x) s.head + holds x s.consumer + total (is x) s.printed ≡ made x s.cnt)
      × (s.consumer ≡ waiting → s.head ≢ [] → s.producer ≡ signalling)
each_product_once r = let v = Reach-Inv r in (v.whole, v.seen)
