-- ===== src/ProducerConsumer/Tests.antt =====
-- The first exchange of thread/P_C_Model/Signal_type.cpp.
use codespaces_blank.Prelude.{ℕ, ◌+◌, ◌≡◌, ◌≢◌, refl, [], ◌∷◌, total}
use codespaces_blank.ProducerConsumer.{
  signalling, waiting, Shop, push, take_head, wake, produce, signal, lock, print, opening, Reach,
  here, next,
}
use codespaces_blank.ProducerConsumer.Exchange.{is, holds, made, each_product_once}

-- Two products are made, and the second is consumed.
abbrev second_first : Shop
second_first = record opening { head = 0 ∷ []; cnt = 2; producer = signalling; printed = 1 ∷ [] }

Reach-second_first : Reach opening second_first
unfolding push take_head wake
Reach-second_first =
    next (next (next (next (next here (produce refl)) (signal refl)) (produce refl)) (lock refl))
      (print 1 refl)

each_product_once_example :
    ((x : ℕ)
      → total (is x) second_first.head
          + holds x second_first.consumer
          + total (is x) second_first.printed
        ≡ made x second_first.cnt)
    × (second_first.consumer ≡ waiting
        → second_first.head ≢ []
        → second_first.producer ≡ signalling)
each_product_once_example = each_product_once Reach-second_first
