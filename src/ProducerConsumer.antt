-- ===== src/ProducerConsumer.antt =====
-- thread/P_C_Model/Signal_type.cpp: one producer and one consumer share a linked list, which the
-- lock guards. A step is one passage through the lock, or what happens outside it.
pub mod Exchange
mod Tests
use codespaces_blank.Prelude.{ℕ, ◌+◌, ◌≡◌, List, [], ◌∷◌, ◌++◌}

-- Where the thread in `producer` stands: before its lock, or before its signal.
pub data Producer : Type 0 where
  making signalling : Producer

-- Where the thread in `consumer` stands: before its lock, in `pthread_cond_wait`, about to return
-- from there, or behind the unlocking with the node that it took off.
pub data Consumer : Type 0 where
  ready waiting woken : Consumer
  holding : ℕ → Consumer

-- The list at `head` with the data of its nodes, `cnt`, the threads, and what was printed.
pub record Shop : Type 0 where
  pub head : List ℕ
  pub cnt : ℕ
  pub producer : Producer
  pub consumer : Consumer
  pub printed : List ℕ

-- `producer` in its lock: the new node is in front.
pub push : Shop → Shop
push s = record s { head = s.cnt ∷ s.head; cnt = s.cnt + 1; producer = signalling }

-- `consumer` in its lock, from the test of the inner `while`.
pub take_head : Shop → List ℕ → Shop
take_head s [] = record s { consumer = waiting }
take_head s (x ∷ l) = record s { head = l; consumer = holding x }

-- `pthread_cond_signal(&has_product)`
pub wake : Consumer → Consumer
wake waiting = woken
wake c = c

pub data Step (s : Shop) : Shop → Type 0 where
  produce : s.producer ≡ making → Step s (push s)
  signal :
      s.producer ≡ signalling → Step s (record s { producer = making; consumer = wake s.consumer })
  lock : s.consumer ≡ ready → Step s (take_head s s.head)
  relock : s.consumer ≡ woken → Step s (take_head s s.head)
  spurious : s.consumer ≡ waiting → Step s (record s { consumer = woken })
  print :
      (x : ℕ)
      → s.consumer ≡ holding x
      → Step s (record s { consumer = ready; printed = s.printed ++ (x ∷ []) })

abbrev pub opening : Shop
opening = record { head = []; cnt = 0; producer = making; consumer = ready; printed = [] }

pub data Reach (s : Shop) : Shop → Type 0 where
  here : Reach s s
  next : {t u : Shop} → Reach s t → Step t u → Reach s u
