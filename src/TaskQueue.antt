-- ===== src/TaskQueue.antt =====
-- What the pools of the repository promise to their callers, `threadpool_add` of
-- socket/thread_Pool/main.cpp and `enqueue` of ThreadPool.h under socket/thread_Pool, as an
-- interface; and a caller that posts some tasks while the workers take them.
pub mod Posted
use codespaces_blank.Prelude.{
  ℕ, ◌≡◌, ◌≢◌, refl, sym, ap, ◌∙◌, List, [], ◌∷◌, ◌++◌, append_assoc, Option, none, some,
}

-- How a call of `add` ends: the caller waits, is turned away, or has posted the task.
pub data Posting (S : Type 0) : Type 0 where
  blocks : Posting S
  refuses : Posting S
  accepts : S → Posting S

-- The operations. `take` gives none where the worker has to wait or ends.
pub record Operations (S T : Type 0) : Type 0 where
  pub add : T → S → Posting S
  pub take : S → Option (T × S)

-- A queue of tasks, and what holds while it is not shut down.
pub record TaskQueue (T : Type 0) : Type 1 where
  pub State : Type 0
  pub IsOpen : State → Type 0
  pub pending : State → List T
  pub operations : Operations State T
  pub add-accepts :
      (s : State) (t : T) {u : State}
      → IsOpen s
      → operations.add t s ≡ accepts u
      → IsOpen u × (pending u ≡ pending s ++ (t ∷ []))
  pub add-refuses : (s : State) (t : T) → IsOpen s → operations.add t s ≢ refuses
  pub add-blocks : (s : State) (t : T) → IsOpen s → operations.add t s ≡ blocks → pending s ≢ []
  pub take-some :
      (s : State) {t : T} {u : State}
      → IsOpen s
      → operations.take s ≡ some (t, u)
      → IsOpen u × (pending s ≡ t ∷ pending u)
  pub take-none : (s : State) → IsOpen s → operations.take s ≡ none → pending s ≡ []

-- Who gets the lock next.
pub data Turn : Type 0 where
  caller : Turn
  worker : Turn

-- The queue, what the caller has still to post, and what the workers have taken.
pub record Log (S T : Type 0) : Type 0 where
  pub state : S
  pub left : List T
  pub taken : List T

module _ {S T : Type 0} (o : Operations S T) where
  pub after_add : Posting S → List T → Log S T → Log S T
  after_add blocks ts l = l
  after_add refuses ts l = record l { left = ts }
  after_add (accepts s) ts l = record l { state = s; left = ts }

  pub after_take : Option (T × S) → Log S T → Log S T
  after_take none l = l
  after_take (some (t, s)) l = record l { state = s; taken = l.taken ++ (t ∷ []) }

  pub post : List T → Log S T → Log S T
  post [] l = l
  post (t ∷ ts) l = after_add (o.add t l.state) ts l

  pub turn : Turn → Log S T → Log S T
  turn caller l = post l.left l
  turn worker l = after_take (o.take l.state) l

  pub run : List Turn → Log S T → Log S T
  run [] l = l
  run (u ∷ us) l = run us (turn u l)

  -- Where no task fits and none waits, nothing happens.
  pub run-stalled :
      (us : List Turn) (l : Log S T)
      → ((t : T) → o.add t l.state ≡ blocks)
      → o.take l.state ≡ none
      → run us l ≡ l
  unfolding run turn post after_add after_take
  run-stalled [] l full idle = refl
  run-stalled (caller ∷ us) l full idle = ap (run us) (posts l.left) ∙ run-stalled us l full idle
    where
      posts : (ts : List T) → post ts l ≡ l
      posts [] = refl
      posts (t ∷ ts) = ap (λ r. after_add r ts l) (full t)
  run-stalled (worker ∷ us) l full idle = ap (run us) (takes idle) ∙ run-stalled us l full idle
    where
      takes : o.take l.state ≡ none → after_take (o.take l.state) l ≡ l
      takes e = ap (λ r. after_take r l) e

module _ {T : Type 0} (Q : TaskQueue T) where
  open Q use {State, IsOpen, pending, operations}

  -- What was taken, then what waits, then what is still to be posted.
  abbrev pub in_order : Log State T → List T
  in_order l = l.taken ++ (pending l.state ++ l.left)

  -- A log that follows on another.
  pub record Follows (l m : Log State T) : Type 0 where
    pub open_ : IsOpen m.state
    pub same_tasks : in_order m ≡ in_order l

  after_add-Follows :
      (r : Posting State) (t : T) (ts : List T) (l : Log State T)
      → operations.add t l.state ≡ r
      → l.left ≡ t ∷ ts
      → IsOpen l.state
      → Follows l (after_add operations r ts l)
  unfolding after_add
  after_add-Follows blocks t ts l e f o = record { open_ = o; same_tasks = refl }
  after_add-Follows refuses t ts l e f o = absurd (Q.add-refuses l.state t o e)
  after_add-Follows (accepts s) t ts l e f o = record {
    open_ = (Q.add-accepts l.state t o e).0;
    same_tasks =
        ap (λ k. l.taken ++ k)
          (ap (λ k. k ++ ts) (Q.add-accepts l.state t o e).1
            ∙ append_assoc (pending l.state) (t ∷ []) ts
            ∙ ap (λ k. pending l.state ++ k) (sym f));
  }

  after_take-Follows :
      (r : Option (T × State)) (l : Log State T)
      → operations.take l.state ≡ r
      → IsOpen l.state
      → Follows l (after_take operations r l)
  unfolding after_take
  after_take-Follows none l e o = record { open_ = o; same_tasks = refl }
  after_take-Follows (some (t, s)) l e o = record {
    open_ = (Q.take-some l.state o e).0;
    same_tasks =
        append_assoc l.taken (t ∷ []) (pending s ++ l.left)
        ∙ ap (λ k. l.taken ++ (k ++ l.left)) (sym (Q.take-some l.state o e).1);
  }

  post-Follows :
      (ts : List T) (l : Log State T)
      → l.left ≡ ts
      → IsOpen l.state
      → Follows l (post operations ts l)
  unfolding post
  post-Follows [] l f o = record { open_ = o; same_tasks = refl }
  post-Follows (t ∷ ts) l f o = after_add-Follows (operations.add t l.state) t ts l refl f o

  pub turn-Follows : (u : Turn) (l : Log State T) → IsOpen l.state → Follows l (turn operations u l)
  unfolding turn
  turn-Follows caller l o = post-Follows l.left l refl o
  turn-Follows worker l o = after_take-Follows (operations.take l.state) l refl o

  -- Whoever gets the lock, and however often, no task is lost, doubled or overtaken.
  pub run-Follows :
      (us : List Turn) (l : Log State T) → IsOpen l.state → Follows l (run operations us l)
  unfolding run
  run-Follows [] l o = record { open_ = o; same_tasks = refl }
  run-Follows (u ∷ us) l o =
      let a = turn-Follows u l o in
      let b = run-Follows us (turn operations u l) a.open_ in
      record { open_ = b.open_; same_tasks = b.same_tasks ∙ a.same_tasks }
