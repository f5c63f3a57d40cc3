-- ===== src/EpollServer/Posts.antt =====
-- `EventLoop` of socket/Server/Reactor.cpp together with the pool that it hands its events to.
use codespaces_blank.Prelude.{
  ℕ, ◌≡◌, ◌≢◌, ◌≤◌, refl, ap, ap₂, ◌∙◌, Bool, ◌&&◌, List, [], ◌∷◌, ◌++◌, arith, if◌then◌else◌, ◌==◌,
}
use codespaces_blank.Reactor.{max_events, Callback, Event, Server, event}
use codespaces_blank.Reactor.Table.{IsTable}
use codespaces_blank.EpollServer.{Job, queued, called, ReadyEvent, reads, read_event, event_loop}
use codespaces_blank.EpollServer.Loop.{
  overwritten, AllSlots, NoneWritable, write_event_idle, read_event-event, read_event-IsTable,
}
use codespaces_blank.TaskQueue.{TaskQueue, Turn, Log, run, run-Follows}
use codespaces_blank.TaskQueue.Posted.{all-posted}

-- What the loop never writes.
pub record SameCalls (s t : Server) : Type 0 where
  calls : (i : ℕ) → (event t i).call_back ≡ (event s i).call_back
  args : (i : ℕ) → (event t i).arg ≡ (event s i).arg
  interests : (i : ℕ) → (event t i).events ≡ (event s i).events

overwritten-calls :
    (lfd : ℕ) (b : Bool) (e : Event)
    → ((overwritten lfd b e).call_back ≡ e.call_back)
      × ((overwritten lfd b e).arg ≡ e.arg)
      × ((overwritten lfd b e).events ≡ e.events)
overwritten-calls lfd b e = ground arith

-- Where each event of one table is that of the other, with another descriptor perhaps.
overwritten-SameCalls :
    (lfd : ℕ) (b : ℕ → Bool) (s t : Server)
    → ((i : ℕ) → event t i ≡ overwritten lfd (b i) (event s i))
    → SameCalls s t
overwritten-SameCalls lfd b s t h = record {
  calls = λ i. ap (λ e. e.call_back) (h i) ∙ (overwritten-calls lfd (b i) (event s i)).0;
  args = λ i. ap (λ e. e.arg) (h i) ∙ (overwritten-calls lfd (b i) (event s i)).1;
  interests = λ i. ap (λ e. e.events) (h i) ∙ (overwritten-calls lfd (b i) (event s i)).2;
}

read_event-SameCalls :
    (lfd : ℕ) (r : ReadyEvent) (s : Server)
    → IsTable s
    → r.slot ≤ max_events
    → SameCalls s (read_event lfd r s).0
read_event-SameCalls lfd r s v h =
    overwritten-SameCalls lfd (λ i. (r.slot == i) && r.readable) s (read_event lfd r s).0
      (λ i. read_event-event lfd i r s v h)

-- `task` makes a task of a callback, of which the code has the address, and its argument.
module _ {T : Type 0} (task : Callback → ℕ → T) where
  -- `pool->addTask(ev->call_back, ev->arg)`
  abbrev pub post_task : Server → ℕ → T
  post_task s i = task (event s i).call_back (event s i).arg

  abbrev pub posts : List Job → List T
  posts [] = []
  posts (queued c a ∷ jobs) = task c a ∷ posts jobs
  posts (called i fd ∷ jobs) = posts jobs

  -- The tasks of the events that are ready and watched for reading, in their order.
  abbrev pub wanted : Server → List ReadyEvent → List T
  wanted s [] = []
  wanted s (r ∷ rs) = if reads r s then post_task s r.slot ∷ wanted s rs else wanted s rs

  posts-append : (js ks : List Job) → posts (js ++ ks) ≡ posts js ++ posts ks
  posts-append [] ks = refl
  posts-append (queued c a ∷ js) ks = ap (λ k. task c a ∷ k) (posts-append js ks)
  posts-append (called i fd ∷ js) ks = posts-append js ks

  wanted-SameCalls :
      {s t : Server} (rs : List ReadyEvent) → SameCalls s t → wanted t rs ≡ wanted s rs
  wanted-SameCalls [] a = refl
  wanted-SameCalls (r ∷ rs) a =
      rw (wanted-SameCalls rs a, a.calls r.slot, a.args r.slot, a.interests r.slot) refl

  posts-read_event :
      (lfd : ℕ) (r : ReadyEvent) (s : Server)
      → lfd ≢ 0
      → posts (read_event lfd r s).1 ≡ (if reads r s then post_task s r.slot ∷ [] else [])
  unfolding read_event
  posts-read_event lfd r s h = ground arith

  pub posts-event_loop :
      (work : (slot fd : ℕ) → Server → Server) (lfd : ℕ) (rs : List ReadyEvent) (s : Server)
      → lfd ≢ 0
      → IsTable s
      → AllSlots rs
      → NoneWritable rs
      → posts (event_loop work lfd rs s).1 ≡ wanted s rs
  unfolding event_loop
  posts-event_loop work lfd [] s h v a none = refl
  posts-event_loop work lfd (r ∷ rs) s h v a none =
      let u = (read_event lfd r s).0 in
      let same = read_event-SameCalls lfd r s v a.0 in
      let rest = posts-event_loop work lfd rs u h (read_event-IsTable lfd r s v) a.1 none.1 in
      rw (write_event_idle work r u none.0) (
        posts-append (read_event lfd r s).1 (event_loop work lfd rs u).1
        ∙ ap₂ ◌++◌ (posts-read_event lfd r s h) (rest ∙ wanted-SameCalls rs same)
        ∙ headed (reads r s) (post_task s r.slot) (wanted s rs))
    where
      headed :
          (b : Bool) (x : T) (xs : List T)
          → (if b then x ∷ [] else []) ++ xs ≡ (if b then x ∷ xs else xs)
      headed b x xs = ground arith

  -- The log where a round of the loop begins to post.
  abbrev pub first_log :
      {S : Type 0} (work : (slot fd : ℕ) → Server → Server) (lfd : ℕ)
      → List ReadyEvent
      → Server
      → S
      → Log S T
  first_log work lfd rs s q = record {
    state = q;
    left = posts (event_loop work lfd rs s).1;
    taken = [];
  }

  -- In a round of the event loop over slots of its table, none of them ready for writing, where `lfd`
  -- is not 0 and the queue of the pool is open: whatever turns the loop and the workers take at the
  -- lock, while nobody shuts the pool down and no task changes the table, the tasks that the workers
  -- took, then those that wait, then those that the loop has still to post are those that waited
  -- before the round, and behind them one for each event that was ready and watched for reading, in
  -- the order of `events`; and with some turns after that all are posted.
  pub round_reaches_pool :
      (Q : TaskQueue T) (work : (slot fd : ℕ) → Server → Server) (lfd : ℕ) (rs : List ReadyEvent)
      (s : Server) (q : Q.State)
      → lfd ≢ 0
      → IsTable s
      → AllSlots rs
      → NoneWritable rs
      → Q.IsOpen q
      → (us : List Turn)
      → let l = run Q.operations us (first_log work lfd rs s q) in
        (l.taken ++ (Q.pending l.state ++ l.left) ≡ Q.pending q ++ wanted s rs)
        × ((vs : List Turn) × ((run Q.operations vs l).left ≡ []))
  round_reaches_pool Q work lfd rs s q h v a none o us =
      let f = run-Follows Q us (first_log work lfd rs s q) o in
      (
        f.same_tasks ∙ ap (λ k. Q.pending q ++ k) (posts-event_loop work lfd rs s h v a none),
        all-posted Q (run Q.operations us (first_log work lfd rs s q)).left
            (run Q.operations us (first_log work lfd rs s q)) refl f.open_,
      )
