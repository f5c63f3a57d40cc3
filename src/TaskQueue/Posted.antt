-- ===== src/TaskQueue/Posted.antt =====
-- A caller of a queue of tasks gets all its tasks posted, if the workers get their turns.
use codespaces_blank.Prelude.{◌≡◌, refl, sym, subst, ◌∙◌, List, [], ◌∷◌, ◌++◌, Option, none, some}
use codespaces_blank.TaskQueue.{
  Posting, blocks, refuses, accepts, TaskQueue, Turn, caller, worker, Log, after_add, after_take,
  post, turn, run,
}

module _ {T : Type 0} (Q : TaskQueue T) where
  open Q use {State, IsOpen, pending, operations}

  -- Some turns after which all is posted.
  abbrev pub Ends : Log State T → Type 0
  Ends l = (us : List Turn) × ((run operations us l).left ≡ [])

  turn-Ends : (l : Log State T) (u : Turn) → Ends (turn operations u l) → Ends l
  unfolding run
  turn-Ends l u (us, e) = (u ∷ us, e)

  turn-accepts :
      (l : Log State T) {t : T} {ts : List T} {s : State}
      → l.left ≡ t ∷ ts
      → operations.add t l.state ≡ accepts s
      → turn operations caller l ≡ record l { state = s; left = ts }
  unfolding turn post after_add
  turn-accepts l f e = rw (f, e) refl

  turn-takes :
      (l : Log State T) {t : T} {s : State}
      → operations.take l.state ≡ some (t, s)
      → turn operations worker l ≡ record l { state = s; taken = l.taken ++ (t ∷ []) }
  unfolding turn after_take
  turn-takes l e = rw e refl

  -- A worker has taken a task that waited.
  record Roomier (l m : Log State T) (ps : List T) : Type 0 where
    by_worker : turn operations worker l ≡ m
    same_left : m.left ≡ l.left
    open_ : IsOpen m.state
    fewer : pending m.state ≡ ps

  makes_room :
      {x : T} {ps : List T} (l : Log State T) (r : Option (T × State))
      → operations.take l.state ≡ r
      → IsOpen l.state
      → pending l.state ≡ x ∷ ps
      → (m : Log State T) × Roomier l m ps
  makes_room l none e o p = absurd (cc (Q.take-none l.state o e))
  makes_room l (some (t, s)) e o p = (
    record l { state = s; taken = l.taken ++ (t ∷ []) },
    record {
      by_worker = turn-takes l e;
      same_left = refl;
      open_ = (Q.take-some l.state o e).0;
      fewer = cc (Q.take-some l.state o e).1;
    },
  )

  -- The head of what is left is posted: if it has to wait, the workers make room.
  first :
      (ps : List T) {t : T} {ts : List T} (l : Log State T) (r : Posting State)
      → l.left ≡ t ∷ ts
      → IsOpen l.state
      → pending l.state ≡ ps
      → operations.add t l.state ≡ r
      → ((m : Log State T) → m.left ≡ ts → IsOpen m.state → Ends m)
      → Ends l
  first ps {t} l refuses f o p e k = absurd (Q.add-refuses l.state t o e)
  first ps {t} l (accepts s) f o p e k =
      turn-Ends l caller
        (subst Ends (sym (turn-accepts l f e)) (k _ refl (Q.add-accepts l.state t o e).0))
  first [] {t} l blocks f o p e k = absurd (Q.add-blocks l.state t o e p)
  first (x ∷ ps) {t} l blocks f o p e k =
      let (m, a) = makes_room l (operations.take l.state) refl o p in
      turn-Ends l worker (
        subst Ends (sym a.by_worker)
          (first ps m (operations.add t m.state) (a.same_left ∙ f) a.open_ a.fewer refl k))

  pub all-posted : (ts : List T) (l : Log State T) → l.left ≡ ts → IsOpen l.state → Ends l
  unfolding run
  all-posted [] l f o = ([], f)
  all-posted (t ∷ ts) l f o =
      first (pending l.state) l (operations.add t l.state) f o refl refl (all-posted ts)
