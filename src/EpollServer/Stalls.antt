-- ===== src/EpollServer/Stalls.antt =====
-- `EventLoop` of socket/Server/Reactor.cpp with the pool of socket/Server/ThreadPoll.cpp as that is set
-- up.
use codespaces_blank.Prelude.{ℕ, ◌≡◌, ◌≢◌, ap, ◌∙◌, true, false, List, []}
use codespaces_blank.Reactor.{Callback, Server}
use codespaces_blank.Reactor.Table.{IsTable}
use codespaces_blank.EpollServer.{ReadyEvent}
use codespaces_blank.EpollServer.Loop.{AllSlots, NoneWritable}
use codespaces_blank.EpollServer.Posts.{wanted, first_log, posts-event_loop}
use codespaces_blank.PosixPool.{Task, Pool}
use codespaces_blank.PosixPool.Queue.{posix_operations, empty-stalled}
use codespaces_blank.PosixPool.System.{System, Reach}
use codespaces_blank.ServerPool.{Calls, thread_pool_init, started, started-IsStuck}
use codespaces_blank.TaskQueue.{Turn, run, run-stalled}

-- No event reaches the server's own pool: on a pool object whose memory was zero, where
-- `ThreadPoolInit` returns true, whatever its threads have done and while it is not shut down, in a
-- round of the event loop over slots of its table, none of them ready for writing, with `lfd` not 0:
-- whatever turns the loop and the workers take, no task is taken, and the loop has still to post one
-- for each event that was ready and watched for reading.
pub server_stalls :
    (task : Callback → ℕ → Task) (work : (slot fd : ℕ) → Server → Server) (c : Calls) (p : Pool)
    → p.queue_max_size ≡ 0
    → (thread_pool_init c p).0 ≡ true
    → {s : System} → Reach (started c p) s
    → s.pool.shutdown ≡ false
    → (lfd : ℕ) (rs : List ReadyEvent) (server : Server) → lfd ≢ 0
    → IsTable server
    → AllSlots rs
    → NoneWritable rs
    → (us : List Turn)
    → let l = run posix_operations us (first_log task work lfd rs server s.pool) in
      (l.taken ≡ []) × (l.left ≡ wanted task server rs)
server_stalls task work c p h ok {s} r o lfd rs server f v a none us =
    let (full, idle) = empty-stalled s.pool (started-IsStuck c p h r).none_fits o in
    let same =
      run-stalled posix_operations us (first_log task work lfd rs server s.pool) full idle in
    (
      ap (λ l. l.taken) same,
      ap (λ l. l.left) same ∙ posts-event_loop task work lfd rs server f v a none,
    )
