-- ===== src/EpollServer/Tests.antt =====
-- A packet of three bytes through the tasks of socket/Server/Reactor.cpp, and a round of its loop.
use codespaces_blank.Prelude.{
  ℕ, ◌+◌, ◌≡◌, refl, replicate, true, false, List, [], ◌∷◌, ◌++◌, some, arith,
}
use codespaces_blank.Reactor.{Callback, recvdata, Server, put}
use codespaces_blank.Reactor.Fresh.{fresh, fresh-IsTable}
use codespaces_blank.Reactor.Table.{IsTable, put-IsTable, length-blank}
use codespaces_blank.Reactor.Accept.{connected}
use codespaces_blank.PosixPool.{Task, no_task, Pool}
use codespaces_blank.PosixPool.System.{System, here, next, go_on, asleep}
use codespaces_blank.ServerPool.{Calls, thread_pool_init, assigned, started}
use codespaces_blank.EpollServer.Stalls.{server_stalls}
use codespaces_blank.PosixPool.Queue.{posix_operations}
use codespaces_blank.TaskQueue.{caller, worker, run}
use codespaces_blank.EpollServer.Posts.{first_log, wanted}
use codespaces_blank.EpollServer.{DataBuffer, ReadyEvent, handed, recv_task, send_task}
use codespaces_blank.EpollServer.Packets.{size_bytes, packet_round_trip}

abbrev pieces : List (List ℕ)
pieces = (1 ∷ 2 ∷ []) ∷ (3 ∷ []) ∷ []

packet_round_trip_example :
    (d : DataBuffer) × (recv_task 9 (some (size_bytes 3)) (pieces ++ ((4 ∷ []) ∷ [])) ≡ handed d)
    × (send_task d ≡ (9, 1 ∷ 2 ∷ 3 ∷ []))
packet_round_trip_example = packet_round_trip 9 pieces ((4 ∷ []) ∷ []) (omega arith) (omega arith)

-- Slot 3 stands for a connection, watched for reading.
abbrev table : Server
table = put fresh 3 (connected 9 3 100)

table-IsTable : IsTable table
table-IsTable = put-IsTable 3 (connected 9 3 100) fresh-IsTable (length-blank, omega arith)

abbrev rounds : List ReadyEvent
rounds = record { slot = 3; readable = true; writable = false } ∷ []

abbrev task : Callback → ℕ → Task
task recvdata i = record { function = 7; arg = i + 1 }
task _ i = record { function = 8; arg = i + 1 }

-- The pool of the server on zeroed memory, and its manager asleep.
abbrev calls : Calls
calls = record {
  lock_init = 0;
  counter_init = 0;
  not_full_init = 0;
  not_empty_init = 0;
  tid = λ i. i + 100;
  starts = λ i. true;
  manager_tid = 99;
  queue_contents = λ n. replicate n no_task;
}

abbrev memory : Pool
memory = record {
  threads = [];
  adjust_tid = 0;
  task_queue = [];
  min_thr_num = 0;
  max_thr_num = 0;
  live_thr_num = 0;
  busy_thr_num = 0;
  wait_exit_thr_num = 0;
  queue_front = 0;
  queue_rear = 0;
  queue_size = 0;
  queue_max_size = 0;
  shutdown = false;
}

abbrev dozing : System
dozing = record (started calls memory) { manager = asleep }

-- What a callback does.
abbrev keeps : (slot fd : ℕ) → Server → Server
keeps slot fd s = s

server_stalls_example :
    let l =
      run posix_operations
        (worker ∷ caller ∷ [])
        (first_log task keeps 4 rounds table dozing.pool) in
    (l.taken ≡ []) × (l.left ≡ wanted task table rounds)
unfolding thread_pool_init assigned
server_stalls_example =
    server_stalls task keeps calls memory refl refl (next here (go_on refl refl)) refl 4 rounds
      table (omega arith) table-IsTable (omega arith, tt) (refl, tt) (worker ∷ caller ∷ [])
