-- ===== src/Lib.antt =====
-- The thread pools, the event-driven servers, and the programs on threads, signals and files of this
-- repository of C++ system programs, modelled as pure functions and as step relations.
--
-- The parts, the files that model them, and how state and operations correspond:
--
-- PosixPool (socket/thread_Pool/main.cpp; the same text is socket/Server/Thread.cpp): the pool on
-- POSIX threads. `Pool` is `threadpool_t` less its mutexes and condition variables, and each function
-- is the code that runs under one holding of a lock: `threadpool_add`, `worker_test` and `worker_wake`
-- (`threadpool_thread` from the test of its inner loop, and from the return of `pthread_cond_wait`),
-- `work_begins`, `work_ends`.
--   PosixPool/Valid: the representation invariant of the circular `task_queue`, and its bounds.
--   PosixPool/Fifo: the bounded queue that the pool promises, and the refinement.
--   PosixPool/Manager: `adjust_thread`, with `is_thread_alive`; the thread library is an argument.
--   PosixPool/Setup: `threadpool_create`, `threadpool_free`, `threadpool_destory`; whether the
--     allocations and initialisations succeed is an argument, and the calls are a list.
--   PosixPool/System: the interleaving of all threads. A step is one holding of a lock or one access
--     outside; a signal wakes one thread that waits, whichever, and `pthread_cond_wait` may return by
--     itself. The creation of a worker may fail, which the code does not notice; that of the manager is
--     taken to succeed. The broadcasts of `threadpool_destory` come behind the join of the manager.
--     `added` and `taken` are ghost records. Children: what a passage through the lock does
--     (Passage), the invariant of all reachable states (Sound, Invariant), what follows a shutdown
--     (Closed), who is awake (Wakeups), how a waiting task is taken (Progress), how manager and workers
--     come to their end (Leaving, Shutdown), a queue without slots (Stuck).
--   PosixPool/Queue: the pool as an implementation of TaskQueue.
--   PosixPool/Demo: `main` with the threads of its pool, as steps; PosixPool/Demo/Posts has what becomes
--     of its tasks.
--
-- ServerPool (socket/Server/ThreadPoll.cpp): the same pool as a class. Its `ThreadPoolInit` is modelled
-- here; `addTask`, `createThread` and `createManagerThread` have the text of the functions of
-- PosixPool, and are those.
--
-- TaskPool (ThreadPool.h under socket/thread_Pool): the pool on `std::thread`. `enqueue`, the workers'
-- lambda (`worker_pass`) and the destructor, as steps. Children: the invariant (Invariant), the order
-- of the tasks and what the destructor guarantees (Drain), and the pool as an implementation of
-- TaskQueue (Queue). A call of `notify_one` is a step of its own
-- behind the insertion.
--
-- TaskQueue: what both pools promise to their callers, as a record of operations (`Operations`) and one
-- of their laws (`TaskQueue`), and a caller that posts tasks while workers take them, by turns at the
-- lock. TaskQueue/Posted shows that it gets them posted.
--
-- Reactor (socket/epoll/Reactor/main.cpp; its text up to `main` is also in socket/Server/Reactor.cpp):
-- the echo server. `Server` is the table `gevents` with a log of the system calls that change
-- something; what a system call returns, and the time, are arguments. Children: the shape of the
-- table (Table), the zeroed one (Fresh), new connections (Accept), received bytes and the reply (Echo),
-- the timeout check and a turn of the main loop (Sweep), the registrations in `epoll` against the slots
-- that are on (Balance, and Registrations for the main loop, `serve`).
--
-- EpollServer (the class Epoll of socket/Server/Reactor.cpp): its event loop over the table of Reactor,
-- whose jobs go to the pool; what a callback does that the loop calls itself is a parameter, and what
-- the tasks of the pool do to the table during a round is not modelled; and the tasks of the pool that receive a packet (`recv_task`, `gather`) and
-- send one. The code does not compile as it stands, and is taken with its evident meaning.
-- EpollServer/Packets is about packets, EpollServer/Loop about the loop, and EpollServer/Posts about the
-- loop together with any pool that keeps the promises of TaskQueue. What a task is made of, the address
-- of a callback and that of its argument, is a parameter there. The server's own pool does not keep
-- them as it is set up: EpollServer/Stalls is about the loop together with that one.
--
-- SelectServer (socket/select/select.cpp): the server on `select`. `Server` is `allset`, `nfds`,
-- `recvBuf` and a log; `turn` is one turn of its loop, where `exit` is `none`. SelectServer/Watching is
-- about the set and the range, SelectServer/Replies about the bytes that are sent.
--
-- EpollPrinter (socket/epoll/CS_socket/server.cpp): the server on `epoll` that prints. `Server` is what
-- `epoll` has and what is open; EpollPrinter/Descriptors is about both.
--
-- EdgeReader (socket/epoll/non_block/server.cpp): the reading of one edge-triggered connection, with
-- the arrival of its bytes, as steps; EdgeReader/Drains has the invariant.
--
-- PipeLines (socket/epoll/pipe/pipe.cpp): a child and its parent on a pipe, as steps; PipeLines/Order
-- has what is read.
--
-- WordCount (IPC/mywc.cpp): `ls` and `wc` on a pipe, with the descriptors of both processes, as steps.
-- `pipe`, `fork` and `execlp` are taken to succeed; the capacity of the pipe is a
-- parameter. WordCount/Stages has the invariant, WordCount/Ends is about the end of the input.
--
-- PollServer (socket/poll/poll.cpp): the echo server on `poll`. `Server` is the array `fds` with
-- `conncount + 1`, the map of replies and a log; `round` is the body of the loop over the descriptors,
-- where `exit(1)` is `none`. The loop goes back after a removal and grows with each new connection, so
-- `pass` runs on fuel, and PollServer/Ends gives a number of rounds that is enough; `serve` is the endless
-- loop, for what each call of `poll` finds. PollServer/Balance, PollServer/Rounds, PollServer/Passes and
-- PollServer/Runs are about the connections, PollServer/Connections sets a round beside a server that
-- has them as a collection without an order, and PollServer/Serves is about the replies and the full
-- array.
--
-- FileCopy (thread/multhread_copy/main.cpp): the copy in five blocks. `lseek` with `write` is a
-- parameter; FileCopy/Whole states what POSIX says of it as a hypothesis.
--
-- StreamCopy (bases/mycp.cpp): the copy by `read` and `write`, both parameters with the number of bytes
-- that is written, on fuel, one round for
-- each call of `read`; StreamCopy/Agrees sets it beside FileCopy and gives a fuel that is enough.
--
-- DirList (bases/myls.cpp): the listing of a directory tree; how many streams `opendir` can still open
-- is passed along, as none is closed. DirList/Twice counts its lines.
--
-- SharedCounter (lock/mutex.cpp, lock/mutexattr.cpp): threads that add to a number under a mutex. A step
-- is a call on the mutex or one access to the number; what follows the loops, where parent and child of
-- mutexattr.cpp both destroy the mutex, is not modelled. SharedCounter/Invariant has the invariant,
-- SharedCounter/Exact the end of a run.
--
-- RwCounter (lock/rwlock.cpp): threads that add to a number under a read-write lock, and threads that
-- print it. A step is a call on the lock, one access to the number or one line of output. RwCounter/Locks
-- has the invariant, RwCounter/Replay reads the output back, RwCounter/Lines sets it beside the
-- number, and RwCounter/Holds and RwCounter/Turns are about who gets the lock.
--
-- Forks (process_api/fork.cpp): a loop that forks, for any number of rounds. A step is a call of `fork`
-- or `printf`, or the end of a process; a terminal gets each line at once, a file what the process has
-- kept when it ends. Forks/Halves weighs what a process has before it, Forks/Family sums that up.
--
-- ChildReaper (signal/recovery.cpp, signal/r2.cpp): a parent that collects its children in a handler of
-- SIGCHLD. A step is a call of the parent or the exit of a child; a signal that is blocked is kept once.
-- ChildReaper/Collects is about the first program, ChildReaper/Misses about the second.
--
-- ChildWait (process_api/wait.cpp): a parent that asks for the end of its child. A step is a line of the
-- child, its end, which may be by a signal, or a turn of the parent. `status` is what the system
-- documents of the word that `waitpid` stores, and `decode` what the program takes from it;
-- ChildWait/Reports has the invariant.
--
-- Siblings (process_api/subprocess.cpp, process_api/execl.cpp): loops in which the parent alone forks,
-- with the processes that come of them as a list. Which calls of `fork` succeed is an argument, and
-- `execl` is taken to succeed. Siblings/Numbers is about the roles of the processes.
--
-- ThreadLimit (thread/max_thread.cpp): parent and child create threads until that fails, as steps;
-- ThreadLimit/Reports has the invariant.
--
-- PipeEcho (IPC/PIPE.cpp): a line that the parent sends through a pipe to its child, with both
-- processes' buffers; PipeEcho/Discloses is about what the child prints.
--
-- ProducerConsumer (thread/P_C_Model/Signal_type.cpp): the shared list of one producer and one consumer,
-- as steps; ProducerConsumer/Exchange has the invariant. `printed` is what the consumer has printed.
--
-- Prelude holds the shared names, the Boolean tests, and the lemmas on lists (Lists, Slices) and on
-- sums over lists (Counting), and collections of numbers without an order, as a quotient (Bags). The
-- Tests modules hold runs on concrete inputs.
--
-- Bounds and loops. Numbers are natural numbers; the counts of the POSIX pool are shown to stay below
-- 2 ^ 31 where they index the queue, for a `queue_max_size` below 2 ^ 31. PollServer and StreamCopy run
-- on fuel. Each other loop is a recursion on the rounds that are left, so no fuel is needed; an endless
-- loop is a step relation, or a function on the list of what its turns find. A read outside an array
-- gives a default and a write outside changes nothing; the invariants rule both out, and where the code
-- does leave an array the log has an entry for it.
--
-- Not modelled: output to the terminal, the payload of tasks, the memory model below the locks (an
-- access outside a lock is one step), the example of TaskPool, the socket clients, and the other
-- programs of the repository, each a short demonstration of a few system calls with no state of its own.
pub mod ChildReaper
pub mod ChildWait
pub mod DirList
pub mod EdgeReader
pub mod EpollPrinter
pub mod EpollServer
pub mod FileCopy
pub mod Forks
pub mod PipeEcho
pub mod PipeLines
pub mod PollServer
pub mod PosixPool
pub mod Prelude
pub mod ProducerConsumer
pub mod Reactor
pub mod RwCounter
pub mod SelectServer
pub mod ServerPool
pub mod SharedCounter
pub mod Siblings
pub mod StreamCopy
pub mod TaskPool
pub mod TaskQueue
pub mod ThreadLimit
pub mod WordCount
