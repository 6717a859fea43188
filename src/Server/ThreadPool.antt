-- ===== src/Server/ThreadPool.antt =====
-- The thread pool: workerFunc of NexFile/server/worker.c, threadPoolInit of
-- NexFile/server/threadPool.c, and the events of `main` in NexFile/server/server.c. The mutex makes
-- each section between lock and unlock one step; steps of different threads come in any order.
pub mod Create
pub mod Wake
pub mod Main
pub mod Order
use nex_file.Base.{
  ℕ, zero, suc, pos, Bool, true, false, not, ◌&&◌, List, [], ◌∷◌, ◌++◌, map, replicate, ◌≡◌, ◌≢◌,
  ◌==◌, if◌then◌else◌, none,
}
use nex_file.Base.Io.{Io, ok, pure, ◌>>=◌}
use nex_file.Server.TaskQueue.{
  Ptr, null, Node, Memory, TaskQueue, task_queue_init, task_queue_push, task_queue_pop, front,
}

-- Where a worker is: before pthread_mutex_lock, in pthread_cond_wait, in handleClient, returned.
pub data Worker : Type 0 where
  at_lock : Worker
  waiting : Worker
  serving : (fd : ℕ) → Worker
  returned : Worker

-- `ThreadPool_t`, the heap of its queue, and where its workers are. `exit_flag` is 0 or 1.
pub record Pool : Type 0 where
  pub heap : Memory
  pub queue : TaskQueue
  pub exit_flag : Bool
  pub workers : List Worker

-- threadPoolInit and makeWorker
abbrev pub pool_init : Memory → (workers : ℕ) → Pool
pool_init h n = record {
  heap = h;
  queue = task_queue_init;
  exit_flag = false;
  workers = replicate n at_lock;
}

-- workerFunc with the mutex, up to the unlock or to pthread_cond_wait, which gives the mutex up. A
-- worker that wakes starts here again: the test of its loop is the same.
unfoldable pub enter : (exit_flag : Bool) → TaskQueue → Io Memory (TaskQueue × Worker)
enter exit_flag q =
    if not exit_flag && q.queue_size == 0
    then pure (q, waiting)
    else if exit_flag
    then pure (q, returned)
    else do fd ← front q; (q', _) ← task_queue_pop q; pure (q', serving fd)

unfoldable pub is_waiting : Worker → Bool
is_waiting waiting = true
is_waiting _ = false

unfoldable pub all_waiting : List Worker → Bool
unfolding is_waiting
all_waiting [] = true
all_waiting (w ∷ ws) = is_waiting w && all_waiting ws

unfoldable pub none_waiting : List Worker → Bool
unfolding is_waiting
none_waiting [] = true
none_waiting (w ∷ ws) = not (is_waiting w) && none_waiting ws

-- pthread_cond_signal: one of the waiting workers wakes, if there is one.
pub data Signalled : List Worker → List Worker → Type 0 where
  nobody : (ws : List Worker) → none_waiting ws ≡ true → Signalled ws ws
  woken : (l r : List Worker) → Signalled (l ++ waiting ∷ r) (l ++ at_lock ∷ r)

unfoldable pub wake : Worker → Worker
wake waiting = at_lock
wake w = w

-- pthread_cond_broadcast
abbrev pub broadcast : List Worker → List Worker
broadcast = map wake

-- What a worker takes from the queue.
abbrev pub taken : Worker → List ℕ
taken (serving fd) = fd ∷ []
taken _ = []

-- The runs of a pool of `n` workers: the descriptors that `main` has pushed, and those that the
-- workers have taken, in order.
pub data Runs (n : ℕ) : Pool → List ℕ → List ℕ → Type 0 where
  start : (h : Memory) → Runs n (pool_init h n) [] []
  -- `main` accepts a client.
  accepted :
      {p : Pool} {ins outs : List ℕ} {q : TaskQueue} {g : Memory} {ws : List Worker} (fresh : Ptr)
      (garbage : Node) (fd : ℕ)
      → Runs n p ins outs
      → fresh ≢ null
      → p.heap fresh ≡ none
      → task_queue_push fresh garbage p.queue fd p.heap ≡ ok (q, pos 0) g
      → Signalled p.workers ws
      → Runs n (record p { heap = g; queue = q; workers = ws }) (ins ++ fd ∷ []) outs
  -- A worker has the mutex.
  entered :
      {h g : Memory} {q q' : TaskQueue} {flag : Bool} {ins outs : List ℕ} {w : Worker}
      (l r : List Worker)
      → Runs n
          (record { heap = h; queue = q; exit_flag = flag; workers = l ++ at_lock ∷ r })
          ins
          outs
      → enter flag q h ≡ ok (q', w) g
      → Runs n
          (record { heap = g; queue = q'; exit_flag = flag; workers = l ++ w ∷ r })
          ins
          (outs ++ taken w)
  -- pthread_cond_wait may return by itself.
  roused :
      {h : Memory} {q : TaskQueue} {flag : Bool} {ins outs : List ℕ} (l r : List Worker)
      → Runs n
          (record { heap = h; queue = q; exit_flag = flag; workers = l ++ waiting ∷ r })
          ins
          outs
      → Runs n
          (record { heap = h; queue = q; exit_flag = flag; workers = l ++ at_lock ∷ r })
          ins
          outs
  -- handleClient returns.
  served :
      {h : Memory} {q : TaskQueue} {flag : Bool} {ins outs : List ℕ} (fd : ℕ) (l r : List Worker)
      → Runs n
          (record { heap = h; queue = q; exit_flag = flag; workers = l ++ serving fd ∷ r })
          ins
          outs
      → Runs n
          (record { heap = h; queue = q; exit_flag = flag; workers = l ++ at_lock ∷ r })
          ins
          outs
  -- `main` reads from the exit pipe.
  stopped :
      {p : Pool} {ins outs : List ℕ}
      → Runs n p ins outs
      → Runs n (record p { exit_flag = true; workers = broadcast p.workers }) ins outs
