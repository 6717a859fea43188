-- ===== src/Server/ThreadPool/Create.antt =====
-- tidArrInit and makeWorker of NexFile/server/worker.c and threadPoolInit of
-- NexFile/server/threadPool.c: how the threads of the pool come to be. Whether `calloc` succeeds and
-- what each call of pthread_create gives are arguments. What makeWorker prints is left out.
pub mod Missing
use nex_file.Base.{
  ℕ, suc, ◌+◌, ℤ, pos, minus_one, eq_ℤ, Bool, true, false, not, List, [], ◌∷◌, ◌++◌, replicate,
  length, if◌then◌else◌,
}
use nex_file.Base.Io.{Io, ok, exit, pure, ◌>>=◌, ◌>>◌}
use nex_file.Server.TaskQueue.{Memory, TaskQueue, task_queue_init}
use nex_file.Server.ThreadPool.{Pool, pool_init}

-- What a call of pthread_create gives: a thread with its id, or the number of an error, which is the
-- result of the call.
pub data Created : Type 0 where
  created : (tid : ℕ) → Created
  failing : (errno : ℤ) → Created

-- `workerArr_t`
pub record WorkerArr : Type 0 where
  pub thread_ids : List ℕ
  pub worker_num : ℕ

-- `ThreadPool_t` without its mutex and condition variable, and before its threads.
pub record ThreadPool : Type 0 where
  pub worker_arr : WorkerArr
  pub task_queue : TaskQueue
  pub exit_flag : Bool

-- The threads that run workerFunc.
abbrev pub Threads : Type 0
Threads = List ℕ

-- tidArrInit
unfoldable pub tid_arr_init : (alloc : Bool) → (worker_num : ℕ) → Io Threads (WorkerArr × ℤ)
tid_arr_init alloc worker_num =
    if not alloc
    then exit
    else pure (record { thread_ids = replicate worker_num 0; worker_num = worker_num }, pos 0)

-- threadPoolInit
unfoldable pub thread_pool_init : (alloc : Bool) → (num_threads : ℕ) → Io Threads (ThreadPool × ℤ)
thread_pool_init alloc num_threads = do
  (arr, _) ← tid_arr_init alloc num_threads
  pure (record { worker_arr = arr; task_queue = task_queue_init; exit_flag = false }, pos 0)

abbrev starts : ℕ → Io Threads (Unit {0})
starts tid threads = ok tt (threads ++ tid ∷ [])

-- One call of pthread_create with its ERROR_CHECK: what is then in its slot of `threadId_`.
create_thread : Created → (slot : ℕ) → Io Threads ℕ
create_thread (created tid) slot = do starts tid; pure tid
create_thread (failing errno) slot = if eq_ℤ errno minus_one then exit else pure slot

-- The loop of makeWorker from thread `i` on, over the slots that are left.
create_from : (ℕ → Created) → (i : ℕ) → List ℕ → Io Threads (List ℕ)
unfolding create_thread
create_from calls i [] = pure []
create_from calls i (slot ∷ slots) =
    let later = create_from calls (suc i) slots in
    do tid ← create_thread (calls i) slot; tids ← later; pure (tid ∷ tids)

-- makeWorker
unfoldable pub make_worker : (ℕ → Created) → WorkerArr → Io Threads (WorkerArr × ℤ)
unfolding create_from
make_worker calls arr = do
  tids ← create_from calls 0 arr.thread_ids
  pure (record arr { thread_ids = tids }, pos 0)

-- The pool on which `main` and the threads then work: a worker for each thread.
abbrev pub pool_of : Memory → Threads → Pool
pool_of h threads = pool_init h (length threads)
