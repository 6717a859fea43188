-- ===== src/Tests/Start.antt =====
-- The server starts: with four threads, and with none.
use nex_file.Base.{
  ℕ, ◌≡◌, ◌⊎◌, refl, pos, minus_one, ◌==◌, arith, true, false, codes, List, [], ◌∷◌, ◌++◌, none,
  some, if◌then◌else◌,
}
use nex_file.Base.Io.{ok, exited, ◌>>=◌}
use nex_file.Server.TaskQueue.{Memory, TaskQueue, node, poke, task_queue_push, task_queue_init}
use nex_file.Server.ThreadPool.{Pool, Runs, start as pool_start, accepted, nobody, none_waiting}
use nex_file.Server.ThreadPool.Create.{
  Created, created, failing, WorkerArr, thread_pool_init, make_worker,
}
use nex_file.Server.ThreadPool.Create.Missing.{make_worker-serves_nobody}
use nex_file.Server.Start.{
  closed, added, InetAddr, Results, listen_address, tcp_init, server_ip, server_port, child, start,
}
use nex_file.Server.Start.Listens.{listening, all_succeed, Leaves, tcp_init-Ends}
use nex_file.Server.Start.Ready.{Refused, start-decides}

-- EAGAIN for every thread
abbrev none_created : ℕ → Created
none_created i = failing (pos 11)

abbrev all_created : ℕ → Created
all_created i = created i

abbrev no_memory : Memory
no_memory p = none

-- Without a thread, the descriptor 9 stays in the queue.
abbrev queued : TaskQueue
queued = record { queue_size = 1; phead = 1; ptail = 1 }

abbrev one_node : Memory
one_node p = if p == 1 then some (node 9 0) else none

abbrev idle_pool : Pool
idle_pool = record { heap = one_node; queue = queued; exit_flag = false; workers = [] }

idle_run : Runs 0 idle_pool (9 ∷ []) []
unfolding task_queue_push none_waiting poke
idle_run =
    accepted 1 (node 0 0) 9 (pool_start no_memory) (λ e. omega (arith, e)) refl refl
      (nobody [] refl)

make_worker-serves_nobody_example :
    (arr : WorkerArr) × ((thread_pool_init true 4 >>= λ (pool, _).
    make_worker none_created pool.worker_arr)
        []
      ≡ ok (arr, pos 0) [])
    × (◌≡◌ {A = List ℕ} [] [])
make_worker-serves_nobody_example = make_worker-serves_nobody none_created 4 (λ j. tt) refl idle_run

abbrev inet_addr : InetAddr
inet_addr ip = 0

abbrev results : Results
results = record { socket = some 5; reuse = true; bind = true; listen = true }

-- The port is taken.
abbrev taken : Results
taken = record results { bind = false }

start-decides_example :
    ((fd : ℕ) × (arr : WorkerArr) × (results.socket ≡ some fd)
      × (all_succeed results ≡ true)
      × (start inet_addr results child true all_created 3 4
            (pos 6)
            (pos 0)
            minus_one
            (record { calls = []; threads = [] })
          ≡ ok
              (some
                (fd, record { worker_arr = arr; task_queue = task_queue_init; exit_flag = false }))
              (record {
                calls =
                    closed 4
                    ∷ (listening fd (listen_address inet_addr server_ip server_port)
                        ++ added (pos 6) fd (pos 0) ∷ added (pos 6) 3 minus_one ∷ []);
                threads = 0 ∷ 1 ∷ 2 ∷ 3 ∷ [];
              }))
      × (arr.worker_num ≡ 4))
    ⊎ (Refused results
        × (start inet_addr results child true all_created 3 4
              (pos 6)
              (pos 0)
              minus_one
              (record { calls = []; threads = [] })
            ≡ exited))
start-decides_example =
    start-decides inet_addr results all_created 3 4 (pos 6) (pos 0) minus_one [] (λ j. tt)

tcp_init-Ends_example :
    ((taken.socket ≡ none) × (tcp_init inet_addr taken (codes "127.0.0.1") (pos 1234) [] ≡ exited))
    ⊎ ((fd : ℕ) × (taken.socket ≡ some fd)
        × Leaves taken
            (tcp_init inet_addr taken (codes "127.0.0.1") (pos 1234) [])
            fd
            (listen_address inet_addr (codes "127.0.0.1") (pos 1234))
            [])
tcp_init-Ends_example = tcp_init-Ends inet_addr taken (codes "127.0.0.1") (pos 1234) []
