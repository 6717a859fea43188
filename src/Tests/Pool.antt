-- ===== src/Tests/Pool.antt =====
-- A pool of two workers: a client comes and is taken; then the pool is stopped.
use nex_file.Base.{◌≡◌, refl, true, false, List, [], ◌∷◌, some, none, arith}
use nex_file.Base.Io.{ok}
use nex_file.Server.TaskQueue.{
  Memory, TaskQueue, node, poke, load, task_queue_push, task_queue_pop, front,
}
use nex_file.Server.TaskQueue.Fifo.{Holds}
use nex_file.Server.ThreadPool.{
  Worker, at_lock, waiting, serving, Pool, pool_init, Signalled, woken, is_waiting, returned, enter,
  all_waiting, none_waiting, nobody, broadcast, Runs, start, accepted, entered, stopped,
}
use nex_file.Server.ThreadPool.Main.{Signal, listener, main_step, main_step-Runs}
use nex_file.Server.ThreadPool.Order.{Runs-Holds, enter-returns}
use nex_file.Server.ThreadPool.Wake.{Runs-all_waiting, Runs-none_waiting}

abbrev empty : Memory
empty a = none

abbrev queue : TaskQueue
queue = record { queue_size = 1; phead = 4096; ptail = 4096 }

abbrev pool : Pool
pool = record {
  heap = poke empty 4096 (some (node 7 0));
  queue = queue;
  exit_flag = false;
  workers = at_lock ∷ at_lock ∷ [];
}

pool_runs : Runs 2 pool (7 ∷ []) []
unfolding task_queue_push poke none_waiting
pool_runs = accepted 4096 (node 9 0) 7 (start empty) (λ e. cc) refl refl (nobody _ refl)

abbrev popped : Memory
popped = poke (poke empty 4096 (some (node 7 0))) 4096 none

abbrev served : Pool
served = record {
  heap = popped;
  queue = record { queue_size = 0; phead = 0; ptail = 0 };
  exit_flag = false;
  workers = serving 7 ∷ at_lock ∷ [];
}

served_runs : Runs 2 served (7 ∷ []) (7 ∷ [])
unfolding enter poke load task_queue_pop front
served_runs = entered [] (at_lock ∷ []) pool_runs refl

abbrev asleep : Pool
asleep = record {
  heap = empty;
  queue = record { queue_size = 0; phead = 0; ptail = 0 };
  exit_flag = false;
  workers = waiting ∷ waiting ∷ [];
}

asleep_runs : Runs 2 asleep [] []
unfolding enter
asleep_runs = entered (waiting ∷ []) [] (entered [] (at_lock ∷ []) (start empty) refl) refl

Runs-Holds_example : Holds served.heap served.queue (7 ∷ []) (7 ∷ [])
Runs-Holds_example = Runs-Holds served_runs

enter-returns_example :
    (q : TaskQueue) × (w : Worker) × (g : Memory) × (enter false queue
        (poke empty 4096 (some (node 7 0)))
      ≡ ok (q, w) g)
enter-returns_example = enter-returns pool_runs

Runs-all_waiting_example : asleep.queue.queue_size ≡ 0
unfolding all_waiting
Runs-all_waiting_example = Runs-all_waiting (omega arith) asleep_runs refl

Runs-none_waiting_example : none_waiting (broadcast asleep.workers) ≡ true
Runs-none_waiting_example = Runs-none_waiting (omega arith) (stopped asleep_runs) refl

-- pthread_cond_signal wakes the first worker that waits.
abbrev wake_first : Signal
wake_first [] = []
wake_first (waiting ∷ ws) = at_lock ∷ ws
wake_first (at_lock ∷ ws) = at_lock ∷ wake_first ws
wake_first (serving fd ∷ ws) = serving fd ∷ wake_first ws
wake_first (returned ∷ ws) = returned ∷ wake_first ws

behind :
    {ws vs : List Worker} (w : Worker)
    → is_waiting w ≡ false
    → Signalled ws vs
    → Signalled (w ∷ ws) (w ∷ vs)
unfolding none_waiting
behind w h (nobody ws e) = nobody (w ∷ ws) (rw (h, e) refl)
behind w h (woken l r) = woken (w ∷ l) r

wakes_first : (ws : List Worker) → Signalled ws (wake_first ws)
unfolding none_waiting is_waiting
wakes_first [] = nobody [] refl
wakes_first (waiting ∷ ws) = woken [] ws
wakes_first (at_lock ∷ ws) = behind at_lock refl (wakes_first ws)
wakes_first (serving fd ∷ ws) = behind (serving fd) refl (wakes_first ws)
wakes_first (returned ∷ ws) = behind returned refl (wakes_first ws)

step_run :
    main_step wake_first (listener (some 7) 4096 (node 9 0)) (pool_init empty 2) ≡ ok false pool
unfolding main_step task_queue_push poke
step_run = refl

main_step-Runs_example : Runs 2 pool (7 ∷ []) []
unfolding poke
main_step-Runs_example =
    main_step-Runs wake_first wakes_first (listener (some 7) 4096 (node 9 0)) false pool
      (start empty) ((λ e. cc), refl) step_run
