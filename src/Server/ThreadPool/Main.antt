-- ===== src/Server/ThreadPool/Main.antt =====
-- The loop of `main` in NexFile/server/server.c over the ready descriptors, as far as it works on the
-- pool: `main` holds the mutex in each of its two sections. `signal` says which waiting worker
-- pthread_cond_signal wakes.
use nex_file.Base.{
  ℕ, ◌≡◌, ◌≢◌, refl, ◌∙◌, ap, ℤ, pos, Bool, true, false, List, [], ◌∷◌, ◌++◌, append-nil, Option,
  none, some, if◌then◌else◌,
}
use nex_file.Base.Io.{Io, Run, ok, blocked, undefined, exited, pure, ◌>>=◌}
use nex_file.Server.TaskQueue.{Ptr, null, Node, Memory, TaskQueue, task_queue_push}
use nex_file.Server.TaskQueue.Fifo.{push_zero}
use nex_file.Server.ThreadPool.{Worker, Pool, Signalled, broadcast, Runs, accepted, stopped}

-- What is ready: the listening socket, with the result of `accept` (`none` is an error) and what
-- `malloc` then returns; the exit pipe; another descriptor.
pub data Ready : Type 0 where
  listener : (accept : Option ℕ) (fresh : Ptr) (garbage : Node) → Ready
  exit_pipe : Ready
  other : Ready

abbrev pub Signal : Type 0
Signal = List Worker → List Worker

-- The pool after taskQueuePush and pthread_cond_signal
abbrev push_signal : Signal → Pool → Run Memory (TaskQueue × ℤ) → Run Pool Bool
push_signal signal p (ok (q, r) g) =
    ok false (record p { heap = g; queue = q; workers = signal p.workers })
push_signal signal p blocked = blocked
push_signal signal p undefined = undefined
push_signal signal p exited = exited

-- One ready descriptor: true if `main` leaves its loop, to join the workers and to return.
unfoldable pub main_step : Signal → Ready → Io Pool Bool
main_step signal (listener none fresh garbage) p = ok false p
main_step signal (listener (some fd) fresh garbage) p =
    push_signal signal p (task_queue_push fresh garbage p.queue fd p.heap)
main_step signal exit_pipe p =
    ok true (record p { exit_flag = true; workers = broadcast p.workers })
main_step signal other p = ok false p

-- The loop over the ready descriptors
unfoldable pub main_set : Signal → List Ready → Io Pool Bool
main_set signal [] = pure false
main_set signal (r ∷ rs) =
    let later = main_set signal rs in
    do left ← main_step signal r; if left then pure true else later

-- The descriptors that a turn adds
abbrev pub added : Ready → List ℕ
added (listener (some fd) fresh garbage) = fd ∷ []
added _ = []

-- `malloc` gives unused memory.
abbrev pub IsUnused : Ready → Pool → Type 0
IsUnused (listener (some fd) fresh garbage) p = (fresh ≢ null) × (p.heap fresh ≡ none)
IsUnused _ p = Unit

module _ (signal : Signal) (wakes : (ws : List Worker) → Signalled ws (signal ws)) where
  push_signal-Runs :
      {n : ℕ} {p : Pool} {ins outs : List ℕ} (fd : ℕ) (fresh : Ptr) (garbage : Node) (b : Bool)
      (p' : Pool) (x : Run Memory (TaskQueue × ℤ))
      → Runs n p ins outs
      → fresh ≢ null
      → p.heap fresh ≡ none
      → task_queue_push fresh garbage p.queue fd p.heap ≡ x
      → push_signal signal p x ≡ ok b p'
      → Runs n p' (ins ++ fd ∷ []) outs
  push_signal-Runs {p} fd fresh garbage b p' (ok (q, r) g) run ne unused e h =
      let zero = push_zero fresh garbage p.queue q fd r p.heap g e in
      let e₁ : task_queue_push fresh garbage p.queue fd p.heap ≡ ok (q, pos 0) g =
        e ∙ ap (λ z. ok (q, z) g) zero in
      let state : record p { heap = g; queue = q; workers = signal p.workers } ≡ p' = cc h in
      rw (← state) (accepted fresh garbage fd run ne unused e₁ (wakes p.workers))
  push_signal-Runs fd fresh garbage b p' blocked run ne unused e h = cc h
  push_signal-Runs fd fresh garbage b p' undefined run ne unused e h = cc h
  push_signal-Runs fd fresh garbage b p' exited run ne unused e h = cc h

  -- Each turn of the loop of `main` is a step of the pool: from every state that a run of the pool can
  -- reach, whatever the workers have done before, a turn that returns leads to a state that a run can
  -- reach, in which exactly the descriptor that was accepted in this turn, if any, was added at the end.
  -- `malloc` gives unused memory, and pthread_cond_signal wakes one of the workers that wait.
  pub main_step-Runs :
      {n : ℕ} {p : Pool} {ins outs : List ℕ} (r : Ready) (b : Bool) (p' : Pool)
      → Runs n p ins outs
      → IsUnused r p
      → main_step signal r p ≡ ok b p'
      → Runs n p' (ins ++ added r) outs
  unfolding main_step
  main_step-Runs {n} {p} {ins} {outs} (listener none fresh garbage) b p' run h e =
      let q : p ≡ p' = cc e in rw (append-nil, ← q) run
  main_step-Runs {n} {p} {ins} {outs} (listener (some fd) fresh garbage) b p' run h e =
      push_signal-Runs fd fresh garbage b p' (task_queue_push fresh garbage p.queue fd p.heap) run
        h.0 h.1 refl e
  main_step-Runs {n} {p} {ins} {outs} exit_pipe b p' run h e =
      let q : record p { exit_flag = true; workers = broadcast p.workers } ≡ p' = cc e in
      rw (append-nil, ← q) (stopped run)
  main_step-Runs {n} {p} {ins} {outs} other b p' run h e =
      let q : p ≡ p' = cc e in rw (append-nil, ← q) run
