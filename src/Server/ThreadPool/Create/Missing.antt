-- ===== src/Server/ThreadPool/Create/Missing.antt =====
-- makeWorker does not notice the threads that it cannot make.
use nex_file.Base.{
  ℕ, zero, suc, ◌≡◌, refl, sym, subst, ◌∙◌, ap, pos, negsuc, true, List, [], ◌∷◌, ◌++◌, append-nil,
  append_assoc, length, length-append, length-replicate, replicate, map, arith,
}
use nex_file.Base.Io.{ok, ◌>>=◌}
use nex_file.Server.ThreadPool.{
  Worker, at_lock, waiting, serving, wake, Pool, Signalled, nobody, woken, Runs, start, accepted,
  entered, roused, served, stopped,
}
use nex_file.Server.ThreadPool.Create.{
  Created, created, failing, WorkerArr, Threads, create_thread, create_from, tid_arr_init,
  thread_pool_init, make_worker,
}

length-replaced :
    (l : List Worker) (v w : Worker) (r : List Worker) → length (l ++ v ∷ r) ≡ length (l ++ w ∷ r)
length-replaced l v w r = length-append l (v ∷ r) ∙ sym (length-append l (w ∷ r))

length-map : (f : Worker → Worker) (ws : List Worker) → length (map f ws) ≡ length ws
length-map f [] = refl
length-map f (w ∷ ws) = ap suc (length-map f ws)

-- As POSIX has it: the result of pthread_create is 0 or a positive number, never -1.
abbrev pub IsErrno : Created → Type 0
IsErrno (created tid) = Unit
IsErrno (failing (pos n)) = Unit
IsErrno (failing (negsuc n)) = ⊥

abbrev pub made : Created → List ℕ
made (created tid) = tid ∷ []
made (failing errno) = []

-- The threads that `n` calls from the call `i` on have made.
abbrev pub made_by : (ℕ → Created) → (i n : ℕ) → List ℕ
made_by calls i zero = []
made_by calls i (suc n) = made (calls i) ++ made_by calls (suc i) n

create_ok :
    (c : Created) (slot : ℕ) (threads : Threads)
    → IsErrno c
    → (tid : ℕ) × (create_thread c slot threads ≡ ok tid (threads ++ made c))
unfolding create_thread
create_ok (created tid) slot threads h = (tid, refl)
create_ok (failing (pos n)) slot threads h = (slot, ap (ok slot) (sym (append-nil threads)))
create_ok (failing (negsuc n)) slot threads h = absurd h

create_from-made :
    (calls : ℕ → Created) (i : ℕ) (slots threads : List ℕ)
    → ((j : ℕ) → IsErrno (calls j))
    → (tids : List ℕ) × (create_from calls i slots threads
        ≡ ok tids (threads ++ made_by calls i (length slots)))
unfolding create_from
create_from-made calls i [] threads h = ([], ap (ok []) (sym (append-nil threads)))
create_from-made calls i (slot ∷ slots) threads h =
    let (tid, first) = create_ok (calls i) slot threads (h i) in
    let (tids, later) = create_from-made calls (suc i) slots (threads ++ made (calls i)) h in
    (
      tid ∷ tids,
      rw (first, later)
          (ap (ok (tid ∷ tids))
            (append_assoc threads (made (calls i)) (made_by calls (suc i) (length slots)))),
    )

Signalled-length : {ws vs : List Worker} → Signalled ws vs → length vs ≡ length ws
Signalled-length (nobody ws e) = refl
Signalled-length (woken l r) = length-replaced l at_lock waiting r

-- The pool never gains or loses a worker.
Runs-length : {n : ℕ} {p : Pool} {ins outs : List ℕ} → Runs n p ins outs → length p.workers ≡ n
Runs-length {n} (start h) = length-replicate n at_lock
Runs-length (accepted fresh garbage fd run ne unused e wakes) =
    Signalled-length wakes ∙ Runs-length run
Runs-length (entered {w = w} l r run e) = length-replaced l w at_lock r ∙ Runs-length run
Runs-length (roused l r run) = length-replaced l at_lock waiting r ∙ Runs-length run
Runs-length (served fd l r run) = length-replaced l at_lock (serving fd) r ∙ Runs-length run
Runs-length (stopped {p = p} run) = length-map wake p.workers ∙ Runs-length run

-- Without a worker, no descriptor is ever taken from the queue.
none_taken : {p : Pool} {ins outs : List ℕ} → Runs 0 p ins outs → outs ≡ []
none_taken (start h) = refl
none_taken (accepted fresh garbage fd run ne unused e wakes) = none_taken run
none_taken (entered l r run e) =
    absurd (omega (arith, Runs-length run, length-append l (at_lock ∷ r)))
none_taken (roused l r run) = none_taken run
none_taken (served fd l r run) = none_taken run
none_taken (stopped run) = none_taken run

-- threadPoolInit and makeWorker, when the array is allocated and no result of pthread_create is -1, as
-- POSIX has it: makeWorker returns 0, and the threads are those that pthread_create has made.
pub make_worker-made :
    (calls : ℕ → Created) (n : ℕ)
    → ((j : ℕ) → IsErrno (calls j))
    → (arr : WorkerArr) × ((thread_pool_init true n >>= λ (pool, _).
            make_worker calls pool.worker_arr)
          []
        ≡ ok (arr, pos 0) (made_by calls 0 n))
      × (arr.worker_num ≡ n)
unfolding thread_pool_init tid_arr_init make_worker
make_worker-made calls n h =
    let (tids, loop) = create_from-made calls 0 (replicate n 0) [] h in
    let arr : WorkerArr = record { thread_ids = tids; worker_num = n } in
    (arr, rw loop (ap (λ k. ok (arr, pos 0) (made_by calls 0 k)) (length-replicate n 0)), refl)

-- If pthread_create makes no thread, and none of its results is -1, as POSIX has it, then
-- makeWorker returns 0 all the same, and in every run of the pool that follows no worker ever takes
-- a descriptor that main has pushed.
pub make_worker-serves_nobody :
    {p : Pool} {ins outs : List ℕ} (calls : ℕ → Created) (n : ℕ)
    → ((j : ℕ) → IsErrno (calls j))
    → made_by calls 0 n ≡ []
    → Runs (length (made_by calls 0 n)) p ins outs
    → (arr : WorkerArr) × ((thread_pool_init true n >>= λ (pool, _).
            make_worker calls pool.worker_arr)
          []
        ≡ ok (arr, pos 0) [])
      × (outs ≡ [])
make_worker-serves_nobody {p} {ins} {outs} calls n h nothing run =
    let (arr, made_all, size) = make_worker-made calls n h in
    (
      arr,
      made_all ∙ ap (ok (arr, pos 0)) nothing,
      none_taken (subst (λ k. Runs k p ins outs) (ap length nothing) run),
    )
