-- ===== src/Server/ThreadPool/Order.antt =====
-- The workers take the descriptors in the order in which they came, each once.
use nex_file.Base.{
  ℕ, ◌≡◌, refl, sym, subst₂, subst, append-nil, Bool, true, false, List, [], ◌∷◌, ◌++◌, ◌==◌, ne→==,
  eq→==, arith,
}
use nex_file.Base.Io.{Run, ok}
use nex_file.Server.TaskQueue.{Memory, TaskQueue}
use nex_file.Server.TaskQueue.Fifo.{
  Serves, pushed, popped, Holds, Serves-Holds, IsQueue, pop-IsQueue, front-IsQueue,
}
use nex_file.Server.TaskQueue.Chain.{Cells}
use nex_file.Server.ThreadPool.{
  Worker, at_lock, waiting, serving, returned, Pool, enter, taken, Runs, accepted, entered, roused,
  served, stopped,
}
use nex_file.Server.ThreadPool

idle :
    {h g : Memory} {q q' : TaskQueue} {ins outs : List ℕ} (v w : Worker)
    → Serves h q ins outs
    → taken v ≡ []
    → ◌≡◌ {A = Run Memory (TaskQueue × Worker)} (ok (q, v) h) (ok (q', w) g)
    → Serves g q' ins (outs ++ taken w)
idle {h} {g} {q} {q'} {ins} {outs} v w s free e =
    let same : v ≡ w = cc e in
    let same_queue : q ≡ q' = cc e in
    let same_heap : h ≡ g = cc e in
    let kept : outs ≡ outs ++ taken w = rw (← same, free) (sym (append-nil outs)) in
    subst (Serves g q' ins) kept (subst₂ (λ a b. Serves a b ins outs) same_heap same_queue s)

-- What a worker does with the queue, when it is not told to exit.
enter_open :
    {h g : Memory} {q q' : TaskQueue} {ins outs : List ℕ} (w : Worker) (cells : Cells)
    → Serves h q ins outs
    → IsQueue h q cells
    → enter false q h ≡ ok (q', w) g
    → Serves g q' ins (outs ++ taken w)
unfolding enter
enter_open {h} {g} {q} {q'} w [] s is e =
    idle waiting w s refl (rw (eq→== q.queue_size 0 is.size) at e)
enter_open {h} {g} {q} {q'} {ins} {outs} w ((p, v) ∷ xs) s is e =
    let r = pop-IsQueue xs is in
    let full : (q.queue_size == 0) ≡ false = ne→== q.queue_size 0 (omega (arith, is.size)) in
    let e' : ◌≡◌ {A = Run Memory (TaskQueue × Worker)} (ok (r.queue, serving v) r.heap)
        (ok (q', w) g) =
      rw (full, front-IsQueue is, r.runs) at e in
    let same : serving v ≡ w = cc e' in
    let same_queue : r.queue ≡ q' = cc e' in
    let same_heap : r.heap ≡ g = cc e' in
    rw (← same, ← same_queue, ← same_heap) (popped v s (front-IsQueue is) r.runs)

section_returns :
    (flag : Bool) (h : Memory) (q : TaskQueue) (cells : Cells)
    → IsQueue h q cells
    → (q' : TaskQueue) × (w : Worker) × (g : Memory) × (enter flag q h ≡ ok (q', w) g)
unfolding enter
section_returns true h q cells is = (q, returned, h, refl)
section_returns false h q [] is = (q, waiting, h, rw is.size refl)
section_returns false h q ((p, v) ∷ xs) is =
    let r = pop-IsQueue xs is in
    (
      r.queue,
      serving v,
      r.heap,
      rw (ne→== q.queue_size 0 (omega (arith, is.size)), front-IsQueue is, r.runs) refl,
    )

enter-Serves :
    {h g : Memory} {q q' : TaskQueue} {ins outs : List ℕ} (flag : Bool) (w : Worker)
    → Serves h q ins outs
    → enter flag q h ≡ ok (q', w) g
    → Serves g q' ins (outs ++ taken w)
unfolding enter
enter-Serves true w s e = idle returned w s refl e
enter-Serves false w s e = let i = Serves-Holds s in enter_open w i.cells s i.queue e

-- Whatever the order in which the threads run, the queue has a history of pushes and pops.
Runs-Serves :
    {n : ℕ} {p : Pool} {ins outs : List ℕ} → Runs n p ins outs → Serves p.heap p.queue ins outs
Runs-Serves (ThreadPool.start h) = Serves.start h
Runs-Serves (accepted fresh garbage fd r ne unused e w) =
    pushed fresh garbage fd (Runs-Serves r) ne unused e
Runs-Serves (entered {flag} {w} l r run e) = enter-Serves flag w (Runs-Serves run) e
Runs-Serves (roused l r run) = Runs-Serves run
Runs-Serves (served fd l r run) = Runs-Serves run
Runs-Serves (stopped run) = Runs-Serves run

-- In every run of the pool, whatever the order of the threads, the accepted descriptors are those
-- that workers have taken, each once and in the order of acceptance, followed by those in the queue,
-- which is well formed.
pub Runs-Holds :
    {n : ℕ} {p : Pool} {ins outs : List ℕ} → Runs n p ins outs → Holds p.heap p.queue ins outs
Runs-Holds r = Serves-Holds (Runs-Serves r)

-- In every run, a worker with the mutex leaves it again: its section returns, so it never reads a
-- freed node or a null pointer.
pub enter-returns :
    {n : ℕ} {p : Pool} {ins outs : List ℕ}
    → Runs n p ins outs
    → (q : TaskQueue) × (w : Worker) × (g : Memory) × (enter p.exit_flag p.queue p.heap
        ≡ ok (q, w) g)
enter-returns {p} r =
    let i = Runs-Holds r in section_returns p.exit_flag p.heap p.queue i.cells i.queue
