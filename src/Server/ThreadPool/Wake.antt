-- ===== src/Server/ThreadPool/Wake.antt =====
-- No wake-up is lost: a client in the queue has a worker that is on its way.
use nex_file.Base.{
  ℕ, suc, ◌<◌, ◌≡◌, ◌≢◌, refl, sym, ap, ◌∙◌, Bool, true, false, Bool-cases, inl, inr, List, [], ◌∷◌,
  ◌++◌, length, length-append, length-replicate, ◌==◌, ==→eq, eq→==, arith,
}
use nex_file.Base.Io.{ok, and_then-eq-ok}
use nex_file.Server.TaskQueue.{Memory, TaskQueue, task_queue_pop, front}
use nex_file.Server.ThreadPool.{
  Worker, at_lock, waiting, serving, returned, Pool, enter, is_waiting, all_waiting, none_waiting,
  Signalled, nobody, woken, wake, broadcast, Runs, start, accepted, entered, roused, served,
  stopped,
}

none-not_all : (ws : List Worker) → none_waiting ws ≡ true → 0 < length ws → all_waiting ws ≡ false
unfolding none_waiting all_waiting
none-not_all [] h p = absurd (omega arith)
none-not_all (w ∷ ws) h p = ground (arith, h)

none-replace :
    (l r : List Worker) (v w : Worker)
    → none_waiting (l ++ v ∷ r) ≡ true
    → is_waiting w ≡ false
    → none_waiting (l ++ w ∷ r) ≡ true
unfolding none_waiting
none-replace [] r v w h e = ground (arith, h, e)
none-replace (x ∷ l) r v w h e = let rest = none-replace l r v w in ground (arith, h, e, rest)

all-replace :
    (l r : List Worker) (w : Worker) → is_waiting w ≡ false → all_waiting (l ++ w ∷ r) ≡ false
unfolding all_waiting
all-replace [] r w e = ground (arith, e)
all-replace (x ∷ l) r w e = let rest = all-replace l r w e in ground (arith, rest)

none-broadcast : (ws : List Worker) → none_waiting (broadcast ws) ≡ true
unfolding none_waiting wake
none-broadcast [] = refl
none-broadcast (at_lock ∷ ws) = none-broadcast ws
none-broadcast (waiting ∷ ws) = none-broadcast ws
none-broadcast (serving fd ∷ ws) = none-broadcast ws
none-broadcast (returned ∷ ws) = none-broadcast ws

length-broadcast : (ws : List Worker) → length (broadcast ws) ≡ length ws
length-broadcast [] = refl
length-broadcast (w ∷ ws) = ap suc (length-broadcast ws)

-- A worker waits only when there is nothing to take and no order to exit.
waits :
    (h g : Memory) (q q' : TaskQueue) (flag : Bool) (w : Worker)
    → enter flag q h ≡ ok (q', w) g
    → is_waiting w ≡ true
    → (flag ≡ false) × (q'.queue_size ≡ 0)
unfolding enter is_waiting
waits h g q q' true w e i = let same : returned ≡ w = cc e in cc (rw (← same) at i)
waits h g q q' false w e i = elim (Bool-cases (q.queue_size == 0)) [
  | inl empty ↦
      let same : q ≡ q' = cc (rw empty at e) in
      (refl, ap (λ (x : TaskQueue). x.queue_size) (sym same) ∙ ==→eq q.queue_size 0 empty)
  | inr full ↦
      let (fd, h₁, e₁, e₂) = and_then-eq-ok (front q h) _ (rw full at e) in
      let (_, h₂, e₃, e₄) = and_then-eq-ok (task_queue_pop q h₁) _ e₂ in
      let same : serving fd ≡ w = cc e₄ in cc (rw (← same) at i)
]

-- A pool of `n` workers in which nobody is forgotten.
record IsAwake (n : ℕ) (p : Pool) : Type 0 where
  size : length p.workers ≡ n
  told : p.exit_flag ≡ true → none_waiting p.workers ≡ true
  on_way : p.queue.queue_size ≢ 0 → all_waiting p.workers ≡ false

length-replace :
    {n : ℕ} (l r : List Worker) (v w : Worker) → length (l ++ v ∷ r) ≡ n → length (l ++ w ∷ r) ≡ n
length-replace l r v w e = omega (arith, length-append l (v ∷ r), length-append l (w ∷ r), e)

-- A worker that does not wait may stand in the place of any other.
IsAwake-replace :
    {n : ℕ} (p : Pool) (l r : List Worker) (v w : Worker)
    → p.workers ≡ l ++ v ∷ r
    → IsAwake n p
    → is_waiting w ≡ false
    → IsAwake n (record p { workers = l ++ w ∷ r })
IsAwake-replace p l r v w e a i = record {
  size = length-replace l r v w (rw e at a.size);
  told = λ t. none-replace l r v w (rw e at (a.told t)) i;
  on_way = λ q. all-replace l r w i;
}

-- The three facts after pthread_cond_signal; at least one worker is on its way.
signalled :
    {ws ws' : List Worker} (n : ℕ) (flag : Bool)
    → 0 < n
    → length ws ≡ n
    → (flag ≡ true → none_waiting ws ≡ true)
    → Signalled ws ws'
    → (length ws' ≡ n) × (flag ≡ true → none_waiting ws' ≡ true) × (all_waiting ws' ≡ false)
signalled n flag some size told (nobody ws e) =
    (size, told, none-not_all ws e (omega (arith, size, some)))
signalled n flag some size told (woken l r) = (
  length-replace l r waiting at_lock size,
  λ t. none-replace l r waiting at_lock (told t) (unfold is_waiting in refl),
  all-replace l r at_lock (unfold is_waiting in refl),
)

told_to_wait :
    (h g : Memory) (q q' : TaskQueue) (flag : Bool) (w : Worker)
    → enter flag q h ≡ ok (q', w) g
    → is_waiting w ≡ true
    → (n : ℕ) (l r : List Worker)
    → IsAwake n (record { heap = h; queue = q; exit_flag = flag; workers = l ++ at_lock ∷ r })
    → IsAwake n (record { heap = g; queue = q'; exit_flag = flag; workers = l ++ w ∷ r })
told_to_wait h g q q' flag w e i n l r a =
    let (going, empty) = waits h g q q' flag w e i in
    record {
      size = length-replace l r at_lock w a.size;
      told = λ t. cc (going, t);
      on_way = λ more. absurd (more empty);
    }

Runs-IsAwake : {n : ℕ} {p : Pool} {ins outs : List ℕ} → 0 < n → Runs n p ins outs → IsAwake n p
Runs-IsAwake {n} some (start h) = record {
  size = length-replicate n at_lock;
  told = λ t. cc;
  on_way = λ more. absurd (more refl);
}
Runs-IsAwake {n} some (accepted {p} fresh garbage fd run ne unused e s) =
    let a = Runs-IsAwake some run in
    let (size, told, on_way) = signalled n p.exit_flag some a.size a.told s in
    record { size = size; told = told; on_way = λ more. on_way }
Runs-IsAwake {n} some (entered {h} {g} {q} {q'} {flag} {ins} {outs} {w} l r run e) =
    let a = Runs-IsAwake some run in
    elim (Bool-cases (is_waiting w)) [
      | inl i ↦ told_to_wait h g q q' flag w e i n l r a
      | inr i ↦ record {
        size = length-replace l r at_lock w a.size;
        told = λ t. none-replace l r at_lock w (a.told t) i;
        on_way = λ more. all-replace l r w i;
      }
    ]
Runs-IsAwake some (roused l r run) =
    IsAwake-replace _ l r waiting at_lock refl (Runs-IsAwake some run) (unfold is_waiting in refl)
Runs-IsAwake some (served fd l r run) =
    IsAwake-replace _ l r (serving fd) at_lock refl (Runs-IsAwake some run)
      (unfold is_waiting in refl)
Runs-IsAwake {n} some (stopped {p} run) =
    let a = Runs-IsAwake some run in
    let awake = none-broadcast p.workers in
    let size = length-broadcast p.workers ∙ a.size in
    record {
      size = size;
      told = λ t. awake;
      on_way = λ more. none-not_all (broadcast p.workers) awake (omega (arith, size, some));
    }

-- No wake-up is lost. In every run of a pool with at least one worker, whatever the order of the
-- threads: if all workers wait, no accepted client is in the queue.
pub Runs-all_waiting :
    {n : ℕ} {p : Pool} {ins outs : List ℕ}
    → 0 < n
    → Runs n p ins outs
    → all_waiting p.workers ≡ true
    → p.queue.queue_size ≡ 0
Runs-all_waiting {p} some run all =
    let a = Runs-IsAwake some run in
    elim (Bool-cases (p.queue.queue_size == 0)) [
      | inl empty ↦ ==→eq p.queue.queue_size 0 empty
      | inr full ↦ absurd (cc (a.on_way (λ e. cc (eq→== p.queue.queue_size 0 e)), all))
    ]

-- In every run of a pool with at least one worker, no worker waits after the order to exit, so none
-- sleeps through it.
pub Runs-none_waiting :
    {n : ℕ} {p : Pool} {ins outs : List ℕ}
    → 0 < n
    → Runs n p ins outs
    → p.exit_flag ≡ true
    → none_waiting p.workers ≡ true
Runs-none_waiting some run t = (Runs-IsAwake some run).told t
