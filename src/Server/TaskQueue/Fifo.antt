-- ===== src/Server/TaskQueue/Fifo.antt =====
-- The list of nodes is a first-in, first-out queue of descriptors.
use nex_file.Base.{
  ℕ, suc, ◌+◌, ◌-◌, ◌≡◌, ◌≢◌, ◌==◌, Bool-cases, inl, inr, refl, sym, ℤ, pos, minus_one, List, [],
  ◌∷◌, ◌++◌, map, map-append, append_assoc, subst₂, length, length-append, none, some, ne→==, arith,
}
use nex_file.Base.Io.{Run, ok, and_then-eq-ok}
use nex_file.Server.TaskQueue.{
  Ptr, null, Node, node, Memory, poke, TaskQueue, task_queue_init, task_queue_push, task_queue_pop,
  front, link_new,
}
use nex_file.Server.TaskQueue.Chain.{Cells, Chain, one, more, Tail, Tail-of, Chain-poke, Chain-snoc}

-- An empty queue has size 0, and nothing is known of its pointers.
abbrev pub Links : Memory → TaskQueue → Cells → Type 0
Links h q [] = Unit {0}
Links h q (x ∷ xs) = Chain h q.ptail q.phead (x ∷ xs)

pub record IsQueue (h : Memory) (q : TaskQueue) (xs : Cells) : Type 0 where
  pub size : q.queue_size ≡ length xs
  pub links : Links h q xs

pub init-IsQueue : (h : Memory) → IsQueue h task_queue_init []
init-IsQueue h = record { size = refl; links = tt }

-- The queue and the heap after a call that returns 0.
pub record Returns (r : Run Memory (TaskQueue × ℤ)) (xs : Cells) (P : Memory → Type 0)
    : Type 0 where
  pub queue : TaskQueue
  pub heap : Memory
  pub runs : r ≡ ok (queue, pos 0) heap
  pub holds : IsQueue heap queue xs
  pub others : P heap

-- A taskQueuePush that returns, returns 0.
pub push_zero :
    (fresh : Ptr) (garbage : Node) (q q' : TaskQueue) (fd : ℕ) (r : ℤ) (h g : Memory)
    → task_queue_push fresh garbage q fd h ≡ ok (q', r) g
    → r ≡ pos 0
unfolding task_queue_push
push_zero fresh garbage q q' fd r h g e = elim (Bool-cases (fresh == null)) [
  | inl no_memory ↦ cc (rw no_memory at e)
  | inr allocated ↦
      let (q₁, h₁, e₁, e₂) = and_then-eq-ok (link_new fresh q _) _ (rw allocated at e) in cc e₂
]

-- taskQueuePush on an allocated node puts the descriptor at the end, whatever the node held, and
-- writes only to the new node and to the old tail. (`Pnext_` is never initialised.)
pub push-IsQueue :
    {h : Memory} {q : TaskQueue} (xs : Cells) (fresh : Ptr) (garbage : Node) (fd : ℕ)
    → IsQueue h q xs
    → fresh ≢ null
    → h fresh ≡ none
    → Returns
        (task_queue_push fresh garbage q fd h)
        (xs ++ (fresh, fd) ∷ [])
        (λ g. (a : Ptr) → a ≢ fresh → a ≢ q.ptail → g a ≡ h a)
unfolding task_queue_push poke
push-IsQueue {h} {q} [] fresh garbage fd is na unused = record {
  queue = record { queue_size = q.queue_size + 1; phead = fresh; ptail = fresh };
  heap = poke h fresh (some (node fd garbage.next));
  runs = rw (ne→== fresh null na, is.size);
  holds = record { size = omega (arith, is.size); links = one garbage.next refl na (ground arith) };
  others = λ a n m. ground arith;
}
push-IsQueue {h} {q} (x ∷ xs) fresh garbage fd is na unused = record {
  queue = record { queue_size = q.queue_size + 1; phead = q.phead; ptail = fresh };
  heap = g;
  runs = ground (arith, t.holds, t.ne_null);
  holds = record {
    size = omega (arith, is.size, length-append (x ∷ xs) ((fresh, fd) ∷ []));
    links =
        Chain-snoc g fresh fd t.fd t.rest garbage.next is.links na unused t.holds
          (ground (arith, apart)) (ground arith) (λ k m n. ground arith);
  };
  others = λ a n m. ground arith;
}
  where
    t : Tail h q.ptail
    t = Tail-of is.links

    apart : q.ptail ≢ fresh
    apart e = ground (arith, t.holds)

    g : Memory
    g = poke (poke h fresh (some (node fd garbage.next))) q.ptail (some (node t.fd fresh))

Chain-ne-nil : {h : Memory} {last p : Ptr} {xs : Cells} → Chain h last p xs → xs ≢ []
Chain-ne-nil (one q e n holds) = λ x. cc
Chain-ne-nil (more n holds out c) = λ x. cc

pop-Chain :
    {h : Memory} {head last : Ptr} {c : Ptr × ℕ} (n : ℕ) (xs : Cells)
    → Chain h last head (c ∷ xs)
    → n ≡ suc (length xs)
    → Returns
        (task_queue_pop (record { queue_size = n; phead = head; ptail = last }) h)
        xs
        (λ g. (g head ≡ none) × ((a : Ptr) → a ≢ head → g a ≡ h a))
unfolding task_queue_pop poke
pop-Chain {h} {head} n [] (one q e ne holds) size = record {
  queue = record { queue_size = n - 1; phead = q; ptail = null };
  heap = poke h head none;
  runs = ground arith;
  holds = record { size = omega arith; links = tt };
  others = (ground arith, λ a m. ground arith);
}
pop-Chain {h} {head} {last} n (x ∷ xs) (more {q} ne holds out c) size = record {
  queue = record { queue_size = n - 1; phead = q; ptail = last };
  heap = poke h head none;
  runs = ground arith;
  holds = record { size = omega arith; links = Chain-poke head none c out };
  others = (ground arith, λ a m. ground arith);
}
pop-Chain n [] (more ne holds out c) size = absurd (Chain-ne-nil c refl)

-- taskQueuePop on a queue that is not empty removes the first node, frees exactly it, and leaves
-- a queue of the others.
pub pop-IsQueue :
    {h : Memory} {q : TaskQueue} {c : Ptr × ℕ} (xs : Cells)
    → IsQueue h q (c ∷ xs)
    → Returns
        (task_queue_pop q h)
        xs
        (λ g. (g q.phead ≡ none) × ((a : Ptr) → a ≢ q.phead → g a ≡ h a))
pop-IsQueue {q} xs is = pop-Chain q.queue_size xs is.links is.size

front-Chain :
    {h : Memory} {head last p : Ptr} {v : ℕ} {xs : Cells} (n : ℕ)
    → Chain h last head ((p, v) ∷ xs)
    → front (record { queue_size = n; phead = head; ptail = last }) h ≡ ok v h
unfolding front
front-Chain n (one q e ne holds) = ground arith
front-Chain n (more ne holds out c) = ground arith

-- What a worker reads before taskQueuePop is the first descriptor, and a read of an allocated node.
pub front-IsQueue :
    {h : Memory} {q : TaskQueue} {p : Ptr} {v : ℕ} {xs : Cells}
    → IsQueue h q ((p, v) ∷ xs)
    → front q h ≡ ok v h
front-IsQueue {q} is = front-Chain q.queue_size is.links

pop_empty :
    (h : Memory) (q : TaskQueue) → q.queue_size ≡ 0 → task_queue_pop q h ≡ ok (q, minus_one) h
unfolding task_queue_pop
pop_empty h q e = rw e

-- The histories of a queue: the descriptors pushed, and those read and popped, in order.
pub data Serves : Memory → TaskQueue → List ℕ → List ℕ → Type 0 where
  start : (h : Memory) → Serves h task_queue_init [] []
  pushed :
      {h g : Memory} {q q' : TaskQueue} {ins outs : List ℕ} (fresh : Ptr) (garbage : Node) (fd : ℕ)
      → Serves h q ins outs
      → fresh ≢ null
      → h fresh ≡ none
      → task_queue_push fresh garbage q fd h ≡ ok (q', pos 0) g
      → Serves g q' (ins ++ fd ∷ []) outs
  popped :
      {h g : Memory} {q q' : TaskQueue} {ins outs : List ℕ} (fd : ℕ)
      → Serves h q ins outs
      → front q h ≡ ok fd h
      → task_queue_pop q h ≡ ok (q', pos 0) g
      → Serves g q' ins (outs ++ fd ∷ [])

-- What is in the queue, given what was pushed and popped.
pub record Holds (h : Memory) (q : TaskQueue) (ins outs : List ℕ) : Type 0 where
  pub cells : Cells
  pub queue : IsQueue h q cells
  pub order : ins ≡ outs ++ map (λ c. c.1) cells

-- A call has one outcome.
same_IsQueue :
    {r : Run Memory (TaskQueue × ℤ)} {xs : Cells} {P : Memory → Type 0} {q : TaskQueue} {g : Memory}
    → Returns r xs P
    → r ≡ ok (q, pos 0) g
    → IsQueue g q xs
same_IsQueue {xs} {q} {g} ret e =
    let same_queue : ret.queue ≡ q = cc (ret.runs) in
    let same_heap : ret.heap ≡ g = cc (ret.runs) in
    subst₂ (λ h k. IsQueue h k xs) same_heap same_queue ret.holds

push_Holds :
    {h g : Memory} {q q' : TaskQueue} {ins outs : List ℕ} (fresh : Ptr) (garbage : Node) (fd : ℕ)
    → Holds h q ins outs
    → fresh ≢ null
    → h fresh ≡ none
    → task_queue_push fresh garbage q fd h ≡ ok (q', pos 0) g
    → Holds g q' (ins ++ fd ∷ []) outs
push_Holds {outs} fresh garbage fd i ne unused e = record {
  cells = i.cells ++ (fresh, fd) ∷ [];
  queue = same_IsQueue (push-IsQueue i.cells fresh garbage fd i.queue ne unused) e;
  order = rw (i.order, map-append) (append_assoc outs (map (λ c. c.1) i.cells) (fd ∷ []));
}

pop_Holds :
    {h g : Memory} {q q' : TaskQueue} {ins : List ℕ} (outs : List ℕ) (fd : ℕ) (cells : Cells)
    → IsQueue h q cells
    → ins ≡ outs ++ map (λ c. c.1) cells
    → front q h ≡ ok fd h
    → task_queue_pop q h ≡ ok (q', pos 0) g
    → Holds g q' ins (outs ++ fd ∷ [])
pop_Holds {h} {q} outs fd [] is order read e = cc (pop_empty h q is.size)
pop_Holds outs fd ((p, v) ∷ xs) is order read e =
    let first : v ≡ fd = cc (front-IsQueue is) in
    record {
      cells = xs;
      queue = same_IsQueue (pop-IsQueue xs is) e;
      order = rw order (rw first (sym (append_assoc outs (fd ∷ []) (map (λ c. c.1) xs))));
    }

-- In every history of pushes to unused addresses and of pops, the descriptors pushed are those
-- popped, in order, followed by those in the queue; and the queue is well formed.
pub Serves-Holds :
    {h : Memory} {q : TaskQueue} {ins outs : List ℕ} → Serves h q ins outs → Holds h q ins outs
Serves-Holds (start h) = record { cells = []; queue = init-IsQueue h; order = refl }
Serves-Holds (pushed fresh garbage fd s ne unused e) =
    push_Holds fresh garbage fd (Serves-Holds s) ne unused e
Serves-Holds (popped fd s read e) =
    let i = Serves-Holds s in pop_Holds _ fd i.cells i.queue i.order read e
