-- ===== src/Server/TaskQueue.antt =====
-- NexFile/server/taskQueue.c: a linked list of descriptors on an explicit heap. What `malloc`
-- returns is an argument: an address, null when it fails, and the bytes that lie there, which the
-- source does not initialise.
pub mod Chain
pub mod Fifo
use nex_file.Base.{ℕ, ◌+◌, ◌-◌, ℤ, pos, minus_one, Option, none, some, ◌==◌, if◌then◌else◌}
use nex_file.Base.Io.{Io, ok, pure, fail_undefined, exit, ◌>>=◌, ◌>>◌}

abbrev pub Ptr : Type 0
Ptr = ℕ

abbrev pub null : Ptr
null = 0

-- `node_t`
pub record Node : Type 0 where
  pub net_fd : ℕ
  pub next : Ptr

abbrev pub node : ℕ → Ptr → Node
node v q = record { net_fd = v; next = q }

-- `TaskQueue_t`
pub record TaskQueue : Type 0 where
  pub queue_size : ℕ
  pub phead : Ptr
  pub ptail : Ptr

abbrev pub Memory : Type 0
Memory = Ptr → Option Node

unfoldable pub poke : Memory → Ptr → Option Node → Memory
poke h p c a = if a == p then c else h a

-- `*p`: undefined at null and at an address that is not allocated.
unfoldable pub load : Ptr → Io Memory Node
load p h =
    if p == null then fail_undefined h else elim (h p) [ none ↦ fail_undefined h | some n ↦ ok n h ]

abbrev pub store : Ptr → Option Node → Io Memory (Unit {0})
store p c h = ok tt (poke h p c)

-- taskQueueInit
abbrev pub task_queue_init : TaskQueue
task_queue_init = record { queue_size = 0; phead = null; ptail = null }

-- taskQueuePush behind its `malloc`: `p` is the new node.
link_new : Ptr → TaskQueue → Io Memory TaskQueue
link_new p q =
    if q.queue_size == 0
    then pure (record { queue_size = q.queue_size + 1; phead = p; ptail = p })
    else do
      tail ← load q.ptail
      store q.ptail (some (record tail { next = p }))
      pure (record { queue_size = q.queue_size + 1; phead = q.phead; ptail = p })

-- taskQueuePush. `garbage` is what the new node holds before `netFd` is written.
unfoldable pub task_queue_push :
    (fresh : Ptr) (garbage : Node) → TaskQueue → ℕ → Io Memory (TaskQueue × ℤ)
unfolding link_new load poke
task_queue_push fresh garbage q net_fd = if fresh == null then exit else do
  store fresh (some (record garbage { net_fd = net_fd }))
  q' ← link_new fresh q
  pure (q', pos 0)

-- taskQueuePop
unfoldable pub task_queue_pop : TaskQueue → Io Memory (TaskQueue × ℤ)
unfolding load poke
task_queue_pop q = if q.queue_size == 0 then pure (q, minus_one) else do
  cur ← load q.phead
  store q.phead none
  pure (
    record {
      queue_size = q.queue_size - 1;
      phead = cur.next;
      ptail = if q.queue_size == 1 then null else q.ptail;
    },
    pos 0,
  )

-- `phead_->netFd`, as workerFunc reads it before taskQueuePop
unfoldable pub front : TaskQueue → Io Memory ℕ
unfolding load
front q = do n ← load q.phead; pure n.net_fd
