-- ===== src/Tests/Queue.antt =====
-- taskQueue.c on a heap with two nodes.
use nex_file.Base.{refl, [], ◌∷◌, none, some, arith}
use nex_file.Server.TaskQueue.{
  Memory, node, poke, task_queue_push, task_queue_pop, TaskQueue, load, front,
}
use nex_file.Server.TaskQueue.Chain.{one, more}
use nex_file.Server.TaskQueue.Fifo.{IsQueue, Serves, start, pushed, popped, Holds, Serves-Holds}

abbrev empty_heap : Memory
empty_heap a = none

-- The nodes 10 and 20 with the descriptors 5 and 6; the last link is not initialised.
abbrev heap : Memory
heap = poke (poke empty_heap 10 (some (node 5 20))) 20 (some (node 6 777))

abbrev queue : TaskQueue
queue = record { queue_size = 2; phead = 10; ptail = 20 }

queue-IsQueue : IsQueue heap queue ((10, 5) ∷ (20, 6) ∷ [])
unfolding poke
queue-IsQueue = record {
  size = refl;
  links = more (omega arith) refl (omega arith) (one 777 refl (omega arith) refl);
}

-- Descriptor 5 is pushed to node 10 and popped.
history :
    Serves
      (poke (poke empty_heap 10 (some (node 5 3))) 10 none)
      (record { queue_size = 0; phead = 3; ptail = 0 })
      (5 ∷ [])
      (5 ∷ [])
unfolding poke task_queue_push task_queue_pop load front
history = popped 5 (pushed 10 (node 9 3) 5 (start empty_heap) (omega arith) refl refl) refl refl

Serves-Holds_example :
    Holds
      (poke (poke empty_heap 10 (some (node 5 3))) 10 none)
      (record { queue_size = 0; phead = 3; ptail = 0 })
      (5 ∷ [])
      (5 ∷ [])
Serves-Holds_example = Serves-Holds history
