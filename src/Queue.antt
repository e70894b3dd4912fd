-- ===== src/Queue.antt =====
-- c/Source/queue_simple.c and queue_simple.h: a queue of nodes, on a ring of dlist.c.
pub mod Fifo
pub mod Runs
mod Tests
use freertos_addons.Prelude.{ℕ, ◌+◌, Bool, true, false, ◌==◌, if◌then◌else◌, ℤ, pos, negsuc}
use freertos_addons.Machine.{Cmd, pure, ◌>>=◌, ◌>>◌, increment, decrement}
use freertos_addons.Memory.{Ptr, null, Mem}
use freertos_addons.Memory.Count.{get_count, set_count}
use freertos_addons.Dlist

-- Where `Head` stands in a `Queue_t`: behind the `int`, at the alignment of a 64-bit pointer.
abbrev pub head_of : Ptr → Ptr
head_of queue = queue + 8

-- `<= 0` and `== 0` on an `int`.
abbrev pub is_nonpos : ℤ → Bool
is_nonpos (pos n) = n == 0
is_nonpos (negsuc n) = true

abbrev pub is_zero : ℤ → Bool
is_zero (pos n) = n == 0
is_zero (negsuc n) = false

-- InitQueue
unfoldable pub init_queue : Ptr → Cmd Mem (Unit {0})
init_queue queue =
    if queue == null then pure tt else do set_count queue (pos 0); Dlist.init_head (head_of queue)

-- Enqueue
unfoldable pub enqueue : Ptr → Ptr → Cmd Mem (Unit {0})
enqueue queue node = if queue == null then pure tt else if node == null then pure tt else do
  count ← get_count queue
  count' ← increment count
  set_count queue count'
  Dlist.add_node_to_head (head_of queue) node

-- Dequeue
unfoldable pub dequeue : Ptr → Cmd Mem Ptr
dequeue queue = if queue == null then pure null else do
  count ← get_count queue
  if is_nonpos count then pure null else do
    count' ← decrement count
    set_count queue count'
    Dlist.remove_node_from_tail (head_of queue)

-- IsQueueEmpty
unfoldable pub is_queue_empty : Ptr → Cmd Mem Bool
is_queue_empty queue = do count ← get_count queue; pure (is_zero count)
