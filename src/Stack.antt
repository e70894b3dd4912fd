-- ===== src/Stack.antt =====
-- c/Source/stack_simple.c and stack_simple.h: a stack of nodes, on a list of slist.c.
pub mod Lifo
pub mod Runs
mod Tests
use freertos_addons.Prelude.{ℕ, ◌+◌, Bool, true, false, ◌==◌, if◌then◌else◌, ℤ, pos, negsuc}
use freertos_addons.Machine.{Cmd, pure, ◌>>=◌, ◌>>◌, increment, decrement}
use freertos_addons.Memory.{Ptr, null, Mem}
use freertos_addons.Memory.Count.{get_count, set_count}
use freertos_addons.Slist

-- Where `Head` stands in a `Stack_t`: behind the `int`, at the alignment of a 64-bit pointer.
abbrev pub head_of : Ptr → Ptr
head_of stack = stack + 8

abbrev pub is_zero : ℤ → Bool
is_zero (pos n) = n == 0
is_zero (negsuc n) = false

-- InitStack
unfoldable pub init_stack : Ptr → Cmd Mem (Unit {0})
init_stack stack = do set_count stack (pos 0); Slist.init_head (head_of stack)

-- PushOnStack
unfoldable pub push_on_stack : Ptr → Ptr → Cmd Mem (Unit {0})
push_on_stack stack node = if stack == null then pure tt else if node == null then pure tt else do
  Slist.add_node_to_head (head_of stack) node
  count ← get_count stack
  count' ← increment count
  set_count stack count'

-- PopOffStack
unfoldable pub pop_off_stack : Ptr → Cmd Mem Ptr
pop_off_stack stack = if stack == null then pure null else do
  count ← get_count stack
  if is_zero count then pure null else do
    count' ← decrement count
    set_count stack count'
    Slist.remove_node_from_head (head_of stack)

-- IsStackEmpty
unfoldable pub is_stack_empty : Ptr → Cmd Mem Bool
is_stack_empty stack = do count ← get_count stack; pure (is_zero count)
