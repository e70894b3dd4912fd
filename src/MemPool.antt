-- ===== src/MemPool.antt =====
-- c/Source/mem_pool.c and mem_pool.h: pools of memory blocks of one size, on a stack of
-- stack_simple.c. The kernel is a parameter; what malloc returns is an argument.
pub mod Sizes
pub mod Blocks
pub mod Fill
pub mod Create
pub mod Extra
pub mod Static
pub mod Errors
mod Tests
use freertos_addons.Prelude.{
  ℕ, zero, suc, ◌+◌, ◌-◌, ◌*◌, ◌/◌, ◌%◌, ◌^◌, Bool, true, false, ◌==◌, ltb, leb, if◌then◌else◌, ℤ,
  pos, negsuc, int_max, neg, add_ℕ, narrow, rounds_of, Option, none, some,
}
use freertos_addons.Machine.{Cmd, pure, failing, exhausted, ◌>>=◌, ◌>>◌}
use freertos_addons.Memory.{Ptr, null}
use freertos_addons.Memory.Count.{get_count}
use freertos_addons.Rtos.{Rtos}
use freertos_addons.Stack
use freertos_addons.Stack.{is_zero}
use freertos_addons.World
use freertos_addons.World.{
  World, PoolInfo, Fresh, pointer_size, buffer_offset, malloc, free, on_mem, get_info, update_info,
}

-- Where `Stack` stands in a `MemPool_t`: behind the handle of the lock.
abbrev pub stack_of : Ptr → Ptr
stack_of pool = pool + 8

-- sizeof(MemPool_t): `Buffer[1]` and its padding stand behind the other fields.
abbrev pub struct_size : ℕ
struct_size = 40

-- Alignment < (int)sizeof(unsigned char *)
unfoldable pub at_least_pointer : ℤ → ℕ
at_least_pointer (pos n) = if ltb n pointer_size then pointer_size else n
at_least_pointer (negsuc n) = pointer_size

-- The loop of CalculateAndVerifyAlignment, with the rounds that are left: the final `i`. It is
-- `none` where `alignmentBit <<= 1` leaves the `int`.
unfoldable pub find_bit : (rounds : ℕ) → (alignment i alignment_bit : ℕ) → Option ℕ
find_bit zero alignment i alignment_bit = some i
find_bit (suc rounds) alignment i alignment_bit =
    let rest = find_bit rounds alignment (i + 1) (alignment_bit * 2) in
    if alignment == alignment_bit
    then some i
    else (if leb (alignment_bit * 2) int_max then rest else none)

abbrev pub alignment_or_zero : (alignment : ℕ) → Option ℕ → Option ℕ
alignment_or_zero alignment none = none
alignment_or_zero alignment (some i) = if leb 31 i then some 0 else some alignment

-- CalculateAndVerifyAlignment, with `none` for a fault of its loop
unfoldable pub calculate_and_verify_alignment : ℤ → Option ℕ
calculate_and_verify_alignment alignment =
    let a = at_least_pointer alignment in alignment_or_zero a (find_bit 31 a 0 1)

abbrev pub or_fault : {S A : Type 0} → Option A → Cmd S A
or_fault none = failing
or_fault (some a) = pure a

-- An `int` result that is not negative; a larger one has overflowed.
unfoldable pub in_int : {S : Type 0} → ℕ → Cmd S ℕ
in_int n = if leb n int_max then pure n else failing

-- CalculateItemSize
unfoldable pub calculate_item_size : {S : Type 0} → ℤ → ℕ → Cmd S ℕ
calculate_item_size (negsuc n) alignment = in_int (2 * alignment)
calculate_item_size (pos n) alignment =
    if leb n alignment
    then in_int (2 * alignment)
    else (let alignment_count = n / alignment in
        let rounded = if n % alignment == 0 then alignment_count else alignment_count + 1 in
        in_int ((rounded + 1) * alignment))

-- count * size on `int`s, size not negative
unfoldable pub product : {S : Type 0} → ℤ → ℕ → Cmd S ℤ
product (pos n) size = if leb (n * size) int_max then pure (pos (n * size)) else failing
product (negsuc n) size =
    if leb ((n + 1) * size) (int_max + 1) then pure (neg ((n + 1) * size)) else failing

-- `memory - alignment`, which wraps
abbrev pub node_of : (memory alignment : ℕ) → Ptr
node_of memory alignment = (memory + 2 ^ 64 - alignment) % 2 ^ 64

module _ {K : Type 0} where
  -- The loop of CreateMemoryPool: the blocks from `ptr` on go onto the stack.
  unfoldable pub push_blocks : (rounds : ℕ) → (stack ptr item_size : ℕ) → Cmd (World K) (Unit {0})
  push_blocks zero stack ptr item_size = pure tt
  push_blocks (suc rounds) stack ptr item_size = do
    on_mem (Stack.push_on_stack stack ptr)
    push_blocks rounds stack (ptr + item_size) item_size

  -- The loop of CreateMemoryPoolStatic, with fuel: as long as `left` bytes hold a block.
  unfoldable pub push_static :
      (fuel : ℕ) → (stack ptr left item_size : ℕ) → Cmd (World K) (Unit {0})
  push_static zero stack ptr left item_size = exhausted
  push_static (suc fuel) stack ptr left item_size =
      let rest = push_static fuel stack (ptr + item_size) (left - item_size) item_size in
      if leb item_size left then on_mem (Stack.push_on_stack stack ptr) >> rest else pure tt

module _ (os : Rtos) where
  -- What both creators do once the memory is there: the lock, the stack, and the two sizes.
  unfoldable pub init_pool : Ptr → (item_size alignment : ℕ) → Cmd (World os.Kernel) Bool
  init_pool pool item_size alignment = do
    lock ← World.create_mutex os
    update_info pool (λ info. record info { lock = lock })
    if lock == null then (do free pool; pure false) else do
      on_mem (Stack.init_stack (stack_of pool))
      update_info pool (λ info. record info { item_size = item_size })
      update_info pool (λ info. record info { alignment = alignment })
      pure true

  -- CreateMemoryPool
  unfoldable pub create_memory_pool :
      Fresh → (item_size item_count alignment : ℤ) → Cmd (World os.Kernel) Ptr
  create_memory_pool new item_size item_count alignment =
      or_fault (calculate_and_verify_alignment alignment) >>= λ a. if a == 0 then pure null else do
        size ← calculate_item_size item_size a
        bytes ← product item_count size
        pool ← malloc new (narrow (add_ℕ (struct_size - 1) bytes))
        if pool == null then pure null else do
          ready ← init_pool pool size a
          if ready
              then (do
                push_blocks (rounds_of item_count) (stack_of pool) (pool + buffer_offset) size
                pure pool)
              else pure null

  -- CreateMemoryPoolStatic. The memory is the caller's; a size that is negative holds no block.
  unfoldable pub create_memory_pool_static :
      (fuel : ℕ)
      → Fresh
      → (item_size : ℤ) → (memory : Ptr) → (memory_size alignment : ℤ) → Cmd (World os.Kernel) Ptr
  create_memory_pool_static fuel new item_size memory memory_size alignment =
      or_fault (calculate_and_verify_alignment alignment) >>= λ a. if a == 0 then pure null else do
        size ← calculate_item_size item_size a
        pool ← malloc new (pos (struct_size - 1))
        if pool == null then pure null else do
          ready ← init_pool pool size a
          if ready
              then (do
                push_static fuel (stack_of pool) memory (rounds_of memory_size) size
                pure pool)
              else pure null

  -- One round of the loops that add memory to a pool in use.
  unfoldable pub push_locked : (pool node : Ptr) → Cmd (World os.Kernel) (Unit {0})
  push_locked pool node = do
    info ← get_info pool
    World.take os info.lock
    on_mem (Stack.push_on_stack (stack_of pool) node)
    info' ← get_info pool
    World.give os info'.lock

  -- The loop of AddExtraMemoryToPool
  unfoldable pub push_extra : (rounds : ℕ) → (pool ptr : Ptr) → Cmd (World os.Kernel) (Unit {0})
  push_extra zero pool ptr = pure tt
  push_extra (suc rounds) pool ptr = do
    push_locked pool ptr
    info ← get_info pool
    push_extra rounds pool (ptr + info.item_size)

  -- AddExtraMemoryToPool: whether it returned pdPASS
  unfoldable pub add_extra_memory_to_pool :
      Fresh → (pool : Ptr) → (item_count : ℤ) → Cmd (World os.Kernel) Bool
  add_extra_memory_to_pool new pool item_count = do
    info ← get_info pool
    bytes ← product item_count info.item_size
    ptr ← malloc new bytes
    if ptr == null then pure false else do push_extra (rounds_of item_count) pool ptr; pure true

  -- AddExtraMemoryToPoolStatic, with fuel. The loop's test reads a size that its body never changes.
  unfoldable pub add_extra_memory_to_pool_static :
      (fuel : ℕ) → (pool memory : Ptr) → (memory_size : ℤ) → Cmd (World os.Kernel) Bool
  add_extra_memory_to_pool_static zero pool memory memory_size = exhausted
  add_extra_memory_to_pool_static (suc fuel) pool memory memory_size = do
    info ← get_info pool
    let next = (do
      push_locked pool memory
      info' ← get_info pool
      add_extra_memory_to_pool_static fuel pool (memory + info'.item_size) memory_size)
    if leb info.item_size (rounds_of memory_size) then next else pure true

  -- MemoryPoolAllocate
  unfoldable pub memory_pool_allocate : Ptr → Cmd (World os.Kernel) Ptr
  memory_pool_allocate pool = do
    info ← get_info pool
    World.take os info.lock
    count ← on_mem (get_count (stack_of pool))
    if is_zero count then (do World.give os info.lock; pure null) else do
      node ← on_mem (Stack.pop_off_stack (stack_of pool))
      World.give os info.lock
      info' ← get_info pool
      pure (node + info'.alignment)

  -- MemoryPoolFree
  unfoldable pub memory_pool_free : (pool memory : Ptr) → Cmd (World os.Kernel) (Unit {0})
  memory_pool_free pool memory = do
    info ← get_info pool
    let node = node_of memory info.alignment
    World.take os info.lock
    on_mem (Stack.push_on_stack (stack_of pool) node)
    World.give os info.lock
