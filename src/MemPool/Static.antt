-- ===== src/MemPool/Static.antt =====
-- CreateMemoryPoolStatic: what pool it leaves in the memory of its caller.
use freertos_addons.Prelude.{
  ℕ, ◌+◌, ◌*◌, ◌≤◌, ◌<◌, ◌≡◌, ◌≢◌, refl, ◌⊎◌, inl, inr, false, some, [], ◌∷◌, arith, has,
  Bool-cases, ◌==◌, int_max, ◌∙◌, ◌-◌, ℤ, pos,
}
use freertos_addons.Machine.{ok}
use freertos_addons.Memory.{null}
use freertos_addons.Rtos.{Rtos, IsRtos}
use freertos_addons.Stack.{head_of}
use freertos_addons.Stack.Runs.{IsMapped}
use freertos_addons.World
use freertos_addons.World.{World, PoolInfo, Fresh, malloc}
use freertos_addons.MemPool.{
  stack_of, calculate_and_verify_alignment, calculate_item_size, create_memory_pool_static,
  struct_size,
}
use freertos_addons.MemPool.Sizes.{accepted_alignment}
use freertos_addons.MemPool.Blocks.{IsPool}
use freertos_addons.MemPool.Create.{
  init_pool-IsPool, created_fields, Placed, stacked-Placed, malloc_int,
}
use freertos_addons.MemPool.Fill.{stacked, push_static_lem}

-- Memory that is there is still there when malloc has handed out more.
obtained-IsMapped :
    {K : Type 0} (w : World K) (new : Fresh) (bytes a : ℕ)
    → IsMapped w.mem a
    → IsMapped (World.obtained new bytes w).mem a
obtained-IsMapped w new bytes a (q, at) = elim (Bool-cases (World.inside new.address bytes 8 a)) [
  | inl here ↦ (new.pointers a, rw here refl)
  | inr other ↦ (q, rw other at)
]

-- No block is the head node of a structure that stands elsewhere.
other_node :
    (memory memory_size n size i pool : ℕ)
    → i < n
    → 0 < size
    → n * size ≤ memory_size
    → (memory + memory_size ≤ pool) ⊎ (pool + struct_size ≤ memory)
    → has (memory + i * size) (head_of (stack_of pool) ∷ []) ≡ false
other_node memory memory_size n size i pool lt positive room (inl before) =
    let fits : i * size + size ≤ n * size = grind arith in ground arith
other_node memory memory_size n size i pool lt positive room (inr behind) =
    let fits : i * size + size ≤ n * size = grind arith in ground arith

module _ (os : Rtos) (laws : IsRtos os) (w : World os.Kernel) (new : Fresh) where
  -- CreateMemoryPoolStatic, where the alignment is accepted, `size` is the block size, malloc and
  -- the kernel have what it takes, and the headers of the blocks in the caller's memory are mapped
  -- and lie apart from the new structure, returns, in one round more than the memory has room for
  -- blocks, a pool whose lock is free and whose free blocks are as many as fit; they lie within the
  -- caller's memory and do not overlap.
  pub create_memory_pool_static-IsPool :
      (fuel : ℕ) (item_size alignment : ℤ) (memory memory_size a n size : ℕ)
      → calculate_and_verify_alignment alignment ≡ some a
      → ((s : World os.Kernel) → calculate_item_size item_size a s ≡ ok size s)
      → 0 < size
      → n * size ≤ memory_size
      → memory_size < n * size + size
      → n < fuel
      → n ≤ int_max
      → memory ≢ null
      → (memory + memory_size ≤ new.address) ⊎ (new.address + struct_size ≤ memory)
      → ((i : ℕ) → i < n → IsMapped w.mem (memory + i * size))
      → new.address ≢ null
      → (os.create_mutex w.kernel).0 ≢ null
      → (w' : World os.Kernel) × (create_memory_pool_static os fuel new item_size memory
            (pos memory_size)
            alignment
            w
          ≡ ok new.address w')
        × IsPool os w' new.address
            (record { lock = (os.create_mutex w.kernel).0; item_size = size; alignment = a })
            (stacked n memory size [])
        × Placed memory (memory + memory_size) size (stacked n memory size [])
  unfolding create_memory_pool_static
  create_memory_pool_static-IsPool fuel item_size alignment memory memory_size a n size accepted
        sized positive room short enough counts there apart mapped ne locked =
      let w₁ = World.obtained new (struct_size - 1) w in
      let (fields, counted, head) = created_fields w new (struct_size - 1) (omega arith) in
      let (w₂, ready, empty, only, _) =
        init_pool-IsPool os w₁ new.address size a laws ne locked fields counted head in
      let large = accepted_alignment alignment a accepted in
      let test : (a == 0) ≡ false = ground arith in
      let test' : (new.address == null) ≡ false = ground arith in
      let other = λ (i : ℕ) (lt : i < n).
        other_node memory memory_size n size i new.address lt positive room apart in
      let (m', filled, stack) =
        push_static_lem n fuel memory_size w₂ (stack_of new.address) memory size []
          (record {
            holds = empty.stack;
            positive = positive;
            ne_null = there;
            apart = other;
            mapped = λ i lt.
                let (q, at) =
                  obtained-IsMapped w new (struct_size - 1) (memory + i * size) (mapped i lt) in
                (q, only.same_next (memory + i * size) (other i lt) ∙ at);
            counts = omega arith;
          })
          room short enough in
      (
        record w₂ { mem = m' },
        rw
            (
              accepted,
              test,
              sized,
              malloc_int w new (struct_size - 1) ne (omega arith),
              test',
              ready,
              filled,
            )
            refl,
        record { ne_null = ne; fields = empty.fields; unlocked = empty.unlocked; stack = stack },
        stacked-Placed n memory size (memory + memory_size) (omega arith),
      )
