-- ===== src/MemPool/Errors.antt =====
-- CreateMemoryPool, where something that it asks for is refused.
use freertos_addons.Prelude.{
  ℕ, ◌+◌, ◌*◌, ◌≤◌, ◌≡◌, ◌≢◌, refl, true, false, none, some, arith, ◌==◌, int_max, ◌∙◌, leb, ◌-◌, ℤ,
  pos,
}
use freertos_addons.Machine.{ok, fault}
use freertos_addons.Memory.{Ptr, null}
use freertos_addons.Memory.Write.{write_self, write_ne}
use freertos_addons.Rtos.{Rtos}
use freertos_addons.World
use freertos_addons.World.{World, Fresh, malloc}
use freertos_addons.MemPool.{
  calculate_and_verify_alignment, calculate_item_size, product, create_memory_pool, struct_size,
}
use freertos_addons.MemPool.Sizes.{accepted_alignment}
use freertos_addons.MemPool.Create.{init_pool-null, created_fields, malloc_int}

malloc_none :
    {K : Type 0} (w : World K) (new : Fresh) (bytes : ℤ)
    → new.address ≡ null
    → malloc new bytes w ≡ ok null w
unfolding malloc
malloc_none w new bytes empty = ground arith

module _ (os : Rtos) (w : World os.Kernel) (new : Fresh) where
  -- CreateMemoryPool without memory from malloc.
  pub create_memory_pool_refused :
      (item_size alignment : ℤ) (a n size : ℕ)
      → calculate_and_verify_alignment alignment ≡ some a
      → ((s : World os.Kernel) → calculate_item_size item_size a s ≡ ok size s)
      → struct_size + n * size ≤ int_max
      → new.address ≡ null
      → create_memory_pool os new item_size (pos n) alignment w ≡ ok null w
  unfolding create_memory_pool product
  create_memory_pool_refused item_size alignment a n size accepted sized fits empty =
      let large = accepted_alignment alignment a accepted in
      let test : (a == 0) ≡ false = ground arith in
      let in_range : leb (n * size) int_max ≡ true = ground arith in
      rw (accepted, test, sized, in_range, malloc_none w new _ empty) refl

  -- CreateMemoryPool with an alignment at which the loop of CalculateAndVerifyAlignment overflows.
  pub create_memory_pool_fault :
      (item_size alignment : ℤ) (count : ℤ)
      → calculate_and_verify_alignment alignment ≡ none
      → create_memory_pool os new item_size count alignment w ≡ fault
  unfolding create_memory_pool
  create_memory_pool_fault item_size alignment count refused = rw refused refl

  -- CreateMemoryPool with an accepted alignment, sizes that fit an `int` and memory from malloc,
  -- but without a mutex from the kernel, returns `NULL`, and the block that it obtained is no
  -- longer allocated, while every other block is as it was.
  pub create_memory_pool-no_lock :
      (item_size alignment : ℤ) (a n size : ℕ)
      → calculate_and_verify_alignment alignment ≡ some a
      → ((s : World os.Kernel) → calculate_item_size item_size a s ≡ ok size s)
      → struct_size + n * size ≤ int_max
      → new.address ≢ null
      → (os.create_mutex w.kernel).0 ≡ null
      → (w' : World os.Kernel) × (create_memory_pool os new item_size (pos n) alignment w
          ≡ ok null w')
        × (w'.blocks new.address ≡ none)
        × ((a : Ptr) → a ≢ new.address → w'.blocks a ≡ w.blocks a)
  unfolding create_memory_pool product
  create_memory_pool-no_lock item_size alignment a n size accepted sized fits ne failed =
      let bytes = struct_size - 1 + n * size in
      let w₁ = World.obtained new bytes w in
      let (fields, _, _) = created_fields w new bytes (omega arith) in
      let (w', ran, gone, others) =
        init_pool-null os w₁ new.address size a ne failed fields
          (write_self w.blocks new.address bytes) in
      let large = accepted_alignment alignment a accepted in
      let test : (a == 0) ≡ false = ground arith in
      let test' : (new.address == null) ≡ false = ground arith in
      let in_range : leb (n * size) int_max ≡ true = ground arith in
      (
        w',
        rw (accepted, test, sized, in_range, malloc_int w new bytes ne (omega arith), test', ran)
            refl,
        gone,
        λ a other. others a other ∙ write_ne w.blocks new.address bytes a other,
      )
