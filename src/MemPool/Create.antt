-- ===== src/MemPool/Create.antt =====
-- CreateMemoryPool and CreateMemoryPoolStatic: what pool they leave, and where its blocks stand.
use freertos_addons.Prelude.{
  Option, ℕ, ◌+◌, ◌*◌, ◌≤◌, ◌<◌, ◌≡◌, ◌≢◌, refl, true, false, none, some, List, [], ◌∷◌, arith, has,
  ◌==◌, int_max, ap, ◌∙◌, leb, ◌-◌, ℤ, pos, narrow,
}
use freertos_addons.Machine.{ok}
use freertos_addons.Memory.{Ptr, null, write}
use freertos_addons.Memory.Write.{write_self}
use freertos_addons.Rtos.{Rtos, IsRtos}
use freertos_addons.Stack.{head_of}
use freertos_addons.Stack.Lifo.{OnlyStack, init_stack-LeavesStack}
use freertos_addons.Stack.Runs.{IsMapped}
use freertos_addons.World
use freertos_addons.World.{
  World, PoolInfo, Fresh, malloc, free, get_info, update_info, buffer_offset, inside, map_mem,
  map_region,
}
use freertos_addons.World.Locks.{update_info_lem}
use freertos_addons.MemPool.{
  stack_of, init_pool, calculate_and_verify_alignment, calculate_item_size, product,
  create_memory_pool, struct_size,
}
use freertos_addons.MemPool.Sizes.{accepted_alignment}
use freertos_addons.MemPool.Blocks.{IsPool}
use freertos_addons.MemPool.Fill.{stacked, push_blocks_lem, stacked_apart, stacked_within}

module _ (os : Rtos) (w : World os.Kernel) (pool : Ptr) (size alignment : ℕ) where
  -- The handle that the kernel makes.
  abbrev pub new_lock : Ptr
  new_lock = (os.create_mutex w.kernel).0

  abbrev pub new_info : PoolInfo
  new_info = record { lock = new_lock; item_size = size; alignment = alignment }

  -- Without a lock, the memory is given back.
  pub init_pool-null :
      {info : PoolInfo} {bytes : ℕ}
      → pool ≢ null
      → new_lock ≡ null
      → w.pool pool ≡ some info
      → w.blocks pool ≡ some bytes
      → (w' : World os.Kernel) × (init_pool os pool size alignment w ≡ ok false w')
        × (w'.blocks pool ≡ none)
        × ((a : Ptr) → a ≢ pool → w'.blocks a ≡ w.blocks a)
  unfolding init_pool World.create_mutex free
  init_pool-null {info} {bytes} ne failed fields block =
      let w₁ : World os.Kernel = record w { kernel = (os.create_mutex w.kernel).1 } in
      let test : (new_lock == null) ≡ true = ground arith in
      let w₂ : World os.Kernel = record w₁ {
        pool = write w₁.pool pool (record info { lock = new_lock });
      } in
      (
        World.released pool bytes w₂,
        rw
            (
              update_info_lem w₁ pool {info = info} (λ i. record i { lock = new_lock }) ne fields,
              test,
              block,
            )
            refl,
        ground arith,
        λ a other. ground arith,
      )

  -- With a lock, the pool is there, and no block is free yet.
  pub init_pool-IsPool :
      (laws : IsRtos os) {info : PoolInfo} {c : ℤ} {q : Ptr}
      → pool ≢ null
      → new_lock ≢ null
      → w.pool pool ≡ some info
      → w.mem.count (stack_of pool) ≡ some c
      → w.mem.sl_next (head_of (stack_of pool)) ≡ some q
      → (w' : World os.Kernel) × (init_pool os pool size alignment w ≡ ok true w')
        × IsPool os w' pool new_info []
        × OnlyStack (stack_of pool) (head_of (stack_of pool) ∷ []) w.mem w'.mem
        × (w'.blocks ≡ w.blocks)
  unfolding init_pool World.create_mutex
  init_pool-IsPool laws {info} ne locked fields count head =
      let stack = init_stack-LeavesStack w.mem (stack_of pool) (omega arith) count head in
      let w₁ : World os.Kernel = record w { kernel = (os.create_mutex w.kernel).1 } in
      let info₁ : PoolInfo = record info { lock = new_lock } in
      let w₂ : World os.Kernel = record w₁ { pool = write w₁.pool pool info₁ } in
      let w₃ : World os.Kernel = record w₂ { mem = stack.after } in
      let info₂ : PoolInfo = record info₁ { item_size = size } in
      let w₄ : World os.Kernel = record w₃ { pool = write w₃.pool pool info₂ } in
      let w₅ : World os.Kernel = record w₄ { pool = write w₄.pool pool new_info } in
      let test : (new_lock == null) ≡ false = ground arith in
      (
        w₅,
        rw
            (
              update_info_lem w₁ pool {info = info} (λ i. record i { lock = new_lock }) ne fields,
              test,
              stack.runs,
              update_info_lem w₃ pool {info = info₁} (λ i. record i { item_size = size }) ne
                  (write_self w₁.pool pool info₁),
              update_info_lem w₄ pool {info = info₂} (λ i. record i { alignment = alignment }) ne
                  (write_self w₃.pool pool info₂),
            )
            refl,
        record {
          ne_null = ne;
          fields = write_self w₄.pool pool new_info;
          unlocked = laws.create_mutex_available w.kernel locked;
          stack = stack.holds;
        },
        stack.only,
        refl,
      )

-- Blocks of `size` bytes between two addresses, of which no two overlap.
pub record Placed (from to size : ℕ) (xs : List Ptr) : Type 0 where
  pub within : (a : Ptr) → has a xs ≡ true → (from ≤ a) × (a + size ≤ to)
  pub apart : (a b : Ptr) → has a xs ≡ true → has b xs ≡ true → a < b → a + size ≤ b

pub stacked-Placed :
    (n ptr size to : ℕ) → ptr + n * size ≤ to → Placed ptr to size (stacked n ptr size [])
stacked-Placed n ptr size to room = record {
  within = λ a i. let (low, high) = stacked_within n ptr size a i in (low, omega arith);
  apart = stacked_apart n ptr size;
}

-- malloc of a number of bytes that an `int` holds.
pub malloc_int :
    {K : Type 0} (w : World K) (new : Fresh) (bytes : ℕ)
    → new.address ≢ null
    → bytes ≤ int_max
    → malloc new (narrow (pos bytes)) w ≡ ok new.address (World.obtained new bytes w)
unfolding malloc
malloc_int w new bytes ne fits =
    let test : (new.address == null) ≡ false = ground arith in
    let in_range : leb bytes int_max ≡ true = ground arith in rw (in_range, test) refl

-- The memory that malloc has handed out can hold the structure and `n` blocks.
pub created_fields :
    {K : Type 0} (w : World K) (new : Fresh) (bytes : ℕ)
    → struct_size - 1 ≤ bytes
    → ((World.obtained new bytes w).pool new.address ≡ some (new.infos new.address))
      × ((World.obtained new bytes w).mem.count (stack_of new.address)
          ≡ some (new.ints (stack_of new.address)))
      × ((World.obtained new bytes w).mem.sl_next (head_of (stack_of new.address))
          ≡ some (new.pointers (head_of (stack_of new.address))))
created_fields w new bytes enough = (ground arith, ground arith, ground arith)

created_block :
    {K : Type 0} (w : World K) (new : Fresh) (n size i : ℕ)
    → i < n
    → 0 < size
    → IsMapped
        (World.obtained new (struct_size - 1 + n * size) w).mem
        (new.address + buffer_offset + i * size)
created_block w new n size i lt positive =
    let room : i * size + size ≤ n * size = grind arith in
    (new.pointers (new.address + buffer_offset + i * size), ground arith)

module _ (os : Rtos) (laws : IsRtos os) (w : World os.Kernel) (new : Fresh) where
  -- CreateMemoryPool, where the alignment is accepted, `size` is the block size that
  -- CalculateItemSize returns, all sizes fit an `int`, and malloc and the kernel have what it
  -- takes, returns a pool whose lock is free and whose free blocks are `n` blocks of that size; the
  -- blocks lie within the memory that malloc handed out and do not overlap.
  pub create_memory_pool-IsPool :
      (item_size alignment : ℤ) (a n size : ℕ)
      → calculate_and_verify_alignment alignment ≡ some a
      → ((s : World os.Kernel) → calculate_item_size item_size a s ≡ ok size s)
      → 0 < size
      → struct_size + n * size ≤ int_max
      → n ≤ int_max
      → new.address ≢ null
      → (os.create_mutex w.kernel).0 ≢ null
      → (w' : World os.Kernel) × (create_memory_pool os new item_size (pos n) alignment w
          ≡ ok new.address w')
        × IsPool os w' new.address
            (record { lock = (os.create_mutex w.kernel).0; item_size = size; alignment = a })
            (stacked n (new.address + buffer_offset) size [])
        × (w'.blocks new.address ≡ some (struct_size - 1 + n * size))
        × Placed
            (new.address + buffer_offset)
            (new.address + (struct_size - 1 + n * size))
            size
            (stacked n (new.address + buffer_offset) size [])
  unfolding create_memory_pool product
  create_memory_pool-IsPool item_size alignment a n size accepted sized positive fits count ne
        locked =
      let bytes = struct_size - 1 + n * size in
      let w₁ = World.obtained new bytes w in
      let (fields, counted, head) = created_fields w new bytes (omega arith) in
      let (w₂, ready, empty, only, same_blocks) =
        init_pool-IsPool os w₁ new.address size a laws ne locked fields counted head in
      let large = accepted_alignment alignment a accepted in
      let test : (a == 0) ≡ false = ground arith in
      let test' : (new.address == null) ≡ false = ground arith in
      let in_range : leb (n * size) int_max ≡ true = ground arith in
      let (m', filled, stack) =
        push_blocks_lem n w₂ (stack_of new.address) (new.address + buffer_offset) size [] (record {
          holds = empty.stack;
          positive = positive;
          ne_null = omega arith;
          apart = λ i lt. ground arith;
          mapped = λ i lt.
              let (q, at) = created_block w new n size i lt positive in
              (q, only.same_next (new.address + buffer_offset + i * size) (ground arith) ∙ at);
          counts = omega arith;
        }) in
      (
        record w₂ { mem = m' },
        rw
            (
              accepted,
              test,
              sized,
              in_range,
              malloc_int w new bytes ne (omega arith),
              test',
              ready,
              filled,
            )
            refl,
        record { ne_null = ne; fields = empty.fields; unlocked = empty.unlocked; stack = stack },
        ap (λ (f : Ptr → Option ℕ). f new.address) same_blocks
            ∙ write_self w.blocks new.address bytes,
        stacked-Placed n (new.address + buffer_offset) size (new.address + bytes) (omega arith),
      )
