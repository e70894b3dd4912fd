-- ===== src/CppMemPool/Add.antt =====
-- MemoryPool::AddMemory: memory that is added to a pool in use.
use freertos_addons.Prelude.{
  ℕ, zero, suc, ◌+◌, ◌-◌, ◌*◌, ◌≤◌, ◌<◌, ◌≡◌, ◌≢◌, refl, true, false, arith, leb, ◌==◌, ap, ◌∙◌,
  sym, pos, int_max,
}
use freertos_addons.Machine.{Run, ok}
use freertos_addons.Memory.{Ptr, null, write}
use freertos_addons.Rtos.{Rtos, IsRtos}
use freertos_addons.World.Locks.{SameLocks, held, held_lem, given_SameLocks}
use freertos_addons.MemPool.{product}
use freertos_addons.CppMemPool.{
  malloc_failed, returned, thrown, Pool, PoolState, push_back, guarded, free, add_items, add_region,
  add_memory,
}
use freertos_addons.CppMemPool.Items.{row, with_items, with_items-with_items, with_items-nil}

-- The run ends with a pool, the blocks of malloc as they were, and the same semaphores available.
abbrev pub Leaves :
    {A : Type 0} (os : Rtos) → PoolState os.Kernel → Run (PoolState os.Kernel) A → A → Pool → Type 0
Leaves os s r a pool =
    (k' : os.Kernel) × SameLocks os s.kernel k' × (r ≡ ok a (record s { pool = pool; kernel = k' }))

module _ (os : Rtos) (laws : IsRtos os) where
  -- A scope of a LockGuard, whose body leaves the handle of the mutex alone.
  pub guarded_lem :
      {A : Type 0} (body : Pool → A × Pool) (s : PoolState os.Kernel)
      → os.available s.pool.lock s.kernel ≡ true
      → (body s.pool).1.lock ≡ s.pool.lock
      → Leaves os s (guarded os body s) (body s.pool).0 (body s.pool).1
  unfolding guarded
  guarded_lem body s at same = (
    os.give s.pool.lock (held os laws s.pool.lock s.kernel at),
    given_SameLocks os laws s.pool.lock s.kernel at,
    rw (held_lem os laws s.pool.lock s.kernel at, same) refl,
  )

  pub free_lem :
      (item : Ptr) (s : PoolState os.Kernel)
      → os.available s.pool.lock s.kernel ≡ true
      → Leaves os s (free os item s) tt (push_back item s.pool)
  unfolding free
  free_lem item s at = guarded_lem (λ pool. (tt, push_back item pool)) s at refl

  add_items_lem :
      (n address : ℕ) (s : PoolState os.Kernel)
      → os.available s.pool.lock s.kernel ≡ true
      → Leaves os s
          (add_items os n address s)
          tt
          (with_items s.pool (row n address s.pool.item_size))
  unfolding add_items
  add_items_lem zero address s at = (
    s.kernel,
    λ a. refl,
    ap (λ (p : Pool). ok tt (record s { pool = p })) (sym (with_items-nil s.pool)),
  )
  add_items_lem (suc n) address s at =
      let (k, same, freed) = free_lem address s at in
      let s₁ = record s { pool = push_back address s.pool; kernel = k } in
      let (k', same', rest) =
        add_items_lem n (address + s.pool.item_size) s₁ (same s.pool.lock ∙ at) in
      (
        k',
        λ a. same' a ∙ same a,
        rw freed (
            rest
            ∙ ap (λ (p : Pool). ok tt (record s { pool = p; kernel = k' }))
                (with_items-with_items s.pool address
                  (row n (address + s.pool.item_size) s.pool.item_size))),
      )

  -- AddMemory of memory of the caller, on a pool whose lock is free, returns in one round more than
  -- the memory has room for blocks, appends those blocks, in the order of their addresses, to the
  -- free ones, and leaves the lock free.
  pub add_region_lem :
      (n fuel address left : ℕ) (s : PoolState os.Kernel)
      → os.available s.pool.lock s.kernel ≡ true
      → n * s.pool.item_size ≤ left
      → left < n * s.pool.item_size + s.pool.item_size
      → n < fuel
      → Leaves os s
          (add_region os fuel address left s)
          tt
          (with_items s.pool (row n address s.pool.item_size))
  unfolding add_region
  add_region_lem n zero address left s at room short enough = absurd (omega arith)
  add_region_lem zero (suc fuel) address left s at room short enough =
      let test : leb s.pool.item_size left ≡ false = ground arith in
      (
        s.kernel,
        λ a. refl,
        rw test (ap (λ (p : Pool). ok tt (record s { pool = p })) (sym (with_items-nil s.pool))),
      )
  add_region_lem (suc n) (suc fuel) address left s at room short enough =
      let test : leb s.pool.item_size left ≡ true = ground arith in
      let (k, same, freed) = free_lem address s at in
      let s₁ = record s { pool = push_back address s.pool; kernel = k } in
      let (k', same', rest) =
        add_region_lem n fuel (address + s.pool.item_size) (left - s.pool.item_size) s₁
          (same s.pool.lock ∙ at) (omega arith) (omega arith) (omega arith) in
      (
        k',
        λ a. same' a ∙ same a,
        rw (test, freed)
            (rest
              ∙ ap (λ (p : Pool). ok tt (record s { pool = p; kernel = k' }))
                  (with_items-with_items s.pool address
                    (row n (address + s.pool.item_size) s.pool.item_size))),
      )

  pub add_memory_lem :
      (new : Ptr) (count : ℕ) (s : PoolState os.Kernel)
      → os.available s.pool.lock s.kernel ≡ true
      → count * s.pool.item_size ≤ int_max
      → new ≢ null
      → Leaves os
          (record s { blocks = write s.blocks new (count * s.pool.item_size) })
          (add_memory os new (pos count) s)
          returned
          (with_items s.pool (row count new s.pool.item_size))
  unfolding add_memory product
  add_memory_lem new count s at fits ne =
      let bytes : leb (count * s.pool.item_size) int_max ≡ true = ground arith in
      let test : (new == null) ≡ false = ground arith in
      let (k, same, added) =
        add_items_lem count new
          (record s { blocks = write s.blocks new (count * s.pool.item_size) }) at in
      (k, same, rw (bytes, test, added) refl)

  pub add_memory_thrown :
      (count : ℕ) (s : PoolState os.Kernel)
      → count * s.pool.item_size ≤ int_max
      → add_memory os null (pos count) s ≡ ok (thrown malloc_failed) s
  unfolding add_memory product
  add_memory_thrown count s fits =
      let bytes : leb (count * s.pool.item_size) int_max ≡ true = ground arith in rw bytes refl
