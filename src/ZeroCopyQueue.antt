-- ===== src/ZeroCopyQueue.antt =====
-- c/Source/zero_copy_queue.c: a FreeRTOS queue of pointers to the blocks of a memory pool of
-- mem_pool.c.
pub mod Kernel
pub mod Create
pub mod Pass
mod Tests
use freertos_addons.Prelude.{ℕ, Bool, true, false, Option, none, some, ◌==◌, if◌then◌else◌, ℤ, pos}
use freertos_addons.Machine.{Run, ok, fault, blocked, out_of_fuel, Cmd, pure, ◌>>=◌, ◌>>◌}
use freertos_addons.Memory.{Ptr, null, Field, write}
use freertos_addons.Rtos.{Rtos}
use freertos_addons.World
use freertos_addons.World.{World, Fresh}
use freertos_addons.MemPool.{create_memory_pool, memory_pool_allocate, memory_pool_free}
use freertos_addons.ZeroCopyQueue.Kernel.{Queues}

-- PvtZeroCopyQueue_t
pub record Info : Type 0 where
  pub pool : Ptr
  pub handle : Ptr

pub record ZcqWorld (K : Type 0) : Type 0 where
  pub world : World K
  pub zcqs : Field Info

-- sizeof(PvtZeroCopyQueue_t)
abbrev struct_size : ℕ
struct_size = 16

module _ {K : Type 0} where
  abbrev pub lift_run : {A : Type 0} → ZcqWorld K → Run (World K) A → Run (ZcqWorld K) A
  lift_run s (ok a w) = ok a (record s { world = w })
  lift_run s fault = fault
  lift_run s blocked = blocked
  lift_run s out_of_fuel = out_of_fuel

  -- A command that does not read the structures of this file.
  abbrev pub lift : {A : Type 0} → Cmd (World K) A → Cmd (ZcqWorld K) A
  lift c s = lift_run s (c s.world)

  -- malloc of a structure, which holds `old`
  unfoldable pub malloc : (new : Fresh) (old : Info) → Cmd (ZcqWorld K) Ptr
  malloc new old s =
      (do
        z ← lift (World.malloc new (pos struct_size))
        λ t. ok z (if z == null then t else record t { zcqs = write t.zcqs z old }))
        s

  unfoldable pub free : Ptr → Cmd (ZcqWorld K) (Unit {0})
  free z s =
      (do
        lift (World.free z)
        λ t. ok tt (record t { zcqs = λ a. if a == z then none else t.zcqs a }))
        s

  -- `zcq->…`
  unfoldable pub get : Ptr → Cmd (ZcqWorld K) Info
  get z s = elim (s.zcqs z) [ none ↦ fault | some info ↦ ok info s ]

  -- Assignments to the fields.
  unfoldable pub update : Ptr → (Info → Info) → Cmd (ZcqWorld K) (Unit {0})
  update z f s = elim (s.zcqs z) [
    | none ↦ fault
    | some info ↦ ok tt (record s { zcqs = write s.zcqs z (f info) })
  ]

module _ (os : Rtos) (qs : Queues os) where
  abbrev pub with_kernel : ZcqWorld os.Kernel → os.Kernel → ZcqWorld os.Kernel
  with_kernel s k = record s { world = record s.world { kernel = k } }

  -- xQueueCreate
  unfoldable pub queue_create : (item_count : ℤ) → Cmd (ZcqWorld os.Kernel) Ptr
  queue_create item_count s =
      let (h, k) = qs.create item_count s.world.kernel in ok h (with_kernel s k)

  -- vQueueDelete
  unfoldable pub queue_delete : Ptr → Cmd (ZcqWorld os.Kernel) (Unit {0})
  queue_delete h s = ok tt (with_kernel s (qs.delete h s.world.kernel))

  -- ZcqCreateQueue, where malloc returns `new` for the structure and `memory` for the pool.
  unfoldable pub zcq_create_queue :
      (new memory : Fresh)
      → (old : Info) → (item_size item_count alignment : ℤ) → Cmd (ZcqWorld os.Kernel) Ptr
  zcq_create_queue new memory old item_size item_count alignment = do
    z ← malloc new old
    if z == null then pure null else do
      h ← queue_create item_count
      update z (λ info. record info { handle = h })
      if h == null then (do free z; pure null) else do
        pool ← lift (create_memory_pool os memory item_size item_count alignment)
        update z (λ info. record info { pool = pool })
        if pool == null
            then (do free z; info ← get z; queue_delete info.handle; pure null)
            else pure z

  -- ZcqAllocateItem
  unfoldable pub zcq_allocate_item : Ptr → Cmd (ZcqWorld os.Kernel) Ptr
  zcq_allocate_item z = do info ← get z; lift (memory_pool_allocate os info.pool)

  -- ZcqFreeItem
  unfoldable pub zcq_free_item : (z item : Ptr) → Cmd (ZcqWorld os.Kernel) (Unit {0})
  zcq_free_item z item = do info ← get z; lift (memory_pool_free os info.pool item)

  -- xQueueSendToBack, and the test of its result
  unfoldable pub zcq_enqueue_item : (z item : Ptr) → (timeout : ℕ) → Cmd (ZcqWorld os.Kernel) ℕ
  zcq_enqueue_item z item timeout = do
    info ← get z
    λ s.
        (let (success, k) = qs.send info.handle item timeout s.world.kernel in
          ok (if success then 1 else 0) (with_kernel s k))

  abbrev pub item_or_null : Option Ptr → Ptr
  item_or_null none = null
  item_or_null (some item) = item

  -- ZcqDequeueItem
  unfoldable pub zcq_dequeue_item : (z : Ptr) → (timeout : ℕ) → Cmd (ZcqWorld os.Kernel) Ptr
  zcq_dequeue_item z timeout = do
    info ← get z
    λ s.
        (let (item, k) = qs.receive info.handle timeout s.world.kernel in
          ok (item_or_null item) (with_kernel s k))
