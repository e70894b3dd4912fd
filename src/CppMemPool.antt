-- ===== src/CppMemPool.antt =====
-- c++/Source/cmem_pool.cpp and mem_pool.hpp: the class MemoryPool, whose free blocks are a std::list.
-- The kernel is a parameter; what malloc returns is an argument. An exception is a value.
pub mod Items
pub mod Construct
pub mod Add
pub mod Ledger
mod Tests
use freertos_addons.Prelude.{
  ℕ, zero, suc, ◌+◌, ◌-◌, ◌*◌, ◌/◌, ◌%◌, Bool, true, false, ◌==◌, leb, if◌then◌else◌, ℤ, pos,
  negsuc, rounds_of, Option, none, some, List, [], ◌∷◌, ◌++◌,
}
use freertos_addons.Machine.{Run, ok, blocked, Cmd, pure, out_of_fuel, ◌>>=◌, ◌>>◌}
use freertos_addons.Memory.{Ptr, null, Field, write}
use freertos_addons.Rtos.{Rtos}
use freertos_addons.World.{to_size}
use freertos_addons.MemPool.{at_least_pointer, find_bit, in_int, product, or_fault}

-- MemoryPoolBadAlignmentException, MemoryPoolMallocException, MutexCreateException
pub data Exception : Type 0 where
  bad_alignment : Exception
  malloc_failed : Exception
  mutex_failed : Exception

pub data Outcome : Type 0 where
  returned : Outcome
  thrown : Exception → Outcome

pub record Pool : Type 0 where
  -- the handle of the mutex
  pub lock : Ptr
  pub item_size : ℕ
  pub alignment : ℕ
  pub free_items : List Ptr

pub record PoolState (K : Type 0) : Type 0 where
  pub pool : Pool
  pub kernel : K
  -- the size of each block that malloc has handed out
  pub blocks : Field ℕ

-- What CalculateValidAlignment leaves in `Alignment`; it throws where it is `none`.
abbrev pub alignment_or_throw : (alignment : ℕ) → Option ℕ → Option (Option ℕ)
alignment_or_throw alignment none = none
alignment_or_throw alignment (some i) = if leb 31 i then some none else some (some alignment)

-- MemoryPool::CalculateValidAlignment, with `none` for a fault of its loop, which is that of
-- CalculateAndVerifyAlignment
unfoldable pub calculate_valid_alignment : ℤ → Option (Option ℕ)
calculate_valid_alignment alignment =
    let a = at_least_pointer alignment in alignment_or_throw a (find_bit 31 a 0 1)

-- MemoryPool::CalculateItemSize
unfoldable pub calculate_item_size : {S : Type 0} → ℤ → ℕ → Cmd S ℕ
calculate_item_size (negsuc n) alignment = pure alignment
calculate_item_size (pos n) alignment =
    if leb n alignment
    then pure alignment
    else (let alignment_count = n / alignment in
        let rounded = if n % alignment == 0 then alignment_count else alignment_count + 1 in
        in_int (rounded * alignment))

-- FreeItems.push_back
abbrev pub push_back : Ptr → Pool → Pool
push_back item pool = record pool { free_items = pool.free_items ++ item ∷ [] }

-- `NULL` if the list is empty, and otherwise its front, which is popped
abbrev pub front : List Ptr → Ptr
front [] = null
front (item ∷ items) = item

abbrev pub tail : List Ptr → List Ptr
tail [] = []
tail (item ∷ items) = items

abbrev pub pop_front : Pool → Ptr × Pool
pop_front pool = (front pool.free_items, record pool { free_items = tail pool.free_items })

-- The loop of the first constructor.
unfoldable pub push_items : (rounds : ℕ) → (address size : ℕ) → Pool → Pool
push_items zero address size pool = pool
push_items (suc rounds) address size pool =
    push_items rounds (address + size) size (push_back address pool)

module _ {K : Type 0} where
  -- The loop of the constructor that is given memory, with fuel.
  unfoldable pub push_region : (fuel : ℕ) → (address left size : ℕ) → Cmd (PoolState K) (Unit {0})
  push_region zero address left size s = out_of_fuel
  push_region (suc fuel) address left size s =
      let rest =
        push_region fuel (address + size) (left - size) size
          (record s { pool = push_back address s.pool }) in
      if leb size left then rest else ok tt s

  -- malloc
  abbrev pub obtained : (new : Ptr) → (bytes : ℤ) → PoolState K → PoolState K
  obtained new bytes s =
      if new == null then s else record s { blocks = write s.blocks new (to_size bytes) }

module _ (os : Rtos) where
  -- `Lock = new MutexStandard()`, the last statement of both constructors
  unfoldable pub make_lock : Cmd (PoolState os.Kernel) Outcome
  make_lock s =
      let (h, k) = os.create_mutex s.kernel in
      if h == null
      then ok (thrown mutex_failed) (record s { kernel = k })
      else ok returned (record s { pool = record s.pool { lock = h }; kernel = k })

  -- An object with its two sizes and no item.
  abbrev pub sized : (size alignment : ℕ) → PoolState os.Kernel → PoolState os.Kernel
  sized size alignment s = record s {
    pool = record s.pool { item_size = size; alignment = alignment; free_items = [] };
  }

  abbrev pub construct_aligned :
      (new : Ptr) → (item_size item_count : ℤ) → Option ℕ → Cmd (PoolState os.Kernel) Outcome
  construct_aligned new item_size item_count none = pure (thrown bad_alignment)
  construct_aligned new item_size item_count (some a) = do
    size ← calculate_item_size item_size a
    bytes ← product item_count size
    λ s.
        (let s' = obtained new bytes (sized size a s) in
          if new == null
          then ok (thrown malloc_failed) s'
          else make_lock (record s' { pool = push_items (rounds_of item_count) new size s'.pool }))

  -- MemoryPool::MemoryPool that obtains its memory by malloc, which returns `new`.
  unfoldable pub construct :
      (new : Ptr) → (item_size item_count alignment : ℤ) → Cmd (PoolState os.Kernel) Outcome
  construct new item_size item_count alignment =
      or_fault (calculate_valid_alignment alignment) >>= construct_aligned new item_size item_count

  abbrev pub construct_static_aligned :
      (fuel : ℕ)
      → (item_size : ℤ) → (memory : Ptr) → (memory_size : ℤ) → Option ℕ
      → Cmd (PoolState os.Kernel) Outcome
  construct_static_aligned fuel item_size memory memory_size none = pure (thrown bad_alignment)
  construct_static_aligned fuel item_size memory memory_size (some a) = do
    size ← calculate_item_size item_size a
    λ s. (push_region fuel memory (rounds_of memory_size) size >> make_lock) (sized size a s)

  -- MemoryPool::MemoryPool that is given its memory.
  unfoldable pub construct_static :
      (fuel : ℕ)
      → (item_size : ℤ) → (memory : Ptr) → (memory_size alignment : ℤ)
      → Cmd (PoolState os.Kernel) Outcome
  construct_static fuel item_size memory memory_size alignment =
      or_fault (calculate_valid_alignment alignment)
      >>= construct_static_aligned fuel item_size memory memory_size

  -- The body of a scope that a LockGuard opens: LockGuard::LockGuard takes the mutex, and
  -- LockGuard::~LockGuard gives it back.
  abbrev pub guarded_run :
      {A : Type 0}
      → (Pool → A × Pool)
      → PoolState os.Kernel
      → Option os.Kernel
      → Run (PoolState os.Kernel) A
  guarded_run body s none = blocked
  guarded_run body s (some k) =
      let (a, pool) = body s.pool in ok a (record s { pool = pool; kernel = os.give pool.lock k })

  unfoldable pub guarded : {A : Type 0} → (Pool → A × Pool) → Cmd (PoolState os.Kernel) A
  guarded body s = guarded_run body s (os.take s.pool.lock s.kernel)

  -- MemoryPool::Allocate
  unfoldable pub allocate : Cmd (PoolState os.Kernel) Ptr
  allocate = guarded pop_front

  -- MemoryPool::Free, and a round of the loops of AddMemory
  unfoldable pub free : Ptr → Cmd (PoolState os.Kernel) (Unit {0})
  free item = guarded (λ pool. (tt, push_back item pool))

  -- The loop of AddMemory(int).
  unfoldable pub add_items : (rounds : ℕ) → (address : Ptr) → Cmd (PoolState os.Kernel) (Unit {0})
  add_items zero address = pure tt
  add_items (suc rounds) address = do
    free address
    λ s. add_items rounds (address + s.pool.item_size) s

  -- MemoryPool::AddMemory(int), where malloc returns `new`.
  unfoldable pub add_memory : (new : Ptr) → (item_count : ℤ) → Cmd (PoolState os.Kernel) Outcome
  add_memory new item_count s =
      (do
        bytes ← product item_count s.pool.item_size
        λ s'.
            (if new == null
              then ok (thrown malloc_failed) s'
              else (add_items (rounds_of item_count) new >> pure returned) (obtained new bytes s')))
        s

  -- MemoryPool::AddMemory(void *, int), with fuel; a size that is negative holds no block.
  unfoldable pub add_region : (fuel : ℕ) → (address left : ℕ) → Cmd (PoolState os.Kernel) (Unit {0})
  add_region zero address left s = out_of_fuel
  add_region (suc fuel) address left s =
      let rest =
        (do
          free address
          λ s'. add_region fuel (address + s'.pool.item_size) (left - s'.pool.item_size) s')
          s in
      if leb s.pool.item_size left then rest else ok tt s
