-- ===== src/ReadWriteLock/Create.antt =====
-- CreateReadWriteLockPreferReader, CreateReadWriteLockPreferWriter and FreeReadWriteLock. The state
-- is the kernel and the structures that malloc has handed out; what malloc returns is an argument.
use freertos_addons.Prelude.{none, some, ◌==◌, if◌then◌else◌, pos}
use freertos_addons.Machine.{ok, fault, Cmd, pure, ◌>>=◌, ◌>>◌}
use freertos_addons.Memory.{Ptr, null, Field, write}
use freertos_addons.Rtos.{Rtos}
use freertos_addons.ReadWriteLock.{RwLock, prefer_reader, prefer_writer}

pub record LockWorld (K : Type 0) : Type 0 where
  pub kernel : K
  pub locks : Field RwLock

module _ {K : Type 0} where
  abbrev pub put : Ptr → RwLock → LockWorld K → LockWorld K
  put p lock w = record w { locks = write w.locks p lock }

  -- malloc returns `new`, `NULL` if there is no memory; `old` is what the memory holds.
  unfoldable pub malloc : (new : Ptr) (old : RwLock) → Cmd (LockWorld K) Ptr
  malloc new old w = if new == null then ok null w else ok new (put new old w)

  unfoldable pub free : Ptr → Cmd (LockWorld K) (Unit {0})
  free p w = elim (w.locks p) [
    | none ↦ fault
    | some lock ↦ ok tt (record w { locks = λ a. if a == p then none else w.locks a })
  ]

  unfoldable pub get : Ptr → Cmd (LockWorld K) RwLock
  get p w = elim (w.locks p) [ none ↦ fault | some lock ↦ ok lock w ]

  -- Assignments to fields of the structure.
  unfoldable pub update : Ptr → (RwLock → RwLock) → Cmd (LockWorld K) (Unit {0})
  update p f w = elim (w.locks p) [ none ↦ fault | some lock ↦ ok tt (put p (f lock) w) ]

module _ (os : Rtos) where
  unfoldable pub create_mutex : Cmd (LockWorld os.Kernel) Ptr
  create_mutex w = let (h, k) = os.create_mutex w.kernel in ok h (record w { kernel = k })

  unfoldable pub create_binary : Cmd (LockWorld os.Kernel) Ptr
  create_binary w = let (h, k) = os.create_binary w.kernel in ok h (record w { kernel = k })

  unfoldable pub give_semaphore : Ptr → Cmd (LockWorld os.Kernel) (Unit {0})
  give_semaphore h w = ok tt (record w { kernel = os.give h w.kernel })

  -- vSemaphoreDelete, which asserts that its argument is not NULL
  unfoldable pub delete : Ptr → Cmd (LockWorld os.Kernel) (Unit {0})
  delete h w = if h == null then fault else ok tt (record w { kernel = os.delete h w.kernel })

  -- if (!handle) vSemaphoreDelete(handle), as the error paths have it
  unfoldable pub delete_if_null : Ptr → Cmd (LockWorld os.Kernel) (Unit {0})
  delete_if_null h = if h == null then delete h else pure tt

  -- The label ERROR of CreateReadWriteLockPreferReader
  unfoldable pub reader_error : Ptr → Cmd (LockWorld os.Kernel) Ptr
  reader_error p = do
    lock ← get p
    delete_if_null lock.read_lock
    lock' ← get p
    delete_if_null lock'.resource_lock
    free p
    pure null

  -- CreateReadWriteLockPreferReader
  unfoldable pub create_prefer_reader : (new : Ptr) (old : RwLock) → Cmd (LockWorld os.Kernel) Ptr
  create_prefer_reader new old = do
    p ← malloc new old
    if p == null then pure null else do
      update p (λ l. record l {
        lock_type = prefer_reader;
        read_count = pos 0;
        read_lock = null;
        resource_lock = null;
      })
      read_lock ← create_mutex
      update p (λ l. record l { read_lock = read_lock })
      if read_lock == null then reader_error p else do
        resource_lock ← create_binary
        update p (λ l. record l { resource_lock = resource_lock })
        if resource_lock == null then reader_error p else do give_semaphore resource_lock; pure p

  -- The label ERROR of CreateReadWriteLockPreferWriter
  unfoldable pub writer_error : Ptr → Cmd (LockWorld os.Kernel) Ptr
  writer_error p = do
    l₁ ← get p
    delete_if_null l₁.read_lock
    l₂ ← get p
    delete_if_null l₂.write_lock
    l₃ ← get p
    delete_if_null l₃.resource_lock
    l₄ ← get p
    delete_if_null l₄.block_readers_lock
    free p
    pure null

  -- CreateReadWriteLockPreferWriter
  unfoldable pub create_prefer_writer : (new : Ptr) (old : RwLock) → Cmd (LockWorld os.Kernel) Ptr
  create_prefer_writer new old = do
    p ← malloc new old
    if p == null then pure null else do
      update p (λ l. record {
        lock_type = prefer_writer;
        read_count = pos 0;
        read_lock = null;
        resource_lock = null;
        write_count = pos 0;
        write_lock = null;
        block_readers_lock = null;
      })
      read_lock ← create_mutex
      update p (λ l. record l { read_lock = read_lock })
      if read_lock == null then writer_error p else do
        write_lock ← create_mutex
        update p (λ l. record l { write_lock = write_lock })
        if write_lock == null then writer_error p else do
          resource_lock ← create_binary
          update p (λ l. record l { resource_lock = resource_lock })
          if resource_lock == null then writer_error p else do
            give_semaphore resource_lock
            block_readers_lock ← create_binary
            update p (λ l. record l { block_readers_lock = block_readers_lock })
            if block_readers_lock == null
                then writer_error p
                else do give_semaphore block_readers_lock; pure p

  -- FreeReadWriteLock
  unfoldable pub free_read_write_lock : Ptr → Cmd (LockWorld os.Kernel) (Unit {0})
  free_read_write_lock p = do
    lock ← get p
    elim lock.lock_type [
      | prefer_reader ↦ do delete lock.read_lock; delete lock.resource_lock; free p
      | prefer_writer ↦ do
        delete lock.read_lock
        delete lock.write_lock
        delete lock.resource_lock
        delete lock.block_readers_lock
        free p
    ]
