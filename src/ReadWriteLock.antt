-- ===== src/ReadWriteLock.antt =====
-- c/Source/read_write_lock.c: the lock and unlock functions of both kinds of reader/writer lock, as
-- the steps of tasks that share one lock. A step is one call of the kernel, one change of a count, or
-- one test.
pub mod Tally
pub mod Reach
pub mod Group
pub mod Resource
pub mod Readers
pub mod Writers
pub mod Exclusion
pub mod Barrier
pub mod BarrierReaders
pub mod BarrierWriters
pub mod Preference
pub mod Safe
pub mod Faults
pub mod Create
pub mod Store
pub mod Created
pub mod Refused
mod Tests
mod CreatedTests
use freertos_addons.Prelude.{
  ◌≡◌, ◌≢◌, Bool, false, Option, none, some, List, ◌∷◌, ◌++◌, ◌==◌, if◌then◌else◌, ℤ, pos, negsuc,
}
use freertos_addons.Machine.{Run, ok, fault, blocked, Cmd, pure, ◌>>=◌, increment, decrement}
use freertos_addons.Memory.{Ptr}
use freertos_addons.Rtos.{Rtos}

-- enum ReaderWriterLockType
pub data LockType : Type 0 where
  prefer_reader : LockType
  prefer_writer : LockType

-- RWLockPreferWriter_t, of which RWLockPreferReader_t has the first four fields.
pub record RwLock : Type 0 where
  pub lock_type : LockType
  pub read_count : ℤ
  pub read_lock : Ptr
  pub resource_lock : Ptr
  pub write_count : ℤ
  pub write_lock : Ptr
  pub block_readers_lock : Ptr

-- What the tasks share.
pub record Shared (K : Type 0) : Type 0 where
  pub lock : RwLock
  pub kernel : K

-- Where a task stands in a function: what it does next.
pub data ReaderLockPc : Type 0 where
  take_block_readers : ReaderLockPc
  take_read : ReaderLockPc
  count_reader : ReaderLockPc
  test_first : ReaderLockPc
  take_resource : ReaderLockPc
  give_read : ReaderLockPc
  give_block_readers : ReaderLockPc

pub data ReaderUnlockPc : Type 0 where
  retake_read : ReaderUnlockPc
  uncount_reader : ReaderUnlockPc
  test_last : ReaderUnlockPc
  give_resource : ReaderUnlockPc
  regive_read : ReaderUnlockPc

pub data WriterLockPc : Type 0 where
  take_write : WriterLockPc
  count_writer : WriterLockPc
  test_first_writer : WriterLockPc
  block_readers : WriterLockPc
  give_write : WriterLockPc
  await_resource : WriterLockPc

pub data WriterUnlockPc : Type 0 where
  release_resource : WriterUnlockPc
  retake_write : WriterUnlockPc
  uncount_writer : WriterUnlockPc
  test_last_writer : WriterUnlockPc
  unblock_readers : WriterUnlockPc
  regive_write : WriterUnlockPc

-- A task is outside, in a function, or has the lock for reading or for writing.
pub data Pc : Type 0 where
  idle : Pc
  in_reader_lock : ReaderLockPc → Pc
  reading : Pc
  in_reader_unlock : ReaderUnlockPc → Pc
  in_writer_lock : WriterLockPc → Pc
  writing : Pc
  in_writer_unlock : WriterUnlockPc → Pc

-- What a task outside wants.
pub data Choice : Type 0 where
  read : Choice
  write : Choice

abbrev pub is_number : Ptr → ℤ → Bool
is_number n (pos m) = m == n
is_number n (negsuc m) = false

module _ {K : Type 0} where
  abbrev pub taken : Pc → Shared K → Option K → Run (Shared K) Pc
  taken next s none = blocked
  taken next s (some k) = ok next (record s { kernel = k })

  abbrev pub by_type : (reader writer : Pc) → Shared K → Pc
  by_type reader writer s = elim s.lock.lock_type [
    | prefer_reader ↦ reader
    | prefer_writer ↦ writer
  ]

  -- A change of ReadCount or of WriteCount.
  abbrev pub set_read_count : Pc → ℤ → Cmd (Shared K) Pc
  set_read_count next n s = ok next (record s { lock = record s.lock { read_count = n } })

  abbrev pub set_write_count : Pc → ℤ → Cmd (Shared K) Pc
  set_write_count next n s = ok next (record s { lock = record s.lock { write_count = n } })

module _ (os : Rtos) where
  -- xSemaphoreTake with portMAX_DELAY, and xSemaphoreGive
  abbrev pub take : (RwLock → Ptr) → Pc → Cmd (Shared os.Kernel) Pc
  take semaphore next s = taken next s (os.take (semaphore s.lock) s.kernel)

  abbrev pub give : (RwLock → Ptr) → Pc → Cmd (Shared os.Kernel) Pc
  give semaphore next s = ok next (record s { kernel = os.give (semaphore s.lock) s.kernel })

  -- ReaderLock
  unfoldable pub reader_lock : ReaderLockPc → Cmd (Shared os.Kernel) Pc
  reader_lock take_block_readers s = take (λ l. l.block_readers_lock) (in_reader_lock take_read) s
  reader_lock take_read s = take (λ l. l.read_lock) (in_reader_lock count_reader) s
  reader_lock count_reader s =
      (increment s.lock.read_count >>= set_read_count (in_reader_lock test_first)) s
  reader_lock test_first s =
      ok
        (if is_number 1 s.lock.read_count
          then in_reader_lock take_resource
          else in_reader_lock give_read)
        s
  reader_lock take_resource s = take (λ l. l.resource_lock) (in_reader_lock give_read) s
  reader_lock give_read s =
      give (λ l. l.read_lock) (by_type reading (in_reader_lock give_block_readers) s) s
  reader_lock give_block_readers s = give (λ l. l.block_readers_lock) reading s

  -- ReaderUnlock
  unfoldable pub reader_unlock : ReaderUnlockPc → Cmd (Shared os.Kernel) Pc
  reader_unlock retake_read s = take (λ l. l.read_lock) (in_reader_unlock uncount_reader) s
  reader_unlock uncount_reader s =
      (decrement s.lock.read_count >>= set_read_count (in_reader_unlock test_last)) s
  reader_unlock test_last s =
      ok
        (if is_number 0 s.lock.read_count
          then in_reader_unlock give_resource
          else in_reader_unlock regive_read)
        s
  reader_unlock give_resource s = give (λ l. l.resource_lock) (in_reader_unlock regive_read) s
  reader_unlock regive_read s = give (λ l. l.read_lock) idle s

  -- WriterLock
  unfoldable pub writer_lock : WriterLockPc → Cmd (Shared os.Kernel) Pc
  writer_lock take_write s = take (λ l. l.write_lock) (in_writer_lock count_writer) s
  writer_lock count_writer s =
      (increment s.lock.write_count >>= set_write_count (in_writer_lock test_first_writer)) s
  writer_lock test_first_writer s =
      ok
        (if is_number 1 s.lock.write_count
          then in_writer_lock block_readers
          else in_writer_lock give_write)
        s
  writer_lock block_readers s = take (λ l. l.block_readers_lock) (in_writer_lock give_write) s
  writer_lock give_write s = give (λ l. l.write_lock) (in_writer_lock await_resource) s
  writer_lock await_resource s = take (λ l. l.resource_lock) writing s

  -- WriterUnlock
  unfoldable pub writer_unlock : WriterUnlockPc → Cmd (Shared os.Kernel) Pc
  writer_unlock release_resource s =
      give (λ l. l.resource_lock) (by_type idle (in_writer_unlock retake_write) s) s
  writer_unlock retake_write s = take (λ l. l.write_lock) (in_writer_unlock uncount_writer) s
  writer_unlock uncount_writer s =
      (decrement s.lock.write_count >>= set_write_count (in_writer_unlock test_last_writer)) s
  writer_unlock test_last_writer s =
      ok
        (if is_number 0 s.lock.write_count
          then in_writer_unlock unblock_readers
          else in_writer_unlock regive_write)
        s
  writer_unlock unblock_readers s =
      give (λ l. l.block_readers_lock) (in_writer_unlock regive_write) s
  writer_unlock regive_write s = give (λ l. l.write_lock) idle s

  -- The next step of a task. The tests of `lock->Type` at the beginning of a function are made when
  -- it is called.
  unfoldable pub exec : Choice → Pc → Cmd (Shared os.Kernel) Pc
  exec read idle s = ok (by_type (in_reader_lock take_read) (in_reader_lock take_block_readers) s) s
  exec write idle s = ok (by_type (in_writer_lock await_resource) (in_writer_lock take_write) s) s
  exec c (in_reader_lock pc) s = reader_lock pc s
  exec c reading s = ok (in_reader_unlock retake_read) s
  exec c (in_reader_unlock pc) s = reader_unlock pc s
  exec c (in_writer_lock pc) s = writer_lock pc s
  exec c writing s = ok (in_writer_unlock release_resource) s
  exec c (in_writer_unlock pc) s = writer_unlock pc s

-- The lock and all tasks.
pub record System (K : Type 0) : Type 0 where
  pub shared : Shared K
  pub tasks : List Pc

-- One task makes one step.
pub data Step (os : Rtos) : System os.Kernel → System os.Kernel → Type 0 where
  step :
      (c : Choice) (before after : List Pc) (p q : Pc) (s s' : Shared os.Kernel)
      → exec os c p s ≡ ok q s'
      → Step os
          (record { shared = s; tasks = before ++ p ∷ after })
          (record { shared = s'; tasks = before ++ q ∷ after })

-- Any number of steps.
pub data Reaches (os : Rtos) : System os.Kernel → System os.Kernel → Type 0 where
  start : (s : System os.Kernel) → Reaches os s s
  then_step : (s t u : System os.Kernel) → Reaches os s t → Step os t u → Reaches os s u
