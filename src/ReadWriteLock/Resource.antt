-- ===== src/ReadWriteLock/Resource.antt =====
-- The readers of read_write_lock.c as a group that holds ResourceLock, against the writers: where
-- the tasks stand, and the invariant.
use freertos_addons.Prelude.{ℕ, ◌+◌, ◌≡◌, ◌≢◌, List, arith, ℤ, pos, ap}
use freertos_addons.Memory.{Ptr}
use freertos_addons.Rtos.{Rtos, IsRtos, SameBut}
use freertos_addons.ReadWriteLock.{
  Pc, in_reader_lock, reading, in_reader_unlock, writing, in_writer_unlock, count_reader,
  test_first, take_resource, give_read, give_block_readers, retake_read, uncount_reader, test_last,
  give_resource, regive_read, release_resource, RwLock, Shared,
}
use freertos_addons.ReadWriteLock.Group.{IsGroup, IsGroup-move}
use freertos_addons.ReadWriteLock.Tally.{beside, up}

-- The tasks that hold `ReadLock`, but are not at a place of its own below.
abbrev pub holds_read : Pc → ℕ
holds_read (in_reader_lock count_reader) = 1
holds_read (in_reader_lock give_read) = 1
holds_read (in_reader_unlock uncount_reader) = 1
holds_read (in_reader_unlock regive_read) = 1
holds_read p = 0

-- A reader that has counted itself, and does not know yet whether it is the first.
abbrev pub is_testing_first : Pc → ℕ
is_testing_first (in_reader_lock test_first) = 1
is_testing_first p = 0

abbrev pub is_locking : Pc → ℕ
is_locking (in_reader_lock take_resource) = 1
is_locking p = 0

-- A reader that is no longer counted, and does not know yet whether it was the last.
abbrev pub is_testing_last : Pc → ℕ
is_testing_last (in_reader_unlock test_last) = 1
is_testing_last p = 0

abbrev pub is_unlocking : Pc → ℕ
is_unlocking (in_reader_unlock give_resource) = 1
is_unlocking p = 0

-- A reader in the critical section.
abbrev pub is_reading : Pc → ℕ
is_reading reading = 1
is_reading p = 0

-- Any other reader that is counted.
abbrev pub is_counted : Pc → ℕ
is_counted (in_reader_lock give_read) = 1
is_counted (in_reader_lock give_block_readers) = 1
is_counted (in_reader_unlock retake_read) = 1
is_counted (in_reader_unlock uncount_reader) = 1
is_counted p = 0

-- A writer that holds `ResourceLock`.
abbrev pub is_writing : Pc → ℕ
is_writing writing = 1
is_writing (in_writer_unlock release_resource) = 1
is_writing p = 0

-- The semaphores of a lock are four.
pub record IsDistinct (lock : RwLock) : Type 0 where
  pub read_resource : lock.read_lock ≢ lock.resource_lock
  pub read_write : lock.read_lock ≢ lock.write_lock
  pub read_block : lock.read_lock ≢ lock.block_readers_lock
  pub resource_write : lock.resource_lock ≢ lock.write_lock
  pub resource_block : lock.resource_lock ≢ lock.block_readers_lock
  pub write_block : lock.write_lock ≢ lock.block_readers_lock

-- The counts are no part of it.
pub IsDistinct-counts :
    (lock : RwLock) (n m : ℤ)
    → IsDistinct lock
    → IsDistinct (record lock { read_count = n; write_count = m })
IsDistinct-counts lock n m d = record {
  read_resource = d.read_resource;
  read_write = d.read_write;
  read_block = d.read_block;
  resource_write = d.resource_write;
  resource_block = d.resource_block;
  write_block = d.write_block;
}

-- The invariant, with the weights of the tasks.
pub record Exclusive (os : Rtos) (s : Shared os.Kernel) (weight : (Pc → ℕ) → ℕ) : Type 0 where
  pub count : ℕ
  pub counts : s.lock.read_count ≡ pos count
  pub distinct : IsDistinct s.lock
  pub group :
      IsGroup count
        (up (os.available s.lock.read_lock s.kernel))
        (up (os.available s.lock.resource_lock s.kernel))
        (weight holds_read)
        (weight is_testing_first)
        (weight is_locking)
        (weight is_testing_last)
        (weight is_unlocking)
        (weight is_reading)
        (weight is_counted)
        (weight is_writing)

module _ (os : Rtos) (rest : List Pc) where
  abbrev pub Kept : Pc → Shared os.Kernel → Type 0
  Kept q s = Exclusive os s (beside q rest)

  -- A step between places that count alike.
  pub moved :
      (p q : Pc) (s : Shared os.Kernel) (k : os.Kernel)
      → Kept p s
      → up (os.available s.lock.read_lock k) + holds_read q
        ≡ up (os.available s.lock.read_lock s.kernel) + holds_read p
      → is_testing_first q ≡ is_testing_first p
      → is_locking q ≡ is_locking p
      → is_testing_last q ≡ is_testing_last p
      → is_unlocking q ≡ is_unlocking p
      → is_reading q + is_counted q ≡ is_reading p + is_counted p
      → up (os.available s.lock.resource_lock k) + is_writing q
        ≡ up (os.available s.lock.resource_lock s.kernel) + is_writing p
      → Kept q (record s { kernel = k })
  moved p q s k inv eh ef el et eu ec ew = record {
    count = inv.count;
    counts = inv.counts;
    distinct = inv.distinct;
    group =
        IsGroup-move inv.group (omega arith) (omega arith) (omega arith) (omega arith) (omega arith)
          (omega arith) (omega arith);
  }

  -- A take or a give of a semaphore that is neither `ReadLock` nor `ResourceLock`.
  pub elsewhere :
      (s : Shared os.Kernel) (h : Ptr) (k : os.Kernel)
      → SameBut os h s.kernel k
      → s.lock.read_lock ≢ h
      → s.lock.resource_lock ≢ h
      → (up (os.available s.lock.read_lock k) ≡ up (os.available s.lock.read_lock s.kernel))
        × (up (os.available s.lock.resource_lock k)
            ≡ up (os.available s.lock.resource_lock s.kernel))
  elsewhere s h k same ne ne' =
      (ap up (same s.lock.read_lock ne), ap up (same s.lock.resource_lock ne'))

  pub given_elsewhere :
      (laws : IsRtos os) (s : Shared os.Kernel) (h : Ptr)
      → s.lock.read_lock ≢ h
      → s.lock.resource_lock ≢ h
      → (up (os.available s.lock.read_lock (os.give h s.kernel))
          ≡ up (os.available s.lock.read_lock s.kernel))
        × (up (os.available s.lock.resource_lock (os.give h s.kernel))
            ≡ up (os.available s.lock.resource_lock s.kernel))
  given_elsewhere laws s h = elsewhere s h (os.give h s.kernel) (laws.give_same h s.kernel)
