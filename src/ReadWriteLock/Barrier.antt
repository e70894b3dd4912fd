-- ===== src/ReadWriteLock/Barrier.antt =====
-- The writers of a lock that prefers them as a group that holds BlockReadersLock, against the readers
-- that are in ReaderLock: where the tasks stand, and the invariant.
use freertos_addons.Prelude.{ℕ, ◌+◌, ◌≡◌, ◌≢◌, List, arith, ℤ, pos, ap}
use freertos_addons.Memory.{Ptr}
use freertos_addons.Rtos.{Rtos, IsRtos, SameBut}
use freertos_addons.ReadWriteLock.{
  Pc, in_reader_lock, in_writer_lock, writing, in_writer_unlock, take_read, count_reader,
  test_first, take_resource, give_read, give_block_readers, count_writer, test_first_writer,
  block_readers, give_write, await_resource, release_resource, retake_write, uncount_writer,
  test_last_writer, unblock_readers, regive_write, prefer_writer, RwLock, Shared, take,
}
use freertos_addons.ReadWriteLock.Group.{IsGroup, IsGroup-move}
use freertos_addons.ReadWriteLock.Tally.{Ensures, up, take-Ensures, beside}
use freertos_addons.ReadWriteLock.Resource.{IsDistinct, IsDistinct-counts}

-- The tasks that hold `WriteLock`, but are not at a place of its own below.
abbrev pub holds_write : Pc → ℕ
holds_write (in_writer_lock count_writer) = 1
holds_write (in_writer_lock give_write) = 1
holds_write (in_writer_unlock uncount_writer) = 1
holds_write (in_writer_unlock regive_write) = 1
holds_write p = 0

abbrev pub is_testing_first_writer : Pc → ℕ
is_testing_first_writer (in_writer_lock test_first_writer) = 1
is_testing_first_writer p = 0

abbrev pub is_blocking : Pc → ℕ
is_blocking (in_writer_lock block_readers) = 1
is_blocking p = 0

abbrev pub is_testing_last_writer : Pc → ℕ
is_testing_last_writer (in_writer_unlock test_last_writer) = 1
is_testing_last_writer p = 0

abbrev pub is_unblocking : Pc → ℕ
is_unblocking (in_writer_unlock unblock_readers) = 1
is_unblocking p = 0

-- A writer that waits for `ResourceLock` or has it.
abbrev pub is_bidding : Pc → ℕ
is_bidding (in_writer_lock await_resource) = 1
is_bidding writing = 1
is_bidding (in_writer_unlock release_resource) = 1
is_bidding p = 0

-- Any other writer that is counted.
abbrev pub is_counted_writer : Pc → ℕ
is_counted_writer (in_writer_lock give_write) = 1
is_counted_writer (in_writer_unlock retake_write) = 1
is_counted_writer (in_writer_unlock uncount_writer) = 1
is_counted_writer p = 0

-- A reader that has passed `BlockReadersLock` and is still in ReaderLock.
abbrev pub is_entering : Pc → ℕ
is_entering (in_reader_lock take_read) = 1
is_entering (in_reader_lock count_reader) = 1
is_entering (in_reader_lock test_first) = 1
is_entering (in_reader_lock take_resource) = 1
is_entering (in_reader_lock give_read) = 1
is_entering (in_reader_lock give_block_readers) = 1
is_entering p = 0

pub record Place : Type 0 where
  pub holding : ℕ
  pub first : ℕ
  pub locking : ℕ
  pub last : ℕ
  pub unlocking : ℕ
  pub inside : ℕ
  pub other : ℕ

-- How a task counts.
abbrev pub place : Pc → Place
place p = record {
  holding = holds_write p;
  first = is_testing_first_writer p;
  locking = is_blocking p;
  last = is_testing_last_writer p;
  unlocking = is_unblocking p;
  inside = is_bidding p + is_counted_writer p;
  other = is_entering p;
}

-- The invariant, with the weights of the tasks.
pub record Barred (os : Rtos) (s : Shared os.Kernel) (weight : (Pc → ℕ) → ℕ) : Type 0 where
  pub count : ℕ
  pub counts : s.lock.write_count ≡ pos count
  pub distinct : IsDistinct s.lock
  pub prefers : s.lock.lock_type ≡ prefer_writer
  pub group :
      IsGroup count
        (up (os.available s.lock.write_lock s.kernel))
        (up (os.available s.lock.block_readers_lock s.kernel))
        (weight holds_write)
        (weight is_testing_first_writer)
        (weight is_blocking)
        (weight is_testing_last_writer)
        (weight is_unblocking)
        (weight is_bidding)
        (weight is_counted_writer)
        (weight is_entering)

module _ (os : Rtos) (rest : List Pc) where
  abbrev pub Bars : Pc → Shared os.Kernel → Type 0
  Bars q s = Barred os s (beside q rest)

  -- A step that changes neither `WriteCount` nor what the tasks are to the group.
  pub shifted :
      (p q : Pc) (s : Shared os.Kernel) (n : ℤ) (k : os.Kernel)
      → Bars p s
      → up (os.available s.lock.write_lock k) + holds_write q
        ≡ up (os.available s.lock.write_lock s.kernel) + holds_write p
      → record (place q) { holding = 0; other = 0 } ≡ record (place p) { holding = 0; other = 0 }
      → up (os.available s.lock.block_readers_lock k) + is_entering q
        ≡ up (os.available s.lock.block_readers_lock s.kernel) + is_entering p
      → Bars q (record { lock = record s.lock { read_count = n }; kernel = k })
  shifted p q s n k inv eh e ew =
      let ef = ap (λ (v : Place). v.first) e in
      let el = ap (λ (v : Place). v.locking) e in
      let et = ap (λ (v : Place). v.last) e in
      let eu = ap (λ (v : Place). v.unlocking) e in
      let ec = ap (λ (v : Place). v.inside) e in
      record {
        count = inv.count;
        counts = inv.counts;
        distinct = IsDistinct-counts s.lock n s.lock.write_count inv.distinct;
        prefers = inv.prefers;
        group =
            IsGroup-move inv.group (omega arith) (omega arith) (omega arith) (omega arith)
              (omega arith) (omega arith) (omega arith);
      }

  -- A step to a place that counts alike, with no semaphore of the group.
  pub kernel_step :
      (p q : Pc) (s : Shared os.Kernel) (h : Ptr) (k : os.Kernel)
      → Bars p s
      → place q ≡ place p
      → s.lock.write_lock ≢ h
      → s.lock.block_readers_lock ≢ h
      → SameBut os h s.kernel k
      → Bars q (record s { kernel = k })
  kernel_step p q s h k inv e ne ne' same =
      let i = ap up (same s.lock.write_lock ne) in
      let o = ap up (same s.lock.block_readers_lock ne') in
      let eh = ap (λ (v : Place). v.holding) e in
      let ew = ap (λ (v : Place). v.other) e in
      shifted p q s s.lock.read_count k inv (omega arith)
        (ap (λ (v : Place). record v { holding = 0; other = 0 }) e) (omega arith)

  pub count_step :
      (p q : Pc) (s : Shared os.Kernel) (n : ℤ)
      → Bars p s
      → place q ≡ place p
      → Bars q (record s { lock = record s.lock { read_count = n } })
  count_step p q s n inv e =
      let eh = ap (λ (v : Place). v.holding) e in
      let ew = ap (λ (v : Place). v.other) e in
      shifted p q s n s.kernel inv (omega arith)
        (ap (λ (v : Place). record v { holding = 0; other = 0 }) e) (omega arith)

  pub other_take :
      (laws : IsRtos os) (semaphore : RwLock → Ptr) (p q : Pc) (s : Shared os.Kernel)
      → Bars p s
      → place q ≡ place p
      → s.lock.write_lock ≢ semaphore s.lock
      → s.lock.block_readers_lock ≢ semaphore s.lock
      → Ensures Bars (take os semaphore q s)
  other_take laws semaphore p q s inv e ne ne' =
      take-Ensures os laws Bars semaphore q s
        (λ k was now same. kernel_step p q s (semaphore s.lock) k inv e ne ne' same)
