-- ===== src/ReadWriteLock/BarrierReaders.antt =====
-- ReaderLock and ReaderUnlock keep the invariant of the writers' group.
use freertos_addons.Prelude.{refl, List, arith, sym, ap}
use freertos_addons.Rtos.{Rtos, IsRtos}
use freertos_addons.ReadWriteLock.{
  Pc, in_reader_lock, reading, in_reader_unlock, take_block_readers, take_read, count_reader,
  test_first, take_resource, give_read, give_block_readers, retake_read, uncount_reader, test_last,
  give_resource, regive_read, is_number, set_read_count, Shared, reader_lock, reader_unlock,
  ReaderLockPc, ReaderUnlockPc,
}
use freertos_addons.ReadWriteLock.Group.{IsGroup-outer}
use freertos_addons.ReadWriteLock.Tally.{
  Ensures, up, if-cases, take-Ensures, some_increment-Ensures, some_decrement-Ensures, of_writer,
}
use freertos_addons.ReadWriteLock.Barrier.{Bars, shifted, kernel_step, count_step, other_take}

module _ (os : Rtos) (laws : IsRtos os) (rest : List Pc) where
  pub reader_lock-Bars :
      (pc : ReaderLockPc) (s : Shared os.Kernel)
      → Bars os rest (in_reader_lock pc) s
      → Ensures (Bars os rest) (reader_lock os pc s)
  unfolding reader_lock
  reader_lock-Bars take_block_readers s inv =
      take-Ensures os laws (Bars os rest) (λ l. l.block_readers_lock) _ s
        (λ k was now same.
          let i = same s.lock.write_lock inv.distinct.write_block in
          shifted os rest (in_reader_lock take_block_readers) _ s s.lock.read_count k inv
            (rw i refl) refl (rw (was, now) refl))
  reader_lock-Bars take_read s inv =
      other_take os rest laws (λ l. l.read_lock) (in_reader_lock take_read) _ s inv refl
        (λ e. inv.distinct.read_write (sym e)) (λ e. inv.distinct.read_block (sym e))
  reader_lock-Bars count_reader s inv =
      some_increment-Ensures (Bars os rest) s.lock.read_count
        (set_read_count (in_reader_lock test_first)) s
        (λ n. count_step os rest (in_reader_lock count_reader) _ s n inv refl)
  reader_lock-Bars test_first s inv =
      if-cases (λ q. Bars os rest q s) (is_number 1 s.lock.read_count) _ _
        (count_step os rest (in_reader_lock test_first) _ s s.lock.read_count inv refl)
        (count_step os rest (in_reader_lock test_first) _ s s.lock.read_count inv refl)
  reader_lock-Bars take_resource s inv =
      other_take os rest laws (λ l. l.resource_lock) (in_reader_lock take_resource) _ s inv refl
        (λ e. inv.distinct.resource_write (sym e)) (λ e. inv.distinct.resource_block (sym e))
  reader_lock-Bars give_read s inv =
      let next =
        kernel_step os rest (in_reader_lock give_read) (in_reader_lock give_block_readers) s
          s.lock.read_lock (os.give s.lock.read_lock s.kernel) inv refl
          (λ e. inv.distinct.read_write (sym e)) (λ e. inv.distinct.read_block (sym e))
          (laws.give_same s.lock.read_lock s.kernel) in
      of_writer (λ q. Bars os rest q (record s { kernel = os.give s.lock.read_lock s.kernel }))
        reading _ s inv.prefers next
  reader_lock-Bars give_block_readers s inv =
      let h = s.lock.block_readers_lock in
      let alone = IsGroup-outer inv.group (omega arith) in
      let o = ap up (laws.give_available h s.kernel) in
      let i = ap up (laws.give_same h s.kernel s.lock.write_lock inv.distinct.write_block) in
      shifted os rest (in_reader_lock give_block_readers) reading s s.lock.read_count
        (os.give h s.kernel) inv (omega arith) refl (omega (arith, alone.0))

  pub reader_unlock-Bars :
      (pc : ReaderUnlockPc) (s : Shared os.Kernel)
      → Bars os rest (in_reader_unlock pc) s
      → Ensures (Bars os rest) (reader_unlock os pc s)
  unfolding reader_unlock
  reader_unlock-Bars retake_read s inv =
      other_take os rest laws (λ l. l.read_lock) (in_reader_unlock retake_read) _ s inv refl
        (λ e. inv.distinct.read_write (sym e)) (λ e. inv.distinct.read_block (sym e))
  reader_unlock-Bars uncount_reader s inv =
      some_decrement-Ensures (Bars os rest) s.lock.read_count
        (set_read_count (in_reader_unlock test_last)) s
        (λ n. count_step os rest (in_reader_unlock uncount_reader) _ s n inv refl)
  reader_unlock-Bars test_last s inv =
      if-cases (λ q. Bars os rest q s) (is_number 0 s.lock.read_count) _ _
        (count_step os rest (in_reader_unlock test_last) _ s s.lock.read_count inv refl)
        (count_step os rest (in_reader_unlock test_last) _ s s.lock.read_count inv refl)
  reader_unlock-Bars give_resource s inv =
      kernel_step os rest (in_reader_unlock give_resource) _ s s.lock.resource_lock
        (os.give s.lock.resource_lock s.kernel) inv refl (λ e. inv.distinct.resource_write (sym e))
        (λ e. inv.distinct.resource_block (sym e)) (laws.give_same s.lock.resource_lock s.kernel)
  reader_unlock-Bars regive_read s inv =
      kernel_step os rest (in_reader_unlock regive_read) _ s s.lock.read_lock
        (os.give s.lock.read_lock s.kernel) inv refl (λ e. inv.distinct.read_write (sym e))
        (λ e. inv.distinct.read_block (sym e)) (laws.give_same s.lock.read_lock s.kernel)
