-- ===== src/ReadWriteLock/Writers.antt =====
-- WriterLock and WriterUnlock keep the invariant.
use freertos_addons.Prelude.{◌+◌, ◌≡◌, refl, List, arith, ℤ, ap}
use freertos_addons.Rtos.{Rtos, IsRtos}
use freertos_addons.ReadWriteLock.{
  Pc, idle, in_writer_lock, in_writer_unlock, take_write, count_writer, test_first_writer,
  block_readers, give_write, await_resource, release_resource, retake_write, uncount_writer,
  test_last_writer, unblock_readers, regive_write, is_number, set_write_count, Shared, writer_lock,
  writer_unlock, WriterLockPc, WriterUnlockPc,
}
use freertos_addons.ReadWriteLock.Group.{IsGroup-outer, IsGroup-move}
use freertos_addons.ReadWriteLock.Tally.{
  Ensures, up, by_type-cases, take-Ensures, some_increment-Ensures, some_decrement-Ensures,
  if-cases,
}
use freertos_addons.ReadWriteLock.Resource.{
  holds_read, is_testing_first, is_locking, is_testing_last, is_unlocking, is_reading, is_counted,
  is_writing, IsDistinct-counts, Kept, moved, elsewhere, given_elsewhere,
}

module _ (os : Rtos) (laws : IsRtos os) (rest : List Pc) where
  -- A change of `WriteCount` alone.
  counted_writer :
      (p q : Pc) (s : Shared os.Kernel) (n : ℤ)
      → Kept os rest p s
      → holds_read q ≡ holds_read p
      → is_testing_first q ≡ is_testing_first p
      → is_locking q ≡ is_locking p
      → is_testing_last q ≡ is_testing_last p
      → is_unlocking q ≡ is_unlocking p
      → is_reading q + is_counted q ≡ is_reading p + is_counted p
      → is_writing q ≡ is_writing p
      → Kept os rest q (record s { lock = record s.lock { write_count = n } })
  counted_writer p q s n inv eh ef el et eu ec ew = record {
    count = inv.count;
    counts = inv.counts;
    distinct = IsDistinct-counts s.lock s.lock.read_count n inv.distinct;
    group =
        IsGroup-move inv.group (omega arith) (omega arith) (omega arith) (omega arith) (omega arith)
          (omega arith) (omega arith);
  }

  pub writer_lock_keeps :
      (pc : WriterLockPc) (s : Shared os.Kernel)
      → Kept os rest (in_writer_lock pc) s
      → Ensures (Kept os rest) (writer_lock os pc s)
  unfolding writer_lock
  writer_lock_keeps take_write s inv =
      take-Ensures os laws (Kept os rest) (λ l. l.write_lock) _ s
        (λ k was now same.
          let (i, o) =
            elsewhere os rest s s.lock.write_lock k same inv.distinct.read_write
              inv.distinct.resource_write in
          moved os rest (in_writer_lock take_write) _ s k inv (omega arith) refl refl refl refl refl
            (omega arith))
  writer_lock_keeps count_writer s inv =
      some_increment-Ensures (Kept os rest) s.lock.write_count
        (set_write_count (in_writer_lock test_first_writer)) s
        (λ n.
          counted_writer (in_writer_lock count_writer) _ s n inv refl refl refl refl refl refl refl)
  writer_lock_keeps test_first_writer s inv =
      if-cases (λ q. Kept os rest q s) (is_number 1 s.lock.write_count) _ _
        (moved os rest (in_writer_lock test_first_writer) _ s s.kernel inv refl refl refl refl refl
          refl refl)
        (moved os rest (in_writer_lock test_first_writer) _ s s.kernel inv refl refl refl refl refl
          refl refl)
  writer_lock_keeps block_readers s inv =
      take-Ensures os laws (Kept os rest) (λ l. l.block_readers_lock) _ s
        (λ k was now same.
          let (i, o) =
            elsewhere os rest s s.lock.block_readers_lock k same inv.distinct.read_block
              inv.distinct.resource_block in
          moved os rest (in_writer_lock block_readers) _ s k inv (omega arith) refl refl refl refl
            refl (omega arith))
  writer_lock_keeps give_write s inv =
      let (i, o) =
        given_elsewhere os rest laws s s.lock.write_lock inv.distinct.read_write
          inv.distinct.resource_write in
      moved os rest (in_writer_lock give_write) _ s _ inv (omega arith) refl refl refl refl refl
        (omega arith)
  writer_lock_keeps await_resource s inv =
      take-Ensures os laws (Kept os rest) (λ l. l.resource_lock) _ s
        (λ k was now same.
          let i = same s.lock.read_lock inv.distinct.read_resource in
          moved os rest (in_writer_lock await_resource) _ s k inv (rw i refl) refl refl refl refl
            refl (rw (was, now) refl))

  pub writer_unlock_keeps :
      (pc : WriterUnlockPc) (s : Shared os.Kernel)
      → Kept os rest (in_writer_unlock pc) s
      → Ensures (Kept os rest) (writer_unlock os pc s)
  unfolding writer_unlock
  writer_unlock_keeps release_resource s inv =
      let k = os.give s.lock.resource_lock s.kernel in
      let i = ap up (
        laws.give_same s.lock.resource_lock s.kernel s.lock.read_lock inv.distinct.read_resource) in
      let o = ap up (laws.give_available s.lock.resource_lock s.kernel) in
      let alone = IsGroup-outer inv.group (omega arith) in
      by_type-cases (λ q. Kept os rest q (record s { kernel = k })) idle
        (in_writer_unlock retake_write) s
        (moved os rest (in_writer_unlock release_resource) _ s k inv (omega arith) refl refl refl
          refl refl (omega (arith, alone.0)))
        (moved os rest (in_writer_unlock release_resource) _ s k inv (omega arith) refl refl refl
          refl refl (omega (arith, alone.0)))
  writer_unlock_keeps retake_write s inv =
      take-Ensures os laws (Kept os rest) (λ l. l.write_lock) _ s
        (λ k was now same.
          let (i, o) =
            elsewhere os rest s s.lock.write_lock k same inv.distinct.read_write
              inv.distinct.resource_write in
          moved os rest (in_writer_unlock retake_write) _ s k inv (omega arith) refl refl refl refl
            refl (omega arith))
  writer_unlock_keeps uncount_writer s inv =
      some_decrement-Ensures (Kept os rest) s.lock.write_count
        (set_write_count (in_writer_unlock test_last_writer)) s
        (λ n.
          counted_writer (in_writer_unlock uncount_writer) _ s n inv refl refl refl refl refl refl
            refl)
  writer_unlock_keeps test_last_writer s inv =
      if-cases (λ q. Kept os rest q s) (is_number 0 s.lock.write_count) _ _
        (moved os rest (in_writer_unlock test_last_writer) _ s s.kernel inv refl refl refl refl refl
          refl refl)
        (moved os rest (in_writer_unlock test_last_writer) _ s s.kernel inv refl refl refl refl refl
          refl refl)
  writer_unlock_keeps unblock_readers s inv =
      let (i, o) =
        given_elsewhere os rest laws s s.lock.block_readers_lock inv.distinct.read_block
          inv.distinct.resource_block in
      moved os rest (in_writer_unlock unblock_readers) _ s _ inv (omega arith) refl refl refl refl
        refl (omega arith)
  writer_unlock_keeps regive_write s inv =
      let (i, o) =
        given_elsewhere os rest laws s s.lock.write_lock inv.distinct.read_write
          inv.distinct.resource_write in
      moved os rest (in_writer_unlock regive_write) _ s _ inv (omega arith) refl refl refl refl refl
        (omega arith)
