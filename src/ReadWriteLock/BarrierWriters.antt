-- ===== src/ReadWriteLock/BarrierWriters.antt =====
-- WriterLock and WriterUnlock keep the invariant of the writers' group.
use freertos_addons.Prelude.{◌+◌, ◌≤◌, ◌≡◌, refl, List, arith, pos, sym, ap, ◌∙◌}
use freertos_addons.Rtos.{Rtos, IsRtos}
use freertos_addons.ReadWriteLock.{
  Pc, idle, in_writer_lock, in_writer_unlock, take_write, count_writer, test_first_writer,
  block_readers, give_write, await_resource, release_resource, retake_write, uncount_writer,
  test_last_writer, unblock_readers, regive_write, set_write_count, Shared, writer_lock,
  writer_unlock, WriterLockPc, WriterUnlockPc,
}
use freertos_addons.ReadWriteLock.Group.{
  IsGroup-count, IsGroup-first, IsGroup-not_first, IsGroup-lock, IsGroup-uncount, IsGroup-last,
  IsGroup-not_last, IsGroup-unlock,
}
use freertos_addons.ReadWriteLock.Tally.{
  Ensures, up, is_number-cases, take-Ensures, increment-Ensures, decrement-Ensures, positive_pred,
  of_writer,
}
use freertos_addons.ReadWriteLock.Resource.{IsDistinct-counts}
use freertos_addons.ReadWriteLock.Barrier.{
  holds_write, place, Place, Bars, shifted, kernel_step, other_take,
}

module _ (os : Rtos) (laws : IsRtos os) (rest : List Pc) where
  -- A take or a give of `WriteLock`.
  write_lock_step :
      (p q : Pc) (s : Shared os.Kernel) (k : os.Kernel)
      → Bars os rest p s
      → os.available s.lock.block_readers_lock k ≡ os.available s.lock.block_readers_lock s.kernel
      → up (os.available s.lock.write_lock k) + holds_write q
        ≡ up (os.available s.lock.write_lock s.kernel) + holds_write p
      → record (place q) { holding = 0 } ≡ record (place p) { holding = 0 }
      → Bars os rest q (record s { kernel = k })
  write_lock_step p q s k inv same eh e =
      let o = ap up same in
      let ew = ap (λ (v : Place). v.other) e in
      shifted os rest p q s s.lock.read_count k inv eh
        (ap (λ (v : Place). record v { other = 0 }) e) (omega arith)

  given_write :
      (p q : Pc) (s : Shared os.Kernel)
      → Bars os rest p s
      → holds_write p ≡ 1
      → holds_write q ≡ 0
      → record (place q) { holding = 0 } ≡ record (place p) { holding = 0 }
      → Bars os rest q (record s { kernel = os.give s.lock.write_lock s.kernel })
  given_write p q s inv one none e =
      let h = s.lock.write_lock in
      let i = ap up (laws.give_available h s.kernel) in
      let low = inv.group.inner_held in
      write_lock_step p q s (os.give h s.kernel) inv
        (laws.give_same h s.kernel s.lock.block_readers_lock
          (λ at. inv.distinct.write_block (sym at)))
        (omega arith) e

  pub writer_lock-Bars :
      (pc : WriterLockPc) (s : Shared os.Kernel)
      → Bars os rest (in_writer_lock pc) s
      → Ensures (Bars os rest) (writer_lock os pc s)
  unfolding writer_lock
  writer_lock-Bars take_write s inv =
      take-Ensures os laws (Bars os rest) (λ l. l.write_lock) _ s
        (λ k was now same.
          write_lock_step (in_writer_lock take_write) _ s k inv
            (same s.lock.block_readers_lock (λ e. inv.distinct.write_block (sym e)))
            (rw (was, now) refl) refl)
  writer_lock-Bars count_writer s inv =
      increment-Ensures (Bars os rest) inv.count s.lock.write_count
        (set_write_count (in_writer_lock test_first_writer)) s inv.counts
        (record {
          count = inv.count + 1;
          counts = refl;
          distinct = IsDistinct-counts s.lock s.lock.read_count (pos (inv.count + 1)) inv.distinct;
          prefers = inv.prefers;
          group = IsGroup-count inv.group (omega arith) (omega arith);
        })
  writer_lock-Bars test_first_writer s inv =
      is_number-cases (λ q. Bars os rest q s) 1 inv.count s.lock.write_count _ _ inv.counts
        (λ one. record {
          count = inv.count;
          counts = inv.counts;
          distinct = inv.distinct;
          prefers = inv.prefers;
          group = IsGroup-first inv.group one (omega arith) (omega arith);
        })
        (λ more. record {
          count = inv.count;
          counts = inv.counts;
          distinct = inv.distinct;
          prefers = inv.prefers;
          group = IsGroup-not_first inv.group more (omega arith) (omega arith) (omega arith);
        })
  writer_lock-Bars block_readers s inv =
      take-Ensures os laws (Bars os rest) (λ l. l.block_readers_lock) _ s
        (λ k was now same.
          let i = same s.lock.write_lock inv.distinct.write_block in
          record {
            count = inv.count;
            counts = inv.counts;
            distinct = inv.distinct;
            prefers = inv.prefers;
            group = rw i (
                IsGroup-lock inv.group (ap up was) (ap up now) (omega arith) (omega arith)
                  (omega arith));
          })
  writer_lock-Bars give_write s inv = given_write (in_writer_lock give_write) _ s inv refl refl refl
  writer_lock-Bars await_resource s inv =
      other_take os rest laws (λ l. l.resource_lock) (in_writer_lock await_resource) _ s inv refl
        (λ e. inv.distinct.resource_write (sym e)) (λ e. inv.distinct.resource_block (sym e))

  pub writer_unlock-Bars :
      (pc : WriterUnlockPc) (s : Shared os.Kernel)
      → Bars os rest (in_writer_unlock pc) s
      → Ensures (Bars os rest) (writer_unlock os pc s)
  unfolding writer_unlock
  writer_unlock-Bars release_resource s inv =
      of_writer (λ q. Bars os rest q (record s { kernel = os.give s.lock.resource_lock s.kernel }))
        idle (in_writer_unlock retake_write) s inv.prefers
        (kernel_step os rest (in_writer_unlock release_resource) _ s s.lock.resource_lock
          (os.give s.lock.resource_lock s.kernel) inv refl
          (λ e. inv.distinct.resource_write (sym e)) (λ e. inv.distinct.resource_block (sym e))
          (laws.give_same s.lock.resource_lock s.kernel))
  writer_unlock-Bars retake_write s inv =
      take-Ensures os laws (Bars os rest) (λ l. l.write_lock) _ s
        (λ k was now same.
          write_lock_step (in_writer_unlock retake_write) _ s k inv
            (same s.lock.block_readers_lock (λ e. inv.distinct.write_block (sym e)))
            (rw (was, now) refl) refl)
  writer_unlock-Bars uncount_writer s inv =
      let some : 1 ≤ inv.count = omega (arith, inv.group.all_counted) in
      let (m, e) = positive_pred inv.count some in
      decrement-Ensures (Bars os rest) m s.lock.write_count
        (set_write_count (in_writer_unlock test_last_writer)) s (inv.counts ∙ ap pos e)
        (record {
          count = m;
          counts = refl;
          distinct = IsDistinct-counts s.lock s.lock.read_count (pos m) inv.distinct;
          prefers = inv.prefers;
          group = IsGroup-uncount inv.group (omega arith) (omega arith) (omega arith) (omega arith);
        })
  writer_unlock-Bars test_last_writer s inv =
      is_number-cases (λ q. Bars os rest q s) 0 inv.count s.lock.write_count _ _ inv.counts
        (λ none. record {
          count = inv.count;
          counts = inv.counts;
          distinct = inv.distinct;
          prefers = inv.prefers;
          group = IsGroup-last inv.group none (omega arith) (omega arith);
        })
        (λ more. record {
          count = inv.count;
          counts = inv.counts;
          distinct = inv.distinct;
          prefers = inv.prefers;
          group = IsGroup-not_last inv.group more (omega arith) (omega arith);
        })
  writer_unlock-Bars unblock_readers s inv =
      let h = s.lock.block_readers_lock in
      let i = ap up (laws.give_same h s.kernel s.lock.write_lock inv.distinct.write_block) in
      record {
        count = inv.count;
        counts = inv.counts;
        distinct = inv.distinct;
        prefers = inv.prefers;
        group = rw i (
            IsGroup-unlock inv.group (ap up (laws.give_available h s.kernel)) (omega arith)
              (omega arith));
      }
  writer_unlock-Bars regive_write s inv =
      given_write (in_writer_unlock regive_write) _ s inv refl refl refl
