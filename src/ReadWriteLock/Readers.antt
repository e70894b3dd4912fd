-- ===== src/ReadWriteLock/Readers.antt =====
-- ReaderLock and ReaderUnlock keep the invariant.
use freertos_addons.Prelude.{◌+◌, ◌≤◌, refl, List, arith, pos, sym, ◌∙◌, ap}
use freertos_addons.Rtos.{Rtos, IsRtos}
use freertos_addons.ReadWriteLock.{
  Pc, in_reader_lock, reading, in_reader_unlock, take_block_readers, take_read, count_reader,
  test_first, take_resource, give_read, give_block_readers, retake_read, uncount_reader, test_last,
  give_resource, regive_read, set_read_count, Shared, reader_lock, reader_unlock, ReaderLockPc,
  ReaderUnlockPc,
}
use freertos_addons.ReadWriteLock.Group.{
  IsGroup-count, IsGroup-first, IsGroup-not_first, IsGroup-lock, IsGroup-uncount, IsGroup-last,
  IsGroup-not_last, IsGroup-unlock,
}
use freertos_addons.ReadWriteLock.Tally.{
  positive_pred, Ensures, up, by_type-cases, is_number-cases, take-Ensures, increment-Ensures,
  decrement-Ensures,
}
use freertos_addons.ReadWriteLock.Resource.{
  IsDistinct-counts, Kept, moved, elsewhere, given_elsewhere,
}

module _ (os : Rtos) (laws : IsRtos os) (rest : List Pc) where
  pub reader_lock_keeps :
      (pc : ReaderLockPc) (s : Shared os.Kernel)
      → Kept os rest (in_reader_lock pc) s
      → Ensures (Kept os rest) (reader_lock os pc s)
  unfolding reader_lock
  reader_lock_keeps take_block_readers s inv =
      take-Ensures os laws (Kept os rest) (λ l. l.block_readers_lock) _ s
        (λ k was now same.
          let (i, o) =
            elsewhere os rest s s.lock.block_readers_lock k same inv.distinct.read_block
              inv.distinct.resource_block in
          moved os rest (in_reader_lock take_block_readers) _ s k inv (omega arith) refl refl refl
            refl refl (omega arith))
  reader_lock_keeps take_read s inv =
      take-Ensures os laws (Kept os rest) (λ l. l.read_lock) _ s
        (λ k was now same.
          let o = same s.lock.resource_lock (λ e. inv.distinct.read_resource (sym e)) in
          moved os rest (in_reader_lock take_read) _ s k inv (rw (was, now) refl) refl refl refl
            refl refl (rw o refl))
  reader_lock_keeps count_reader s inv =
      increment-Ensures (Kept os rest) inv.count s.lock.read_count
        (set_read_count (in_reader_lock test_first)) s inv.counts
        (record {
          count = inv.count + 1;
          counts = refl;
          distinct = IsDistinct-counts s.lock (pos (inv.count + 1)) s.lock.write_count inv.distinct;
          group = IsGroup-count inv.group (omega arith) (omega arith);
        })
  reader_lock_keeps test_first s inv =
      is_number-cases (λ q. Kept os rest q s) 1 inv.count s.lock.read_count _ _ inv.counts
        (λ one. record {
          count = inv.count;
          counts = inv.counts;
          distinct = inv.distinct;
          group = IsGroup-first inv.group one (omega arith) (omega arith);
        })
        (λ more. record {
          count = inv.count;
          counts = inv.counts;
          distinct = inv.distinct;
          group = IsGroup-not_first inv.group more (omega arith) (omega arith) (omega arith);
        })
  reader_lock_keeps take_resource s inv =
      take-Ensures os laws (Kept os rest) (λ l. l.resource_lock) _ s
        (λ k was now same.
          let i = same s.lock.read_lock inv.distinct.read_resource in
          record {
            count = inv.count;
            counts = inv.counts;
            distinct = inv.distinct;
            group = rw i (
                IsGroup-lock inv.group (ap up was) (ap up now) (omega arith) (omega arith)
                  (omega arith));
          })
  reader_lock_keeps give_read s inv =
      let k = os.give s.lock.read_lock s.kernel in
      let i = ap up (laws.give_available s.lock.read_lock s.kernel) in
      let o = ap up (
        laws.give_same s.lock.read_lock s.kernel s.lock.resource_lock
          (λ e. inv.distinct.read_resource (sym e))) in
      let low = inv.group.inner_held in
      by_type-cases (λ q. Kept os rest q (record s { kernel = k })) reading
        (in_reader_lock give_block_readers) s
        (moved os rest (in_reader_lock give_read) _ s k inv (omega arith) refl refl refl refl refl
          (omega arith))
        (moved os rest (in_reader_lock give_read) _ s k inv (omega arith) refl refl refl refl refl
          (omega arith))
  reader_lock_keeps give_block_readers s inv =
      let (i, o) =
        given_elsewhere os rest laws s s.lock.block_readers_lock inv.distinct.read_block
          inv.distinct.resource_block in
      moved os rest (in_reader_lock give_block_readers) _ s _ inv (omega arith) refl refl refl refl
        refl (omega arith)

  pub reader_unlock_keeps :
      (pc : ReaderUnlockPc) (s : Shared os.Kernel)
      → Kept os rest (in_reader_unlock pc) s
      → Ensures (Kept os rest) (reader_unlock os pc s)
  unfolding reader_unlock
  reader_unlock_keeps retake_read s inv =
      take-Ensures os laws (Kept os rest) (λ l. l.read_lock) _ s
        (λ k was now same.
          let o = same s.lock.resource_lock (λ e. inv.distinct.read_resource (sym e)) in
          moved os rest (in_reader_unlock retake_read) _ s k inv (rw (was, now) refl) refl refl refl
            refl refl (rw o refl))
  reader_unlock_keeps uncount_reader s inv =
      let some : 1 ≤ inv.count = omega (arith, inv.group.all_counted) in
      let (m, e) = positive_pred inv.count some in
      decrement-Ensures (Kept os rest) m s.lock.read_count
        (set_read_count (in_reader_unlock test_last)) s (inv.counts ∙ ap pos e)
        (record {
          count = m;
          counts = refl;
          distinct = IsDistinct-counts s.lock (pos m) s.lock.write_count inv.distinct;
          group = IsGroup-uncount inv.group (omega arith) (omega arith) (omega arith) (omega arith);
        })
  reader_unlock_keeps test_last s inv =
      is_number-cases (λ q. Kept os rest q s) 0 inv.count s.lock.read_count _ _ inv.counts
        (λ none. record {
          count = inv.count;
          counts = inv.counts;
          distinct = inv.distinct;
          group = IsGroup-last inv.group none (omega arith) (omega arith);
        })
        (λ more. record {
          count = inv.count;
          counts = inv.counts;
          distinct = inv.distinct;
          group = IsGroup-not_last inv.group more (omega arith) (omega arith);
        })
  reader_unlock_keeps give_resource s inv =
      let i = ap up (
        laws.give_same s.lock.resource_lock s.kernel s.lock.read_lock inv.distinct.read_resource) in
      record {
        count = inv.count;
        counts = inv.counts;
        distinct = inv.distinct;
        group = rw i (
            IsGroup-unlock inv.group (ap up (laws.give_available s.lock.resource_lock s.kernel))
              (omega arith) (omega arith));
      }
  reader_unlock_keeps regive_read s inv =
      let k = os.give s.lock.read_lock s.kernel in
      let i = ap up (laws.give_available s.lock.read_lock s.kernel) in
      let o = ap up (
        laws.give_same s.lock.read_lock s.kernel s.lock.resource_lock
          (λ e. inv.distinct.read_resource (sym e))) in
      let low = inv.group.inner_held in
      moved os rest (in_reader_unlock regive_read) _ s k inv (omega arith) refl refl refl refl refl
        (omega arith)
