-- ===== src/ReadWriteLock/Preference.antt =====
-- What a lock that prefers writers promises them: new readers wait.
use freertos_addons.Prelude.{ℕ, ◌≤◌, ◌≡◌, refl, Bool, true, false, List, arith, pos, ap}
use freertos_addons.Rtos.{Rtos, IsRtos}
use freertos_addons.ReadWriteLock.{
  Pc, idle, in_reader_lock, reading, in_reader_unlock, in_writer_lock, writing, in_writer_unlock,
  take_block_readers, take_write, prefer_writer, Shared, Choice, read, write, exec, System, Reaches,
}
use freertos_addons.ReadWriteLock.Group.{IsGroup-closed}
use freertos_addons.ReadWriteLock.Tally.{Ensures, total, up, of_writer}
use freertos_addons.ReadWriteLock.Reach.{Reaches-keeps}
use freertos_addons.ReadWriteLock.Exclusion.{IsNew, outsiders, total-outsiders}
use freertos_addons.ReadWriteLock.Barrier.{
  holds_write, is_testing_first_writer, is_blocking, is_testing_last_writer, is_unblocking,
  is_bidding, is_counted_writer, is_entering, Barred, Bars, count_step,
}
use freertos_addons.ReadWriteLock.BarrierReaders.{reader_lock-Bars, reader_unlock-Bars}
use freertos_addons.ReadWriteLock.BarrierWriters.{writer_lock-Bars, writer_unlock-Bars}

-- Every step of a task keeps the invariant.
exec-Bars :
    (os : Rtos) (laws : IsRtos os) (rest : List Pc) (c : Choice) (p : Pc) (s : Shared os.Kernel)
    → Bars os rest p s
    → Ensures (Bars os rest) (exec os c p s)
unfolding exec
exec-Bars os laws rest read idle s inv =
    of_writer (λ q. Bars os rest q s) _ (in_reader_lock take_block_readers) s inv.prefers
      (count_step os rest idle _ s s.lock.read_count inv refl)
exec-Bars os laws rest write idle s inv =
    of_writer (λ q. Bars os rest q s) _ (in_writer_lock take_write) s inv.prefers
      (count_step os rest idle _ s s.lock.read_count inv refl)
exec-Bars os laws rest c (in_reader_lock pc) s inv = reader_lock-Bars os laws rest pc s inv
exec-Bars os laws rest c reading s inv = count_step os rest reading _ s s.lock.read_count inv refl
exec-Bars os laws rest c (in_reader_unlock pc) s inv = reader_unlock-Bars os laws rest pc s inv
exec-Bars os laws rest c (in_writer_lock pc) s inv = writer_lock-Bars os laws rest pc s inv
exec-Bars os laws rest c writing s inv = count_step os rest writing _ s s.lock.read_count inv refl
exec-Bars os laws rest c (in_writer_unlock pc) s inv = writer_unlock-Bars os laws rest pc s inv

-- A lock that prefers writers, as it is created.
pub record IsNewWriter (os : Rtos) (s : Shared os.Kernel) : Type 0 where
  pub new : IsNew os s
  pub prefers : s.lock.lock_type ≡ prefer_writer
  pub no_writers : s.lock.write_count ≡ pos 0
  pub write_free : os.available s.lock.write_lock s.kernel ≡ true
  pub block_free : os.available s.lock.block_readers_lock s.kernel ≡ true

down : (b : Bool) → up b ≡ 0 → b ≡ false
down true e = absurd (omega arith)
down false e = refl

module _ (os : Rtos) (laws : IsRtos os) (n : ℕ) (s : Shared os.Kernel) (z : System os.Kernel)
    (new : IsNewWriter os s) (run : Reaches os (record { shared = s; tasks = outsiders n }) z) where
  new-Barred : Barred os s (λ weight. total weight (outsiders n))
  new-Barred =
      let none = λ (weight : Pc → ℕ) (e : weight idle ≡ 0). total-outsiders weight n e in
      let i = ap up new.write_free in
      let o = ap up new.block_free in
      record {
        count = 0;
        counts = new.no_writers;
        distinct = new.new.distinct;
        prefers = new.prefers;
        group = record {
          inner_held = omega (
            arith,
            none holds_write refl,
            none is_testing_first_writer refl,
            none is_blocking refl,
            none is_testing_last_writer refl,
            none is_unblocking refl,
          );
          all_counted = omega (
            arith,
            none is_bidding refl,
            none is_counted_writer refl,
            none is_testing_first_writer refl,
            none is_blocking refl,
          );
          none_in = λ z. omega (
            arith,
            none is_entering refl,
            none is_testing_last_writer refl,
            none is_unblocking refl,
          );
          one_in = λ z. absurd (omega arith);
          more_in = λ z. absurd (omega arith);
          locks_first = λ z. absurd (omega (arith, none is_blocking refl));
          unlocks_last = λ z. refl;
        };
      }

  pub reached-Barred : Barred os z.shared (λ weight. total weight z.tasks)
  reached-Barred = Reaches-keeps os (Barred os) (exec-Bars os laws) run new-Barred

  -- In every state that any number of tasks reach from a new lock that prefers writers, while a
  -- writer waits for ResourceLock at the end of WriterLock, or holds it, BlockReadersLock is not
  -- available and no reader is between its take and its give of it in ReaderLock.
  pub bidder_bars_readers :
      1 ≤ total is_bidding z.tasks
      → (os.available z.shared.lock.block_readers_lock z.shared.kernel ≡ false)
        × (total is_entering z.tasks ≡ 0)
  bidder_bars_readers some =
      let inv = reached-Barred in
      let closed = IsGroup-closed inv.group some in
      (down (os.available z.shared.lock.block_readers_lock z.shared.kernel) closed.0, closed.1)
