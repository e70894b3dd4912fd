-- ===== src/ReadWriteLock/Safe.antt =====
-- When the next step of a task is not undefined behaviour.
use freertos_addons.Prelude.{
  ℕ, suc, ◌+◌, ◌≤◌, ◌<◌, ◌≡◌, ◌≢◌, false, Option, none, some, List, [], ◌∷◌, arith, ℤ, pos, int_max,
  ap, ◌∙◌, ◌==◌,
}
use freertos_addons.Machine.{Run, ok, fault, blocked, out_of_fuel, Cmd, ◌>>=◌, increment, decrement}
use freertos_addons.Rtos.{Rtos}
use freertos_addons.ReadWriteLock.{
  Pc, idle, in_reader_lock, reading, in_reader_unlock, in_writer_lock, writing, in_writer_unlock,
  take_block_readers, take_read, count_reader, test_first, take_resource, give_read,
  give_block_readers, retake_read, uncount_reader, test_last, give_resource, regive_read,
  take_write, count_writer, test_first_writer, block_readers, give_write, await_resource,
  release_resource, retake_write, uncount_writer, test_last_writer, unblock_readers, regive_write,
  Shared, Choice, read, write, exec, reader_lock, reader_unlock, writer_lock, writer_unlock, taken,
  ReaderLockPc, ReaderUnlockPc, WriterLockPc, WriterUnlockPc,
}
use freertos_addons.ReadWriteLock.Tally.{total, beside, positive_pred}
use freertos_addons.ReadWriteLock.Resource.{
  is_testing_first, is_locking, is_reading, is_counted, Exclusive,
}
use freertos_addons.ReadWriteLock.Barrier.{
  is_testing_first_writer, is_blocking, is_bidding, is_counted_writer, Barred,
}

-- A run that is not undefined behaviour.
abbrev pub IsSafe : {S A : Type 0} → Run S A → Type 0
IsSafe fault = ⊥
IsSafe r = Unit

pub IsSafe-ne : {S A : Type 0} (r : Run S A) → IsSafe r → r ≢ fault
IsSafe-ne (ok a s) h e = cc
IsSafe-ne fault h e = h
IsSafe-ne blocked h e = cc
IsSafe-ne out_of_fuel h e = cc

taken-IsSafe : {K : Type 0} (next : Pc) (s : Shared K) (o : Option K) → IsSafe (taken next s o)
taken-IsSafe next s none = tt
taken-IsSafe next s (some k) = tt

increment-IsSafe :
    {S A : Type 0} (n : ℕ) (count : ℤ) (f : ℤ → Cmd S A) (s : S)
    → count ≡ pos n
    → n < int_max
    → ((m : ℤ) → IsSafe (f m s))
    → IsSafe ((increment count >>= f) s)
unfolding increment
increment-IsSafe n count f s e lt good =
    let test : (n == int_max) ≡ false = ground arith in rw (e, test) (good (pos (n + 1)))

decrement-IsSafe :
    {S A : Type 0} (n : ℕ) (count : ℤ) (f : ℤ → Cmd S A) (s : S)
    → count ≡ pos (suc n)
    → ((m : ℤ) → IsSafe (f m s))
    → IsSafe ((decrement count >>= f) s)
unfolding decrement
decrement-IsSafe n count f s e good = rw e (good (pos n))

-- Every task counts one.
abbrev pub one : Pc → ℕ
one p = 1

-- A reader is counted at most once.
reader_once : (p : Pc) → is_reading p + is_counted p + is_testing_first p + is_locking p ≤ 1
reader_once idle = omega arith
reader_once reading = omega arith
reader_once writing = omega arith
reader_once (in_writer_lock pc) = omega arith
reader_once (in_writer_unlock pc) = omega arith
reader_once (in_reader_lock take_block_readers) = omega arith
reader_once (in_reader_lock take_read) = omega arith
reader_once (in_reader_lock count_reader) = omega arith
reader_once (in_reader_lock test_first) = omega arith
reader_once (in_reader_lock take_resource) = omega arith
reader_once (in_reader_lock give_read) = omega arith
reader_once (in_reader_lock give_block_readers) = omega arith
reader_once (in_reader_unlock retake_read) = omega arith
reader_once (in_reader_unlock uncount_reader) = omega arith
reader_once (in_reader_unlock test_last) = omega arith
reader_once (in_reader_unlock give_resource) = omega arith
reader_once (in_reader_unlock regive_read) = omega arith

writer_once :
    (p : Pc) → is_bidding p + is_counted_writer p + is_testing_first_writer p + is_blocking p ≤ 1
writer_once idle = omega arith
writer_once reading = omega arith
writer_once writing = omega arith
writer_once (in_reader_lock pc) = omega arith
writer_once (in_reader_unlock pc) = omega arith
writer_once (in_writer_lock take_write) = omega arith
writer_once (in_writer_lock count_writer) = omega arith
writer_once (in_writer_lock test_first_writer) = omega arith
writer_once (in_writer_lock block_readers) = omega arith
writer_once (in_writer_lock give_write) = omega arith
writer_once (in_writer_lock await_resource) = omega arith
writer_once (in_writer_unlock release_resource) = omega arith
writer_once (in_writer_unlock retake_write) = omega arith
writer_once (in_writer_unlock uncount_writer) = omega arith
writer_once (in_writer_unlock test_last_writer) = omega arith
writer_once (in_writer_unlock unblock_readers) = omega arith
writer_once (in_writer_unlock regive_write) = omega arith

readers_fit :
    (ps : List Pc)
    → total is_reading ps + total is_counted ps + total is_testing_first ps + total is_locking ps
      ≤ total one ps
unfolding total
readers_fit [] = omega arith
readers_fit (p ∷ ps) = omega (arith, reader_once p, readers_fit ps)

writers_fit :
    (ps : List Pc)
    → total is_bidding ps
        + total is_counted_writer ps
        + total is_testing_first_writer ps
        + total is_blocking ps
      ≤ total one ps
unfolding total
writers_fit [] = omega arith
writers_fit (p ∷ ps) = omega (arith, writer_once p, writers_fit ps)

-- What makes the next step of a task safe: the two counts are those of the tasks, which an `int` can
-- number.
pub record CanStep (os : Rtos) (s : Shared os.Kernel) (p : Pc) (rest : List Pc) : Type 0 where
  pub readers : Exclusive os s (beside p rest)
  pub writers : Barred os s (beside p rest)
  pub few : total one rest < int_max

module _ (os : Rtos) (s : Shared os.Kernel) (rest : List Pc) where
  reader_lock-IsSafe :
      (pc : ReaderLockPc) → CanStep os s (in_reader_lock pc) rest → IsSafe (reader_lock os pc s)
  unfolding reader_lock
  reader_lock-IsSafe take_block_readers can =
      taken-IsSafe _ s (os.take s.lock.block_readers_lock s.kernel)
  reader_lock-IsSafe take_read can = taken-IsSafe _ s (os.take s.lock.read_lock s.kernel)
  reader_lock-IsSafe count_reader can =
      increment-IsSafe can.readers.count s.lock.read_count _ s can.readers.counts
        (omega (arith, can.readers.group.all_counted, readers_fit rest, can.few)) (λ m. tt)
  reader_lock-IsSafe test_first can = tt
  reader_lock-IsSafe take_resource can = taken-IsSafe _ s (os.take s.lock.resource_lock s.kernel)
  reader_lock-IsSafe give_read can = tt
  reader_lock-IsSafe give_block_readers can = tt

  reader_unlock-IsSafe :
      (pc : ReaderUnlockPc)
      → CanStep os s (in_reader_unlock pc) rest
      → IsSafe (reader_unlock os pc s)
  unfolding reader_unlock
  reader_unlock-IsSafe retake_read can = taken-IsSafe _ s (os.take s.lock.read_lock s.kernel)
  reader_unlock-IsSafe uncount_reader can =
      let some : 1 ≤ can.readers.count = omega (arith, can.readers.group.all_counted) in
      let (m, e) = positive_pred can.readers.count some in
      decrement-IsSafe m s.lock.read_count _ s (can.readers.counts ∙ ap pos e) (λ k. tt)
  reader_unlock-IsSafe test_last can = tt
  reader_unlock-IsSafe give_resource can = tt
  reader_unlock-IsSafe regive_read can = tt

  writer_lock-IsSafe :
      (pc : WriterLockPc) → CanStep os s (in_writer_lock pc) rest → IsSafe (writer_lock os pc s)
  unfolding writer_lock
  writer_lock-IsSafe take_write can = taken-IsSafe _ s (os.take s.lock.write_lock s.kernel)
  writer_lock-IsSafe count_writer can =
      increment-IsSafe can.writers.count s.lock.write_count _ s can.writers.counts
        (omega (arith, can.writers.group.all_counted, writers_fit rest, can.few)) (λ m. tt)
  writer_lock-IsSafe test_first_writer can = tt
  writer_lock-IsSafe block_readers can =
      taken-IsSafe _ s (os.take s.lock.block_readers_lock s.kernel)
  writer_lock-IsSafe give_write can = tt
  writer_lock-IsSafe await_resource can = taken-IsSafe _ s (os.take s.lock.resource_lock s.kernel)

  writer_unlock-IsSafe :
      (pc : WriterUnlockPc)
      → CanStep os s (in_writer_unlock pc) rest
      → IsSafe (writer_unlock os pc s)
  unfolding writer_unlock
  writer_unlock-IsSafe release_resource can = tt
  writer_unlock-IsSafe retake_write can = taken-IsSafe _ s (os.take s.lock.write_lock s.kernel)
  writer_unlock-IsSafe uncount_writer can =
      let some : 1 ≤ can.writers.count = omega (arith, can.writers.group.all_counted) in
      let (m, e) = positive_pred can.writers.count some in
      decrement-IsSafe m s.lock.write_count _ s (can.writers.counts ∙ ap pos e) (λ k. tt)
  writer_unlock-IsSafe test_last_writer can = tt
  writer_unlock-IsSafe unblock_readers can = tt
  writer_unlock-IsSafe regive_write can = tt

  pub exec-IsSafe : (c : Choice) (p : Pc) → CanStep os s p rest → IsSafe (exec os c p s)
  unfolding exec
  exec-IsSafe read idle can = tt
  exec-IsSafe write idle can = tt
  exec-IsSafe c (in_reader_lock pc) can = reader_lock-IsSafe pc can
  exec-IsSafe c reading can = tt
  exec-IsSafe c (in_reader_unlock pc) can = reader_unlock-IsSafe pc can
  exec-IsSafe c (in_writer_lock pc) can = writer_lock-IsSafe pc can
  exec-IsSafe c writing can = tt
  exec-IsSafe c (in_writer_unlock pc) can = writer_unlock-IsSafe pc can
